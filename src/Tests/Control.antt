-- ===== src/Tests/Control.antt =====
-- The properties of the control service on concrete runs, with doubles that are whole numbers and a
-- session of the service as it is created.
use gmrender_resurrect.Prelude.{ℕ, ◌≡◌, ◌≤◌, refl, sym, arith, inl, true, none, some, [], ◌∷◌, set}
use gmrender_resurrect.Prelude.Text.{codes, str_eq}
use gmrender_resurrect.Prelude.Int.{ℤ, pos, negsuc, ◌≤ℤ◌}
use gmrender_resurrect.Prelude.Float.{of_int, flt}
use gmrender_resurrect.VariableContainer.{Container, create_sorted_meta, insert_meta, fill}
use gmrender_resurrect.LastChangeCollector.Fresh.{new-IsReady}
use gmrender_resurrect.Control.Variables.{
  variable_num, volume_db, mute, variable_count, control_var_meta,
}
use gmrender_resurrect.Transport.Time.{decimal}
use gmrender_resurrect.VariableContainer
use gmrender_resurrect.LastChangeCollector.{Service}
use gmrender_resurrect.ActionEvent.{ActionEvent, Session, arguments, success}
use gmrender_resurrect.Transport.{Own, stopped}
use gmrender_resurrect.Abstract.{abs, IsGood, Match}
use gmrender_resurrect.Tests.{recorder, listing, counter}
use gmrender_resurrect.Control.{DoubleMath}
use gmrender_resurrect.Control.Volume.{
  volume_db_range, volume_level_to_decibel, volume_decibel_to_level, decibel_units,
}
use gmrender_resurrect.Control.Volume.Levels.{volume_decibel_to_level-range}
use gmrender_resurrect.Control.Volume.Decibels.{
  returned, level_from_decibel-decibel, decibel_units-range, volume_level_to_decibel_mono,
}
use gmrender_resurrect.Control.Table.{control_table, control_metas, lc}
use gmrender_resurrect.Control.Contract.{
  set_mute_contract, set_volume_contract, set_volume_db_contract,
}
use gmrender_resurrect.Control.Handlers
use gmrender_resurrect.Control.Actions.{get_vol_db, set_vol, handler}
use gmrender_resurrect.Control.Promises.{
  is_query, answers, query_contract, set_mute-Match, set_volume-Match, set_volume_db-Match,
  obtained-Match,
}
use gmrender_resurrect.Control.Created.{get_service, in_session, control_service-Returns}
use gmrender_resurrect.Control.Invariant.{IsTuned, idle, served, Served-IsTuned, db_text_full}

-- Doubles that are whole numbers, of which the logarithm and the power are the number itself.
instance abbrev whole : DoubleMath
whole = record {
  Double = ℤ;
  of_int = λ n. n;
  widen = λ x. pos 0;
  narrow = λ n. of_int n;
  times = λ a b. a;
  over = λ a b. a;
  exp = λ a. a;
  log = λ a. a;
  atof = λ s. negsuc 19;
}

volume_decibel_to_level-range_example :
    (level : ℕ) × (volume_decibel_to_level (of_int (negsuc 29)) ≡ some (pos level)) × (level ≤ 100)
unfolding of_int
volume_decibel_to_level-range_example = volume_decibel_to_level-range (of_int (negsuc 29)) (λ e. cc)

level_from_decibel-decibel_example :
    volume_decibel_to_level (volume_level_to_decibel (pos 7)) ≡ some (pos 6)
unfolding returned
level_from_decibel-decibel_example = level_from_decibel-decibel (pos 7)

decibel_units-range_example :
    (d : ℤ) × (decibel_units (volume_level_to_decibel (pos 33)) ≡ some d)
    × (volume_db_range.min ≤ℤ d)
    × (d ≤ℤ volume_db_range.max)
decibel_units-range_example = decibel_units-range (pos 33)

volume_level_to_decibel_mono_example :
    flt (volume_level_to_decibel (pos 49)) (volume_level_to_decibel (pos 51)) ≡ true
volume_level_to_decibel_mono_example =
    volume_level_to_decibel_mono 49 51 (omega arith) (omega arith)

abbrev volume_event : ActionEvent
volume_event = record {
  request = arguments (
      (codes "InstanceID", some (codes "0"))
      ∷ (codes "DesiredVolume", some (codes "33"))
      ∷ (codes "DesiredMute", some (codes "1"))
      ∷ []);
  action_name = codes "SetVolume";
  service_type = codes "RenderingControl";
  action_result = none;
  err_code = success;
  err_str = none;
  status = pos 0;
}

abbrev own : Own
own = record { transport_state = stopped; output = 0 }

abbrev start_container : Container
start_container = record {
  variable_num = 21;
  vars = control_metas;
  values =
      codes "0"
      ∷ codes "0"
      ∷ codes "0"
      ∷ codes "0"
      ∷ codes "0"
      ∷ codes "0"
      ∷ codes "0"
      ∷ codes "0"
      ∷ codes "0"
      ∷ codes "0"
      ∷ codes ""
      ∷ codes "0"
      ∷ codes "0"
      ∷ codes "0"
      ∷ codes "<Event xmlns = \"urn:schemas-upnp-org:metadata-1-0/RCS/\"/>"
      ∷ codes ""
      ∷ codes "0"
      ∷ codes "0"
      ∷ codes ""
      ∷ codes "0"
      ∷ codes "0"
      ∷ [];
  callbacks = [];
}

abbrev session : Session Own
session =
    in_session (record { container = start_container; last_change = none; dom = []; notified = [] })
      volume_event own

made : VariableContainer.new variable_count control_var_meta ≡ some start_container
unfolding VariableContainer.new create_sorted_meta insert_meta control_var_meta control_metas fill
made = refl

session-IsGood : IsGood session
unfolding control_metas
session-IsGood =
    new-IsReady variable_count control_var_meta lc session.service start_container made refl refl
      refl (omega arith)

control_service-Returns_example :
    (s : Service) × (get_service [] ≡ some s)
    × IsGood (in_session s volume_event own)
    × IsTuned (abs (in_session s volume_event own)).var
    × ((abs (in_session s volume_event own)).var (variable_num volume_db) ≡ codes "0")
    × ((abs (in_session s volume_event own)).var (variable_num mute) ≡ codes "0")
control_service-Returns_example = control_service-Returns [] volume_event own

set_mute-Match_example : Match (set_mute_contract (abs session)) (Handlers.set_mute session)
set_mute-Match_example = set_mute-Match session session-IsGood

set_volume-Match_example : Match (set_volume_contract (abs session)) (Handlers.set_volume session)
set_volume-Match_example = set_volume-Match session session-IsGood

set_volume_db-Match_example :
    Match (set_volume_db_contract (abs session)) (Handlers.set_volume_db session)
set_volume_db-Match_example = set_volume_db-Match session session-IsGood

obtained-Match_example :
    Match (query_contract (answers get_vol_db) (abs session)) (handler get_vol_db session)
unfolding is_query
obtained-Match_example = obtained-Match get_vol_db session refl session-IsGood

session-IsTuned : IsTuned (abs session).var
session-IsTuned = record {
  level = 100;
  level-le = omega arith;
  decibels_shown = sym db_text_full;
  mute_shown = inl refl;
}

-- The session after a SetVolume of 33.
abbrev louder : Session Own
louder = record session {
  service = record session.service {
    container = record start_container {
      values =
          set (set (set start_container.values 4 (codes "33")) 17 (codes "-8601")) 13 (codes "0");
    };
  };
  own = record { transport_state = stopped; output = 2 };
}

volume_asked : handler set_vol (record session { event = volume_event }) ≡ some (pos 0, louder)
unfolding handler Handlers.set_volume Handlers.set_volume_locked str_eq control_metas decimal
volume_asked = refl

Served-IsTuned_example : IsGood louder × IsTuned (abs louder).var
Served-IsTuned_example =
    Served-IsTuned {s = session} session-IsGood session-IsTuned
      (served idle set_vol volume_event volume_asked)
