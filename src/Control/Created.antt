-- ===== src/Control/Created.antt =====
-- src/upnp_control.c: `upnp_control_get_service`, which makes the variables of the service, and
-- `upnp_control_init`, which takes the volume from the output and attaches the collector.
use gmrender_resurrect.Prelude.{
  ℕ, ◌≡◌, refl, sym, arith, Option, none, some, inl, [], true, false, if◌then◌else◌,
}
use gmrender_resurrect.Prelude.Text.{Bytes, codes}
use gmrender_resurrect.Prelude.Int.{ℤ, pos, same_int}
use gmrender_resurrect.Prelude.Float.{Float}
use gmrender_resurrect.Prelude.Run.{◌>>=◌, ◌>>◌, pure, gets, assert}
use gmrender_resurrect.XmlDoc.{Ixml}
use gmrender_resurrect.VariableContainer
use gmrender_resurrect.VariableContainer.{
  VarMeta, Container, Listener, create_sorted_meta, insert_meta, fill,
}
use gmrender_resurrect.LastChangeCollector
use gmrender_resurrect.LastChangeCollector.{Service, Collector}
use gmrender_resurrect.LastChangeCollector.Fresh.{new-IsReady}
use gmrender_resurrect.ActionEvent.{Upnp, ActionEvent, Session}
use gmrender_resurrect.Output.{OutputModule, output_get_volume}
use gmrender_resurrect.Transport.{Own, Transport, on_service}
use gmrender_resurrect.Abstract.{IsGood, abs}
use gmrender_resurrect.Control.{DoubleMath, change_volume_decibel, decibel_of_fraction}
use gmrender_resurrect.Control.Invariant.{IsTuned, db_text_full}
use gmrender_resurrect.Control.Variables.{
  variable_num, variable_count, control_var_meta, aat_channel, aat_instance_id, aat_preset_name,
  volume_db, mute,
}
use gmrender_resurrect.Control.Table.{control_table, lc, control_metas}

-- The values of the variables at the start.
pub created_container : Option Container
unfolding VariableContainer.new
created_container = VariableContainer.new variable_count control_var_meta

abbrev pub event_xml_ns : Bytes
event_xml_ns = codes "urn:schemas-upnp-org:metadata-1-0/RCS/"

abbrev pub control_service_id : Bytes
control_service_id = codes "urn:upnp-org:serviceId:RenderingControl"

module _ ⦃x : Ixml⦄ where
  -- `upnp_control_get_service` at its first call.
  unfoldable pub get_service : x.Dom → Option Service
  unfolding created_container
  get_service dom = elim created_container [
    | none ↦ none
    | some c ↦ some (record { container = c; last_change = none; dom = dom; notified = [] })
  ]

  -- `UPnPLastChangeCollector_add_ignore` on the collector of the service.
  unfoldable pub ignore : ℕ → Service → Service
  unfolding LastChangeCollector.add_ignore
  ignore n s = record s {
    last_change = elim s.last_change [
      | none ↦ none
      | some c ↦ some (LastChangeCollector.add_ignore c n)
    ];
  }

  -- `upnp_control_register_variable_listener`
  unfoldable pub register_variable_listener : Listener → Service → Service
  unfolding VariableContainer.register_callback
  register_variable_listener cb s = record s {
    container = VariableContainer.register_callback s.container cb;
  }

module _ ⦃m : DoubleMath⦄ ⦃x : Ixml⦄ ⦃u : Upnp⦄ ⦃o : OutputModule⦄ where
  abbrev get_volume : Transport (ℤ × Float)
  get_volume s =
      let (rc, value, out) = output_get_volume s.own.output in
      some ((rc, value), record s { own = record s.own { output = out } })

  abbrev start_at : Float → Transport (Unit {0})
  start_at volume_fraction = change_volume_decibel (decibel_of_fraction volume_fraction) >> pure tt

  -- The first part of `upnp_control_init`: the volume that the output tells.
  unfoldable pub initial_volume : Transport (Unit {0})
  unfolding output_get_volume change_volume_decibel decibel_of_fraction
  initial_volume = do
    told ← get_volume
    if same_int told.0 (pos 0) then start_at told.1 else pure tt

  -- `upnp_control_init`
  unfoldable pub upnp_control_init : Transport (Unit {0})
  unfolding initial_volume LastChangeCollector.new ignore
  upnp_control_init = do
    initial_volume
    last_change ← gets (λ s. s.service.last_change)
    assert (elim last_change [ none ↦ true | some _ ↦ false ])
    on_service (LastChangeCollector.new (some event_xml_ns) control_service_id)
    on_service (λ s. some (tt, ignore (variable_num aat_channel) s))
    on_service (λ s. some (tt, ignore (variable_num aat_instance_id) s))
    on_service (λ s. some (tt, ignore (variable_num aat_preset_name) s))

module _ ⦃x : Ixml⦄ ⦃u : Upnp⦄ ⦃o : OutputModule⦄ where
  -- The file at its start, in a session.
  abbrev pub in_session : Service → ActionEvent → Own → Session Own
  in_session service event own = record { event = event; service = service; own = own }

  -- The table of the control service's variables passes every `assert` of `VariableContainer_new`, so
  -- that the service is made; it is ready, VolumeDB shows the decibels of some level up to 100, namely
  -- "0", and Mute shows "0".
  pub control_service-Returns :
      (dom : x.Dom) (event : ActionEvent) (own : Own)
      → (service : Service) × (get_service dom ≡ some service)
        × IsGood (in_session service event own)
        × IsTuned (abs (in_session service event own)).var
        × ((abs (in_session service event own)).var (variable_num volume_db) ≡ codes "0")
        × ((abs (in_session service event own)).var (variable_num mute) ≡ codes "0")
  unfolding get_service created_container VariableContainer.new create_sorted_meta insert_meta
      control_metas fill
  control_service-Returns dom event own = (
    _,
    refl,
    new-IsReady variable_count control_var_meta lc _ _ refl refl refl refl (omega arith),
    record {
      level = 100;
      level-le = omega arith;
      decibels_shown = sym db_text_full;
      mute_shown = inl refl;
    },
    refl,
    refl,
  )
