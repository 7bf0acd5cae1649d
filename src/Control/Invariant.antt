-- ===== src/Control/Invariant.antt =====
-- The life of the control service as a sequence of requests, and what holds after each of them.
use gmrender_resurrect.Prelude.{
  ℕ, zero, suc, ◌≤◌, ◌≡◌, ◌≢◌, refl, sym, ap, ◌∙◌, arith, ◌⊎◌, inl, inr, Option, none, some, [],
  ◌∷◌, List,
}
use mathlib.Core.Path.{subst}
use mathlib.Core.Option.{none-ne-some, some-injective}
use gmrender_resurrect.Prelude.Text.{Bytes, codes}
use gmrender_resurrect.Prelude.Int.{ℤ, pos, negsuc, pos_part}
use gmrender_resurrect.Prelude.Float.{
  Float, number, infinity, minus_infinity, nan, fsub, fadd, fmul, fdiv, flt, to_int, fneg,
}
use gmrender_resurrect.Prelude.Run.{Run}
use gmrender_resurrect.XmlDoc.{Ixml}
use gmrender_resurrect.ActionEvent.{Upnp, ActionEvent, Session, request_string, with_response}
use gmrender_resurrect.Output.{OutputModule}
use gmrender_resurrect.Transport.{Own}
use gmrender_resurrect.Abstract.{Abs, abs, IsGood, Refines}
use gmrender_resurrect.Abstract.Ends.{Refines-ends}
use gmrender_resurrect.Control.{DoubleMath, print_into}
use gmrender_resurrect.Transport.Time.{decimal}
use gmrender_resurrect.Control.Numbers.{atoi}
use gmrender_resurrect.Control.Table.{control_table, put}
use gmrender_resurrect.Control.Volume.{
  volume_level_to_decibel, decibel_units, vol_min_db, vol_mid_db, vol_max_db,
  volume_decibel_to_level,
}
use gmrender_resurrect.Control.Volume.Levels.{volume_decibel_to_level-range}
use gmrender_resurrect.Control.Variables.{ControlVariable, variable_num, volume_db, mute}
use gmrender_resurrect.Abstract.Calls.{asked}
use gmrender_resurrect.Control.Actions.{
  ControlCmd, get_blue_black, get_blue_gain, get_brightness, get_color_temp, get_contrast,
  get_green_black, get_green_gain, get_hor_keystone, get_loudness, get_mute, get_red_black,
  get_red_gain, get_sharpness, get_vert_keystone, get_vol, get_vol_db, get_vol_dbrange,
  list_presets, set_mute, set_vol, set_vol_db, handler,
}
use gmrender_resurrect.Control.Refinement.{
  dbrange-Refines, set_mute-Refines, set_volume-Refines, set_volume_db-Refines,
}
use gmrender_resurrect.Control.Promises.{is_query, answers, query_contract, query-Refines}
use gmrender_resurrect.Control.Handlers.{mutes}
use gmrender_resurrect.Control.Contract.{
  db_text, cut_level, shown_mute, with_volume, muted, at_level, set_mute_contract,
  set_volume_contract, set_volume_db_contract, obtain_contract, dbrange_contract,
}

-- VolumeDB shows the decibels of a level from 0 to 100, and Mute shows 0 or 1.
pub record IsTuned (f : ℕ → Bytes) : Type 0 where
  pub level : ℕ
  pub level-le : level ≤ 100
  pub decibels_shown : f (variable_num volume_db) ≡ db_text (pos level)
  pub mute_shown : (f (variable_num mute) ≡ codes "0") ⊎ (f (variable_num mute) ≡ codes "1")

-- Level 100 is 0 decibels.
pub db_text_full : db_text (pos 100) ≡ codes "0"
unfolding db_text volume_level_to_decibel decibel_units print_into decimal
db_text_full = refl

shown_mute-cases : (n : ℤ) → (shown_mute n ≡ codes "0") ⊎ (shown_mute n ≡ codes "1")
shown_mute-cases (pos zero) = inl refl
shown_mute-cases (pos (suc n)) = inr refl
shown_mute-cases (negsuc n) = inr refl

put_mute-IsTuned : (n : ℤ) (f : ℕ → Bytes) → IsTuned f → IsTuned (put mute (shown_mute n) f)
put_mute-IsTuned n f h = record {
  level = h.level;
  level-le = h.level-le;
  decibels_shown = h.decibels_shown;
  mute_shown = shown_mute-cases n;
}

with_volume-IsTuned :
    (text : Bytes) (n : ℕ) (f : ℕ → Bytes)
    → n ≤ 100
    → IsTuned f
    → IsTuned (with_volume text (pos n) f)
with_volume-IsTuned text n f lt h = record {
  level = n;
  level-le = lt;
  decibels_shown = refl;
  mute_shown = h.mute_shown;
}

cut_level-pos : (volume : ℤ) → cut_level volume ≡ pos (pos_part (cut_level volume))
cut_level-pos (pos n) = ground arith
cut_level-pos (negsuc n) = refl

cut_level-le : (volume : ℤ) → pos_part (cut_level volume) ≤ 100
cut_level-le (pos n) = ground arith
cut_level-le (negsuc n) = omega arith

nan-cases : (decibel : Float) → (decibel ≡ nan) ⊎ (decibel ≢ nan)
nan-cases nan = inl refl
nan-cases (number a) = inr λ e. cc
nan-cases infinity = inr λ e. cc
nan-cases minus_infinity = inr λ e. cc

-- A NaN has no level: C leaves its conversion undefined.
no_level : volume_decibel_to_level nan ≡ none
unfolding volume_decibel_to_level fsub fadd fmul fdiv flt to_int fneg vol_min_db vol_mid_db
    vol_max_db
no_level = refl

-- A level that the decibels have is in the range.
level-range :
    (decibel : Float) (level : ℤ)
    → volume_decibel_to_level decibel ≡ some level
    → (n : ℕ) × (level ≡ pos n) × (n ≤ 100)
level-range decibel level e = by_nan (nan-cases decibel)
  where
    by_nan : (decibel ≡ nan) ⊎ (decibel ≢ nan) → (n : ℕ) × (level ≡ pos n) × (n ≤ 100)
    by_nan (inl en) =
        absurd (none-ne-some _ (sym no_level ∙ sym (ap volume_decibel_to_level en) ∙ e))
    by_nan (inr ne) =
        let (n, en, lt) = volume_decibel_to_level-range decibel ne in
        (n, some-injective _ _ (sym e ∙ en), lt)

module _ ⦃x : Ixml⦄ ⦃u : Upnp⦄ ⦃o : OutputModule⦄ where
  abbrev pub Keeps : Option (ℤ × Abs) → Type 0
  Keeps none = Unit
  Keeps (some (_, v)) = IsTuned v.var

  set_mute-Keeps : (v : Abs) → IsTuned v.var → Keeps (set_mute_contract v)
  unfolding set_mute_contract
  set_mute-Keeps v h = by_value (request_string (codes "DesiredMute") v.event.request)
    where
      by_value :
          (value : Option Bytes)
          → Keeps (elim value [ none ↦ none | some text ↦ some (pos 0, muted (atoi text) v) ])
      by_value none = tt
      by_value (some text) = put_mute-IsTuned (atoi text) v.var h

module _ ⦃m : DoubleMath⦄ ⦃x : Ixml⦄ ⦃u : Upnp⦄ ⦃o : OutputModule⦄ where
  set_volume-Keeps : (v : Abs) → IsTuned v.var → Keeps (set_volume_contract v)
  unfolding set_volume_contract
  set_volume-Keeps v h = by_value (request_string (codes "DesiredVolume") v.event.request)
    where
      at_text :
          (text : Bytes) (level : ℤ)
          → level ≡ pos (pos_part level)
          → pos_part level ≤ 100
          → IsTuned (put mute (shown_mute (mutes level)) (with_volume text level v.var))
      at_text text level e lt = put_mute-IsTuned (mutes level) _ (
          subst (λ l. IsTuned (with_volume text l v.var)) (sym e)
            (with_volume-IsTuned text (pos_part level) v.var lt h))

      by_value :
          (value : Option Bytes)
          → Keeps (elim value [
            | none ↦ none
            | some text ↦
                let level = cut_level (atoi text) in
                some (pos 0, muted (mutes level) (at_level text level v))
          ])
      by_value none = tt
      by_value (some text) =
          at_text text (cut_level (atoi text)) (cut_level-pos (atoi text))
            (cut_level-le (atoi text))

  set_volume_db-Keeps : (v : Abs) → IsTuned v.var → Keeps (set_volume_db_contract v)
  unfolding set_volume_db_contract
  set_volume_db-Keeps v h = by_value (request_string (codes "DesiredVolume") v.event.request)
    where
      by_level :
          (decibel : Float) (r : Option ℤ)
          → volume_decibel_to_level decibel ≡ r
          → Keeps (elim r [
            | none ↦ none
            | some level ↦ some (pos 0, at_level (print_into 10 level) level v)
          ])
      by_level decibel none e = tt
      by_level decibel (some level) e =
          let (n, en, lt) = level-range decibel level e in
          subst (λ l. IsTuned (with_volume (print_into 10 level) l v.var)) (sym en)
            (with_volume-IsTuned (print_into 10 level) n v.var lt h)

      by_value :
          (value : Option Bytes)
          → Keeps (elim value [
            | none ↦ none
            | some text ↦ elim (volume_decibel_to_level (m.narrow (m.atof text))) [
              | none ↦ none
              | some level ↦ some (pos 0, at_level (print_into 10 level) level v)
            ]
          ])
      by_value none = tt
      by_value (some text) = by_level (m.narrow (m.atof text)) _ refl

  query-Keeps :
      (vars : List (ControlVariable × Bytes)) (v : Abs)
      → IsTuned v.var
      → Keeps (query_contract vars v)
  unfolding query_contract obtain_contract
  query-Keeps [] v h = tt
  query-Keeps ((var, name) ∷ []) v h =
      by_value (request_string (codes "InstanceID") v.event.request)
    where
      by_value :
          (value : Option Bytes)
          → Keeps (elim value [
            | none ↦ some (negsuc 0, record v { event = asked (codes "InstanceID") v.event })
            | some _ ↦ some (
              pos 0,
              record v { event = (with_response name (v.var (variable_num var)) v.event).1 },
            )
          ])
      by_value none = h
      by_value (some _) = h
  query-Keeps (a ∷ b ∷ rest) v h = tt

  -- What the callback of a command promises.
  unfoldable pub promised : ControlCmd → Run Abs ℤ
  promised get_vol_dbrange = dbrange_contract
  promised set_mute = set_mute_contract
  promised set_vol = set_volume_contract
  promised set_vol_db = set_volume_db_contract
  promised cmd = query_contract (answers cmd)

  handler-Refines : (cmd : ControlCmd) → Refines (handler cmd) (promised cmd)
  unfolding handler promised is_query
  handler-Refines get_vol_dbrange = dbrange-Refines
  handler-Refines set_mute = set_mute-Refines
  handler-Refines set_vol = set_volume-Refines
  handler-Refines set_vol_db = set_volume_db-Refines
  handler-Refines get_blue_black = query-Refines get_blue_black refl
  handler-Refines get_blue_gain = query-Refines get_blue_gain refl
  handler-Refines get_brightness = query-Refines get_brightness refl
  handler-Refines get_color_temp = query-Refines get_color_temp refl
  handler-Refines get_contrast = query-Refines get_contrast refl
  handler-Refines get_green_black = query-Refines get_green_black refl
  handler-Refines get_green_gain = query-Refines get_green_gain refl
  handler-Refines get_hor_keystone = query-Refines get_hor_keystone refl
  handler-Refines get_loudness = query-Refines get_loudness refl
  handler-Refines get_mute = query-Refines get_mute refl
  handler-Refines get_red_black = query-Refines get_red_black refl
  handler-Refines get_red_gain = query-Refines get_red_gain refl
  handler-Refines get_sharpness = query-Refines get_sharpness refl
  handler-Refines get_vert_keystone = query-Refines get_vert_keystone refl
  handler-Refines get_vol = query-Refines get_vol refl
  handler-Refines get_vol_db = query-Refines get_vol_db refl
  handler-Refines list_presets = query-Refines list_presets refl

  promised-Keeps : (cmd : ControlCmd) (v : Abs) → IsTuned v.var → Keeps (promised cmd v)
  unfolding promised dbrange_contract
  promised-Keeps get_vol_dbrange v h = h
  promised-Keeps set_mute v h = set_mute-Keeps v h
  promised-Keeps set_vol v h = set_volume-Keeps v h
  promised-Keeps set_vol_db v h = set_volume_db-Keeps v h
  promised-Keeps get_blue_black v h = query-Keeps (answers get_blue_black) v h
  promised-Keeps get_blue_gain v h = query-Keeps (answers get_blue_gain) v h
  promised-Keeps get_brightness v h = query-Keeps (answers get_brightness) v h
  promised-Keeps get_color_temp v h = query-Keeps (answers get_color_temp) v h
  promised-Keeps get_contrast v h = query-Keeps (answers get_contrast) v h
  promised-Keeps get_green_black v h = query-Keeps (answers get_green_black) v h
  promised-Keeps get_green_gain v h = query-Keeps (answers get_green_gain) v h
  promised-Keeps get_hor_keystone v h = query-Keeps (answers get_hor_keystone) v h
  promised-Keeps get_loudness v h = query-Keeps (answers get_loudness) v h
  promised-Keeps get_mute v h = query-Keeps (answers get_mute) v h
  promised-Keeps get_red_black v h = query-Keeps (answers get_red_black) v h
  promised-Keeps get_red_gain v h = query-Keeps (answers get_red_gain) v h
  promised-Keeps get_sharpness v h = query-Keeps (answers get_sharpness) v h
  promised-Keeps get_vert_keystone v h = query-Keeps (answers get_vert_keystone) v h
  promised-Keeps get_vol v h = query-Keeps (answers get_vol) v h
  promised-Keeps get_vol_db v h = query-Keeps (answers get_vol_db) v h
  promised-Keeps list_presets v h = query-Keeps (answers list_presets) v h

  -- A request: a new event, and the callback of a command on it.
  pub data Served (s : Session Own) : Session Own → Type 0 where
    idle : Served s s
    served :
        {t w : Session Own} {rc : ℤ}
        → Served s t
        → (cmd : ControlCmd) (e : ActionEvent) → handler cmd (record t { event = e }) ≡ some (rc, w)
        → Served s w

  -- From a session of the control service that is ready, in which VolumeDB shows the decibels of a
  -- level from 0 to 100 and Mute is 0 or 1, every sequence of commands, whatever their requests say,
  -- leads to such a session.
  pub Served-IsTuned :
      {s t : Session Own}
      → IsGood s
      → IsTuned (abs s).var
      → Served s t
      → IsGood t × IsTuned (abs t).var
  Served-IsTuned good h idle = (good, h)
  Served-IsTuned good h (served {t} {w} {rc} r cmd e run) =
      let (g, k) = Served-IsTuned good h r in
      Refines-ends (handler-Refines cmd) Keeps (record t { event = e }) w rc g
        (promised-Keeps cmd (abs (record t { event = e })) k) run
