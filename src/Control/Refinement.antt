-- ===== src/Control/Refinement.antt =====
-- The handlers of the control service keep their promises.
use mathlib.Core.Path.{fun_ext}
use gmrender_resurrect.Prelude.{
  ℕ, ◌≡◌, ◌≢◌, zero, suc, refl, ap, ◌∙◌, arith, Option, none, some, [],
}
use gmrender_resurrect.Prelude.Text.{Bytes, codes}
use gmrender_resurrect.Prelude.Int.{ℤ, pos, negsuc}
use gmrender_resurrect.Prelude.Float.{Float}
use gmrender_resurrect.Prelude.Run.{Run, ◌>>=◌, ◌>>◌, pure, deref, returns}
use gmrender_resurrect.XmlDoc.{Ixml}
use gmrender_resurrect.LastChangeCollector.Changes.{update}
use gmrender_resurrect.ActionEvent.{
  Upnp, ActionEvent, upnp_append_variable, upnp_get_string, upnp_add_response, request_string,
  with_response,
}
use gmrender_resurrect.Output.{OutputModule, output_set_volume, output_set_mute}
use gmrender_resurrect.Abstract.{
  Abs, Refines, Refines-eq, Refines-bind, Refines-pure, Refines-deref, Refines-fault,
  Refines-on_output,
}
use gmrender_resurrect.Transport.{Transport}
use gmrender_resurrect.Abstract.Calls.{asked, Refines-get_string}
use gmrender_resurrect.Abstract.Transactions.{IsBlind, transaction}
use gmrender_resurrect.Control.{
  DoubleMath, print_into, mute_text, fraction, service_lock, service_unlock, change_volume,
  set_mute_toggle, change_volume_decibel,
}
use gmrender_resurrect.Transport.Time.{decimal}
use gmrender_resurrect.Control.Numbers.{atoi}
use gmrender_resurrect.Control.Volume.{
  clamp_level, volume_db_range, volume_level_to_decibel, volume_decibel_to_level, decibel_units,
}
use gmrender_resurrect.Control.Volume.Decibels.{decibel_units-range}
use gmrender_resurrect.Control.Variables.{ControlVariable, variable_num, volume, volume_db, mute}
use gmrender_resurrect.Control.Table.{
  control_table, lc, put, Refines-append_variable, Refines-replace_var,
}
use gmrender_resurrect.Control.Contract.{
  db_text, shown_mute, cut_level, with_volume, muted, set_mute_contract, dbrange_contract,
  obtain_contract, at_level, set_volume_contract, set_volume_db_contract,
}
use gmrender_resurrect.Control.Handlers.{
  cmd_obtain_variable, get_volume_dbrange, set_mute_locked, set_mute, set_volume_db_locked,
  set_volume_db, mutes, set_volume_locked, set_volume,
}

update_twice : (f : ℕ → Bytes) (n : ℕ) (a : Bytes) → update (update f n a) n a ≡ update f n a
update_twice f n a = fun_ext λ j. ground arith

module _ ⦃x : Ixml⦄ ⦃u : Upnp⦄ ⦃o : OutputModule⦄ where
  -- What follows the search for the InstanceID.
  abbrev answer_with : ControlVariable → Bytes → Option Bytes → Run Abs ℤ
  answer_with v paramname none a = some (negsuc 0, a)
  answer_with v paramname (some _) a =
      some
        (pos 0, record a { event = (with_response paramname (a.var (variable_num v)) a.event).1 })

  obtain-step :
      (v : ControlVariable) (paramname : Bytes)
      → variable_num v ≢ lc
      → (instance_id : Option Bytes)
      → Refines {A = ℤ}
          (elim instance_id [
            | none ↦ pure (negsuc 0)
            | some _ ↦ upnp_append_variable (variable_num v) paramname >> pure (pos 0)
          ])
          (answer_with v paramname instance_id)
  obtain-step v paramname ne none = Refines-pure (negsuc 0)
  obtain-step v paramname ne (some _) =
      Refines-eq (Refines-bind (Refines-append_variable v paramname ne) λ _. Refines-pure (pos 0))
        (λ a. refl)

  pub obtain-Refines :
      (v : ControlVariable) (paramname : Bytes)
      → variable_num v ≢ lc
      → Refines (cmd_obtain_variable v paramname) (obtain_contract v paramname)
  unfolding cmd_obtain_variable obtain_contract asked
  obtain-Refines v paramname ne =
      Refines-eq
        (Refines-bind (Refines-get_string (codes "InstanceID")) (obtain-step v paramname ne))
        (λ a. ground arith)

  response-Refines :
      (key value : Bytes)
      → Refines (upnp_add_response key value) (λ v. some (
        (with_response key value v.event).0,
        record v { event = (with_response key value v.event).1 },
      ))
  unfolding upnp_add_response
  response-Refines key value = record { apply = λ s good. returns _ _ (good, refl, refl) }

  pub dbrange-Refines : Refines get_volume_dbrange dbrange_contract
  unfolding get_volume_dbrange dbrange_contract decimal
  dbrange-Refines =
      Refines-eq
        (Refines-bind (response-Refines (codes "MinValue") (print_into 16 volume_db_range.min)) λ _.
          Refines-bind (response-Refines (codes "MaxValue") (codes "0")) λ _. Refines-pure (pos 0))
        (λ v. refl)

  shown_mute-eq : (do_mute : ℤ) → mute_text do_mute ≡ shown_mute do_mute
  shown_mute-eq (pos zero) = refl
  shown_mute-eq (pos (suc n)) = ground arith
  shown_mute-eq (negsuc n) = refl

  cut_level-eq : (n : ℤ) → clamp_level n ≡ cut_level n
  cut_level-eq (pos n) = ground arith
  cut_level-eq (negsuc n) = ground arith

  toggle-Refines :
      (do_mute : ℤ) → Refines (set_mute_toggle do_mute) (λ v. some (tt, muted do_mute v))
  unfolding set_mute_toggle
  toggle-Refines do_mute =
      Refines-eq
        (Refines-bind (Refines-replace_var mute (some (mute_text do_mute)) (omega arith))
          λ _. Refines-bind (Refines-on_output (output_set_mute do_mute)) λ _. Refines-pure tt)
        (λ v.
          ap (λ c. some (tt, record (muted do_mute v) { var = put mute c v.var }))
            (shown_mute-eq do_mute))

  -- The second change of Mute changes nothing.
  mute-locked-Refines :
      (value : Option Bytes)
      → Refines
          (set_mute_locked value)
          (λ v. elim value [ none ↦ none | some text ↦ some (tt, muted (atoi text) v) ])
  unfolding set_mute_locked
  mute-locked-Refines none = Refines-fault (λ v. refl) (λ s. refl)
  mute-locked-Refines (some text) =
      Refines-eq
        (Refines-bind (toggle-Refines (atoi text))
          λ _. Refines-replace_var mute (some (mute_text (atoi text))) (omega arith))
        (λ v.
          ap
            (λ c.
              some
                (tt, record (muted (atoi text) v) { var = put mute c (muted (atoi text) v).var }))
            (shown_mute-eq (atoi text))
          ∙ ap (λ f. some (tt, record (muted (atoi text) v) { var = f }))
              (update_twice v.var (variable_num mute) (shown_mute (atoi text))))

  -- A handler that reads one argument and works on it in a transaction.
  locked-Refines :
      (key : Bytes) (m : Option Bytes → Transport (Unit {0}))
      (f : Option Bytes → Run Abs (Unit {0}))
      → ((value : Option Bytes) → Refines (m value) (f value))
      → ((value : Option Bytes) → IsBlind (f value))
      → Refines
          (upnp_get_string key >>= λ value.
            service_lock >> (m value >> (service_unlock >> pure (pos 0))))
          (λ v.
            (f (request_string key v.event.request) >>= λ _. pure (pos 0))
              (record v { event = asked key v.event }))
  unfolding service_lock service_unlock
  locked-Refines key m f r blind =
      Refines-eq
        (Refines-bind (Refines-get_string key)
          λ value. transaction (λ _. pos 0) (r value) (blind value))
        (λ v. refl)

  pub set_mute-Refines : Refines set_mute set_mute_contract
  unfolding set_mute set_mute_contract asked
  set_mute-Refines =
      Refines-eq
        (locked-Refines (codes "DesiredMute") set_mute_locked _ mute-locked-Refines
          λ value v d. ground arith)
        (λ v. ground arith)

db_text-units :
    (level : ℤ)
    → (units : ℤ) × (decibel_units (volume_level_to_decibel level) ≡ some units)
      × (db_text level ≡ print_into 10 units)
unfolding db_text
db_text-units level =
    let (units, e, _, _) = decibel_units-range level in
    (units, e, ap (elim [ none ↦ [] | some units ↦ print_into 10 units ]) e)

module _ ⦃m : DoubleMath⦄ ⦃x : Ixml⦄ ⦃u : Upnp⦄ ⦃o : OutputModule⦄ where
  -- The conversion of a level's decibels to int is defined.
  units-step :
      {A : Type 0} (level : ℤ) (k : ℤ → Transport A) (f : Bytes → Run Abs A)
      → ((units : ℤ) → Refines (k units) (f (print_into 10 units)))
      → Refines (deref (decibel_units (volume_level_to_decibel level)) >>= k) (f (db_text level))
  units-step level k f r =
      let (units, e, t) = db_text-units level in
      rw e (rw t (Refines-eq (Refines-bind (Refines-deref (some units)) λ _. r units) (λ v. refl)))

  volume-Refines :
      (text units : Bytes)
      → Refines
          (change_volume (some text) (some units))
          (λ v. some (tt, record v { var = put volume_db units (put volume text v.var) }))
  unfolding change_volume
  volume-Refines text units =
      Refines-eq
        (Refines-bind (Refines-replace_var volume (some text) (omega arith))
          λ _. Refines-replace_var volume_db (some units) (omega arith))
        (λ v. refl)

  volume-locked-Refines :
      (value : Option Bytes)
      → Refines (set_volume_locked value) (λ v. elim value [
        | none ↦ none
        | some text ↦
            let level = cut_level (atoi text) in
            some (tt, muted (mutes level) (at_level text level v))
      ])
  unfolding set_volume_locked
  volume-locked-Refines none = Refines-fault (λ v. refl) (λ s. refl)
  volume-locked-Refines (some text) =
      let level = clamp_level (atoi text) in
      Refines-eq
        (units-step level _
          (λ db v. some (
            tt,
            muted (mutes level)
                (record (at_level text level v) { var = put volume_db db (put volume text v.var) }),
          ))
          λ units.
            Refines-eq
              (Refines-bind (volume-Refines text (print_into 10 units)) λ _.
                Refines-bind
                  (Refines-on_output (output_set_volume (fraction (volume_level_to_decibel level))))
                  λ _. toggle-Refines (mutes level))
              (λ v. refl))
        (λ v.
          ap (λ level. some (tt, muted (mutes level) (at_level text level v)))
            (cut_level-eq (atoi text)))

  pub set_volume-Refines : Refines set_volume set_volume_contract
  unfolding set_volume set_volume_contract asked
  set_volume-Refines =
      Refines-eq
        (locked-Refines (codes "DesiredVolume") set_volume_locked _ volume-locked-Refines
          λ value v d. ground arith)
        (λ v. ground arith)

  -- At the level that the decibels have, if the conversion to int is defined.
  abbrev quantized : Option ℤ → Run Abs Float
  quantized none v = none
  quantized (some level) v = some (
    volume_level_to_decibel level,
    record v { var = with_volume (print_into 10 level) level v.var },
  )

  quantized-Refines :
      (r : Option ℤ)
      → Refines
          (deref r >>= λ level. deref (decibel_units (volume_level_to_decibel level)) >>= λ units.
            change_volume (some (print_into 10 level)) (some (print_into 10 units))
            >> pure (volume_level_to_decibel level))
          (quantized r)
  quantized-Refines none = Refines-fault (λ v. refl) (λ s. refl)
  quantized-Refines (some level) =
      Refines-eq
        (Refines-bind (Refines-deref (some level)) λ level.
          units-step level
            (λ units.
              change_volume (some (print_into 10 level)) (some (print_into 10 units))
              >> pure (volume_level_to_decibel level))
            (λ db v. some (
              volume_level_to_decibel level,
              record v { var = put volume_db db (put volume (print_into 10 level) v.var) },
            ))
            λ units.
              Refines-eq
                (Refines-bind (volume-Refines (print_into 10 level) (print_into 10 units))
                  λ _. Refines-pure (volume_level_to_decibel level))
                (λ v. refl))
        (λ v. refl)

  pub decibel-Refines :
      (raw : Float) → Refines (change_volume_decibel raw) (quantized (volume_decibel_to_level raw))
  unfolding change_volume_decibel
  decibel-Refines raw = quantized-Refines (volume_decibel_to_level raw)

  abbrev turned : Option ℤ → Run Abs (Unit {0})
  turned none v = none
  turned (some level) v = some (tt, at_level (print_into 10 level) level v)

  turned_eq :
      (r : Option ℤ) (v : Abs)
      → (quantized r >>= λ decibel w.
            some (tt, record w { out = (output_set_volume (fraction decibel) w.out).1 }))
          v
        ≡ turned r v
  turned_eq none v = refl
  turned_eq (some level) v = refl

  abbrev db_run : Option Bytes → Run Abs (Unit {0})
  db_run none v = none
  db_run (some text) v = turned (volume_decibel_to_level (m.narrow (m.atof text))) v

  db-locked-Refines : (value : Option Bytes) → Refines (set_volume_db_locked value) (db_run value)
  unfolding set_volume_db_locked
  db-locked-Refines none = Refines-fault (λ v. refl) (λ s. refl)
  db-locked-Refines (some text) =
      Refines-eq
        (Refines-bind (decibel-Refines (m.narrow (m.atof text))) λ decibel.
          Refines-eq
            (Refines-bind (Refines-on_output (output_set_volume (fraction decibel)))
              λ _. Refines-pure tt)
            (λ v. refl))
        (turned_eq (volume_decibel_to_level (m.narrow (m.atof text))))

  turned-IsBlind : (r : Option ℤ) → IsBlind (turned r)
  turned-IsBlind none v d = refl
  turned-IsBlind (some level) v d = refl

  db_run-IsBlind : (value : Option Bytes) → IsBlind (db_run value)
  db_run-IsBlind none v d = refl
  db_run-IsBlind (some text) v d =
      turned-IsBlind (volume_decibel_to_level (m.narrow (m.atof text))) v d

  asked-some :
      (key : Bytes) (event : ActionEvent) (text : Bytes)
      → request_string key event.request ≡ some text
      → asked key event ≡ event
  unfolding asked
  asked-some key event text e = ground (arith, e)

  db_result :
      (r : Option ℤ) (v : Abs)
      → (turned r >>= λ _. pure (pos 0)) v
        ≡ elim r [ none ↦ none | some level ↦ some (pos 0, at_level (print_into 10 level) level v) ]
  db_result none v = refl
  db_result (some level) v = refl

  pub set_volume_db-Refines : Refines set_volume_db set_volume_db_contract
  unfolding set_volume_db set_volume_db_contract asked
  set_volume_db-Refines =
      Refines-eq
        (locked-Refines (codes "DesiredVolume") set_volume_db_locked db_run db-locked-Refines
          db_run-IsBlind)
        (λ v. by_value v (request_string (codes "DesiredVolume") v.event.request) refl)
    where
      by_value :
          (v : Abs) (value : Option Bytes)
          → request_string (codes "DesiredVolume") v.event.request ≡ value
          → (db_run value >>= λ _. pure (pos 0))
              (record v { event = asked (codes "DesiredVolume") v.event })
            ≡ elim value [
              | none ↦ none
              | some text ↦ elim (volume_decibel_to_level (m.narrow (m.atof text))) [
                | none ↦ none
                | some level ↦ some (pos 0, at_level (print_into 10 level) level v)
              ]
            ]
      by_value v none e = refl
      by_value v (some text) e =
          ap (λ event. (db_run (some text) >>= λ _. pure (pos 0)) (record v { event = event }))
            (asked-some (codes "DesiredVolume") v.event text e)
          ∙ db_result (volume_decibel_to_level (m.narrow (m.atof text))) v
