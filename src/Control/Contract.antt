-- ===== src/Control/Contract.antt =====
-- What each handler of the control service promises, on the abstract state: transactions, listeners
-- and events are out of sight.
use gmrender_resurrect.Prelude.{ℕ, zero, suc, leb, none, some, [], if◌then◌else◌}
use gmrender_resurrect.Prelude.Text.{Bytes, codes}
use gmrender_resurrect.Prelude.Int.{ℤ, pos, negsuc, same_int}
use gmrender_resurrect.Prelude.Run.{Run}
use gmrender_resurrect.XmlDoc.{Ixml}
use gmrender_resurrect.ActionEvent.{Upnp, with_response, request_string}
use gmrender_resurrect.Output.{OutputModule, output_set_volume, output_set_mute}
use gmrender_resurrect.Abstract.{Abs}
use gmrender_resurrect.Abstract.Calls.{asked}
use gmrender_resurrect.Control.{DoubleMath, print_into, fraction}
use gmrender_resurrect.Control.Numbers.{atoi}
use gmrender_resurrect.Control.Table.{put}
use gmrender_resurrect.Control.Volume.{
  volume_level_to_decibel, volume_decibel_to_level, decibel_units,
}
use gmrender_resurrect.Control.Variables.{ControlVariable, variable_num, volume, volume_db, mute}

-- What Mute shows for a number: "0" for 0 only.
abbrev pub shown_mute : ℤ → Bytes
shown_mute (pos zero) = codes "0"
shown_mute (pos (suc n)) = codes "1"
shown_mute (negsuc n) = codes "1"

-- The level from 0 to 100 that is nearest to a number.
abbrev pub cut_level : ℤ → ℤ
cut_level (negsuc n) = pos 0
cut_level (pos n) = if leb n 100 then pos n else pos 100

-- What VolumeDB shows at a level.
unfoldable pub db_text : ℤ → Bytes
db_text level = elim (decibel_units (volume_level_to_decibel level)) [
  | none ↦ []
  | some units ↦ print_into 10 units
]

abbrev pub with_volume : Bytes → ℤ → (ℕ → Bytes) → ℕ → Bytes
with_volume text level f = put volume_db (db_text level) (put volume text f)

module _ ⦃x : Ixml⦄ ⦃u : Upnp⦄ ⦃o : OutputModule⦄ where
  -- Any number but 0 mutes.
  abbrev pub muted : ℤ → Abs → Abs
  muted do_mute v = record v {
    var = put mute (shown_mute do_mute) v.var;
    out = (output_set_mute do_mute v.out).1;
  }

  unfoldable pub set_mute_contract : Run Abs ℤ
  set_mute_contract v = elim (request_string (codes "DesiredMute") v.event.request) [
    | none ↦ none
    | some text ↦ some (pos 0, muted (atoi text) v)
  ]

  -- The range of VolumeDB, whatever the request says.
  unfoldable pub dbrange_contract : Run Abs ℤ
  dbrange_contract v = some (
    pos 0,
    record v {
      event =
          (with_response (codes "MaxValue") (codes "0")
            (with_response (codes "MinValue") (codes "-15360") v.event).1).1;
    },
  )

  -- An answer with one variable.
  unfoldable pub obtain_contract : ControlVariable → Bytes → Run Abs ℤ
  obtain_contract var paramname v = elim (request_string (codes "InstanceID") v.event.request) [
    | none ↦ some (negsuc 0, record v { event = asked (codes "InstanceID") v.event })
    | some _ ↦
        some (
          pos 0,
          record v { event = (with_response paramname (v.var (variable_num var)) v.event).1 },
        )
  ]

module _ ⦃m : DoubleMath⦄ ⦃x : Ixml⦄ ⦃u : Upnp⦄ ⦃o : OutputModule⦄ where
  -- The variables and the output at a level that `text` asked for.
  abbrev pub at_level : Bytes → ℤ → Abs → Abs
  at_level text level v = record v {
    var = with_volume text level v.var;
    out = (output_set_volume (fraction (volume_level_to_decibel level)) v.out).1;
  }

  -- `set_volume`: the level is cut to the range, Volume is not; level 0 mutes, any other unmutes.
  unfoldable pub set_volume_contract : Run Abs ℤ
  set_volume_contract v = elim (request_string (codes "DesiredVolume") v.event.request) [
    | none ↦ none
    | some text ↦
        let level = cut_level (atoi text) in
        some
          (pos 0, muted (if same_int level (pos 0) then pos 1 else pos 0) (at_level text level v))
  ]

  -- `set_volume_db`: the level nearest below the decibels that are asked for, and its decibels.
  unfoldable pub set_volume_db_contract : Run Abs ℤ
  set_volume_db_contract v = elim (request_string (codes "DesiredVolume") v.event.request) [
    | none ↦ none
    | some text ↦ elim (volume_decibel_to_level (m.narrow (m.atof text))) [
      | none ↦ none
      | some level ↦ some (pos 0, at_level (print_into 10 level) level v)
    ]
  ]
