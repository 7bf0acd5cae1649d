-- ===== src/Control.antt =====
-- src/upnp_control.c: the RenderingControl service, first part: the parameters of the file and the
-- changes of its variables. The handlers run on a session, as those of the transport do: what the
-- process keeps outside the service is the output and the state of the transport.
pub mod Volume
pub mod Variables
pub mod Numbers
pub mod Handlers
pub mod Actions
pub mod Table
pub mod Contract
pub mod Refinement
pub mod Promises
pub mod Created
pub mod Invariant
use gmrender_resurrect.Prelude.{ℕ, ◌-◌, Bool, Option, none, some, ◌==◌, if◌then◌else◌, take}
use gmrender_resurrect.Prelude.Text.{Bytes, codes}
use gmrender_resurrect.Prelude.Int.{ℤ, pos, negsuc, same_int}
use gmrender_resurrect.Prelude.Float.{Float, of_int, fdiv}
use gmrender_resurrect.Prelude.Run.{◌>>=◌, ◌>>◌, pure, deref}
use gmrender_resurrect.XmlDoc.{Ixml}
use gmrender_resurrect.LastChangeCollector
use gmrender_resurrect.ActionEvent.{Upnp}
use gmrender_resurrect.Output.{OutputModule, output_set_mute}
use gmrender_resurrect.Transport
use gmrender_resurrect.Transport.{Transport, on_service, on_output}
use gmrender_resurrect.Transport.Time.{print_int}
use gmrender_resurrect.Control.Volume.{
  volume_level_to_decibel, volume_decibel_to_level, decibel_units,
}
use gmrender_resurrect.Control.Variables.{ControlVariable, variable_num, volume, volume_db, mute}

-- The arithmetic on doubles, with `exp` and `log` of <math.h> and `atof` of <stdlib.h>; `widen` and
-- `narrow` convert from and to float.
pub record DoubleMath : Type 1 where
  pub Double : Type 0
  pub of_int : ℤ → Double
  pub widen : Float → Double
  pub narrow : Double → Float
  pub times : Double → Double → Double
  pub over : Double → Double → Double
  pub exp : Double → Double
  pub log : Double → Double
  pub atof : Bytes → Double

-- `snprintf` of `%d` into a buffer of `size` bytes.
unfoldable pub print_into : ℕ → ℤ → Bytes
unfolding print_int
print_into size n = take (size - 1) (print_int n)

-- `do_mute ? "1" : "0"`
abbrev pub mute_text : ℤ → Bytes
mute_text do_mute = if same_int do_mute (pos 0) then codes "0" else codes "1"

module _ ⦃m : DoubleMath⦄ where
  -- The factor that `exp(decibel / 20 * log(10))` is, as the float that the output gets.
  unfoldable pub fraction : Float → Float
  unfolding fdiv
  fraction decibel =
      m.narrow
        (m.exp (m.times (m.widen (fdiv decibel (of_int (pos 20)))) (m.log (m.of_int (pos 10)))))

  -- `20 * log(volume_fraction) / log(10)`, as a float.
  unfoldable pub decibel_of_fraction : Float → Float
  decibel_of_fraction f =
      m.narrow
        (m.over (m.times (m.of_int (pos 20)) (m.log (m.widen f))) (m.log (m.of_int (pos 10))))

module _ ⦃x : Ixml⦄ ⦃u : Upnp⦄ ⦃o : OutputModule⦄ where
  -- `service_lock` and `service_unlock` are those of the transport word for word, on this service.
  unfoldable pub service_lock : Transport (Unit {0})
  unfolding Transport.service_lock
  service_lock = Transport.service_lock

  unfoldable pub service_unlock : Transport (Unit {0})
  unfolding Transport.service_unlock
  service_unlock = Transport.service_unlock

  unfoldable pub replace_var : ControlVariable → Option Bytes → Transport (Unit {0})
  unfolding LastChangeCollector.change
  replace_var varnum new_value = do
    on_service (LastChangeCollector.change (variable_num varnum) new_value)
    pure tt

  unfoldable pub change_volume : Option Bytes → Option Bytes → Transport (Unit {0})
  unfolding replace_var
  change_volume volume_text db_volume = do
    replace_var volume volume_text
    replace_var volume_db db_volume

  unfoldable pub set_mute_toggle : ℤ → Transport (Unit {0})
  unfolding replace_var output_set_mute
  set_mute_toggle do_mute = do
    replace_var mute (some (mute_text do_mute))
    on_output (output_set_mute do_mute)
    pure tt

  -- `change_volume_decibel`: an undefined conversion to int counts as a fault.
  unfoldable pub change_volume_decibel : Float → Transport Float
  unfolding volume_decibel_to_level volume_level_to_decibel decibel_units print_into change_volume
  change_volume_decibel raw_decibel = do
    level ← deref (volume_decibel_to_level raw_decibel)
    units ← deref (decibel_units (volume_level_to_decibel level))
    change_volume (some (print_into 10 level)) (some (print_into 10 units))
    pure (volume_level_to_decibel level)
