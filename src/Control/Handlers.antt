-- ===== src/Control/Handlers.antt =====
-- src/upnp_control.c: the action handlers. A handler returns its return code.
use gmrender_resurrect.Prelude.{Option, none, some, if◌then◌else◌}
use gmrender_resurrect.Prelude.Text.{Bytes, codes}
use gmrender_resurrect.Prelude.Int.{ℤ, pos, negsuc, same_int}
use gmrender_resurrect.Prelude.Run.{◌>>=◌, ◌>>◌, pure, deref}
use gmrender_resurrect.XmlDoc.{Ixml}
use gmrender_resurrect.ActionEvent.{Upnp, upnp_get_string, upnp_append_variable, upnp_add_response}
use gmrender_resurrect.Output.{OutputModule, output_set_volume}
use gmrender_resurrect.Transport.{Transport, on_output}
use gmrender_resurrect.Control.{
  DoubleMath, print_into, mute_text, fraction, service_lock, service_unlock, replace_var,
  change_volume, set_mute_toggle, change_volume_decibel,
}
use gmrender_resurrect.Control.Numbers.{atoi}
use gmrender_resurrect.Control.Volume.{
  clamp_level, volume_db_range, volume_level_to_decibel, decibel_units,
}
use gmrender_resurrect.Control.Variables.{
  ControlVariable, variable_num, preset_name_list, brightness, contrast, sharpness, r_gain, g_gain,
  b_gain, r_black, g_black, b_black, color_temp, hor_keystone, ver_keystone, mute, volume,
  volume_db, loudness,
}

-- Whether a level mutes, as the int of C's `==`.
abbrev pub mutes : ℤ → ℤ
mutes level = if same_int level (pos 0) then pos 1 else pos 0

module _ ⦃x : Ixml⦄ ⦃u : Upnp⦄ ⦃o : OutputModule⦄ where
  unfoldable pub cmd_obtain_variable : ControlVariable → Bytes → Transport ℤ
  unfolding upnp_get_string upnp_append_variable
  cmd_obtain_variable varnum paramname = do
    instance_id ← upnp_get_string (codes "InstanceID")
    elim instance_id [
      | none ↦ pure (negsuc 0)
      | some _ ↦ upnp_append_variable (variable_num varnum) paramname >> pure (pos 0)
    ]

  unfoldable pub list_presets : Transport ℤ
  unfolding cmd_obtain_variable
  list_presets = cmd_obtain_variable preset_name_list (codes "CurrentPresetNameList")

  unfoldable pub get_brightness : Transport ℤ
  unfolding cmd_obtain_variable
  get_brightness = cmd_obtain_variable brightness (codes "CurrentBrightness")

  unfoldable pub get_contrast : Transport ℤ
  unfolding cmd_obtain_variable
  get_contrast = cmd_obtain_variable contrast (codes "CurrentContrast")

  unfoldable pub get_sharpness : Transport ℤ
  unfolding cmd_obtain_variable
  get_sharpness = cmd_obtain_variable sharpness (codes "CurrentSharpness")

  unfoldable pub get_red_videogain : Transport ℤ
  unfolding cmd_obtain_variable
  get_red_videogain = cmd_obtain_variable r_gain (codes "CurrentRedVideoGain")

  unfoldable pub get_green_videogain : Transport ℤ
  unfolding cmd_obtain_variable
  get_green_videogain = cmd_obtain_variable g_gain (codes "CurrentGreenVideoGain")

  unfoldable pub get_blue_videogain : Transport ℤ
  unfolding cmd_obtain_variable
  get_blue_videogain = cmd_obtain_variable b_gain (codes "CurrentBlueVideoGain")

  unfoldable pub get_red_videoblacklevel : Transport ℤ
  unfolding cmd_obtain_variable
  get_red_videoblacklevel = cmd_obtain_variable r_black (codes "CurrentRedVideoBlackLevel")

  unfoldable pub get_green_videoblacklevel : Transport ℤ
  unfolding cmd_obtain_variable
  get_green_videoblacklevel = cmd_obtain_variable g_black (codes "CurrentGreenVideoBlackLevel")

  unfoldable pub get_blue_videoblacklevel : Transport ℤ
  unfolding cmd_obtain_variable
  get_blue_videoblacklevel = cmd_obtain_variable b_black (codes "CurrentBlueVideoBlackLevel")

  unfoldable pub get_colortemperature : Transport ℤ
  unfolding cmd_obtain_variable
  get_colortemperature = cmd_obtain_variable color_temp (codes "CurrentColorTemperature")

  unfoldable pub get_horizontal_keystone : Transport ℤ
  unfolding cmd_obtain_variable
  get_horizontal_keystone = cmd_obtain_variable hor_keystone (codes "CurrentHorizontalKeystone")

  unfoldable pub get_vertical_keystone : Transport ℤ
  unfolding cmd_obtain_variable
  get_vertical_keystone = cmd_obtain_variable ver_keystone (codes "CurrentVerticalKeystone")

  unfoldable pub get_mute : Transport ℤ
  unfolding cmd_obtain_variable
  get_mute = cmd_obtain_variable mute (codes "CurrentMute")

  unfoldable pub get_volume : Transport ℤ
  unfolding cmd_obtain_variable
  get_volume = cmd_obtain_variable volume (codes "CurrentVolume")

  unfoldable pub get_volume_db : Transport ℤ
  unfolding cmd_obtain_variable
  get_volume_db = cmd_obtain_variable volume_db (codes "CurrentVolumeDB")

  unfoldable pub get_loudness : Transport ℤ
  unfolding cmd_obtain_variable
  get_loudness = cmd_obtain_variable loudness (codes "CurrentLoudness")

  -- `get_volume_dbrange`, which does not look at the InstanceID.
  unfoldable pub get_volume_dbrange : Transport ℤ
  unfolding upnp_add_response print_into
  get_volume_dbrange = do
    upnp_add_response (codes "MinValue") (print_into 16 volume_db_range.min)
    upnp_add_response (codes "MaxValue") (codes "0")
    pure (pos 0)

  -- `set_mute` between the lock and the unlock; `atoi` faults on NULL.
  unfoldable pub set_mute_locked : Option Bytes → Transport (Unit {0})
  unfolding atoi set_mute_toggle replace_var
  set_mute_locked value = do
    text ← deref value
    set_mute_toggle (atoi text)
    replace_var mute (some (mute_text (atoi text)))

  unfoldable pub set_mute : Transport ℤ
  unfolding upnp_get_string service_lock set_mute_locked service_unlock
  set_mute = do
    value ← upnp_get_string (codes "DesiredMute")
    service_lock
    set_mute_locked value
    service_unlock
    pure (pos 0)

module _ ⦃m : DoubleMath⦄ ⦃x : Ixml⦄ ⦃u : Upnp⦄ ⦃o : OutputModule⦄ where
  -- `set_volume_db` between the lock and the unlock; `atof` faults on NULL.
  unfoldable pub set_volume_db_locked : Option Bytes → Transport (Unit {0})
  unfolding change_volume_decibel fraction output_set_volume
  set_volume_db_locked str_decibel_in = do
    text ← deref str_decibel_in
    decibel ← change_volume_decibel (m.narrow (m.atof text))
    on_output (output_set_volume (fraction decibel))
    pure tt

  unfoldable pub set_volume_db : Transport ℤ
  unfolding upnp_get_string service_lock set_volume_db_locked service_unlock
  set_volume_db = do
    str_decibel_in ← upnp_get_string (codes "DesiredVolume")
    service_lock
    set_volume_db_locked str_decibel_in
    service_unlock
    pure (pos 0)

  -- `set_volume` between the lock and the unlock; `atoi` faults on NULL.
  unfoldable pub set_volume_locked : Option Bytes → Transport (Unit {0})
  unfolding atoi volume_level_to_decibel decibel_units print_into fraction change_volume
      output_set_volume set_mute_toggle
  set_volume_locked volume_in = do
    text ← deref volume_in
    units ← deref (decibel_units (volume_level_to_decibel (clamp_level (atoi text))))
    change_volume volume_in (some (print_into 10 units))
    on_output (output_set_volume (fraction (volume_level_to_decibel (clamp_level (atoi text)))))
    set_mute_toggle (mutes (clamp_level (atoi text)))

  unfoldable pub set_volume : Transport ℤ
  unfolding upnp_get_string service_lock set_volume_locked service_unlock
  set_volume = do
    volume_in ← upnp_get_string (codes "DesiredVolume")
    service_lock
    set_volume_locked volume_in
    service_unlock
    pure (pos 0)
