-- ===== src/Control/Promises.antt =====
-- What the handlers of the control service promise, for every session of the service that is ready:
-- `Match p r` says that the run of the code ended with `r` where the contract ends with `p`, faults
-- included.
use gmrender_resurrect.Prelude.{arith, Bool, true, false, ◌≡◌, none, List, [], ◌∷◌}
use gmrender_resurrect.Prelude.Text.{Bytes, codes}
use gmrender_resurrect.Prelude.Int.{ℤ}
use gmrender_resurrect.Prelude.Run.{Run}
use gmrender_resurrect.XmlDoc.{Ixml}
use gmrender_resurrect.ActionEvent.{Upnp, Session}
use gmrender_resurrect.Output.{OutputModule}
use gmrender_resurrect.Transport.{Own}
use gmrender_resurrect.Arguments.{declared}
use gmrender_resurrect.Abstract.{Abs, abs, IsGood, Match, Refines}
use gmrender_resurrect.Control.{DoubleMath}
use gmrender_resurrect.Control.Table.{control_table}
use gmrender_resurrect.Control.Variables.{
  ControlVariable, b_black, b_gain, brightness, color_temp, contrast, g_black, g_gain, hor_keystone,
  loudness, mute, preset_name_list, r_black, r_gain, sharpness, ver_keystone, volume, volume_db,
}
use gmrender_resurrect.Control.Contract.{
  set_mute_contract, set_volume_contract, set_volume_db_contract, obtain_contract,
}
use gmrender_resurrect.Control.Refinement.{
  set_mute-Refines, set_volume-Refines, set_volume_db-Refines, obtain-Refines,
}
use gmrender_resurrect.Control.Handlers
use gmrender_resurrect.Control.Actions.{
  ControlCmd, get_blue_black, get_blue_gain, get_brightness, get_color_temp, get_contrast,
  get_green_black, get_green_gain, get_hor_keystone, get_loudness, get_mute, get_red_black,
  get_red_gain, get_sharpness, get_vert_keystone, get_vol, get_vol_db, get_vol_dbrange,
  list_presets, set_mute, set_vol, set_vol_db, argument_list, handler,
}

-- The commands that answer with one variable.
unfoldable pub is_query : ControlCmd → Bool
is_query get_vol_dbrange = false
is_query set_mute = false
is_query set_vol = false
is_query set_vol_db = false
is_query _ = true

-- The answer of such a command: what the table of its arguments declares, but for the name in
-- GetVolumeDB.
unfoldable pub answers : ControlCmd → List (ControlVariable × Bytes)
unfolding declared argument_list
answers get_vol_db = (volume_db, codes "CurrentVolumeDB") ∷ []
answers cmd = declared (argument_list cmd)

module _ ⦃x : Ixml⦄ ⦃u : Upnp⦄ ⦃o : OutputModule⦄ where
  unfoldable pub query_contract : List (ControlVariable × Bytes) → Run Abs ℤ
  query_contract ((v, name) ∷ []) a = obtain_contract v name a
  query_contract _ a = none

  -- On a session of the control service that is ready, SetMute shows "1" in Mute for any number but
  -- 0 and else "0", and hands the number to the output; it answers 0 even if the output fails. It
  -- faults without a DesiredMute.
  pub set_mute-Match :
      (s : Session Own) → IsGood s → Match (set_mute_contract (abs s)) (Handlers.set_mute s)
  set_mute-Match s good = set_mute-Refines.apply s good

module _ ⦃m : DoubleMath⦄ ⦃x : Ixml⦄ ⦃u : Upnp⦄ ⦃o : OutputModule⦄ where
  -- On a session of the control service that is ready, SetVolume cuts the number asked for to the
  -- range from 0 to 100, stores the text itself in Volume and the level's decibels in VolumeDB, hands
  -- the decibels' factor to the output, and mutes at level 0 and unmutes at any other. It faults
  -- without a DesiredVolume, and no conversion in it is undefined.
  pub set_volume-Match :
      (s : Session Own) → IsGood s → Match (set_volume_contract (abs s)) (Handlers.set_volume s)
  set_volume-Match s good = set_volume-Refines.apply s good

  -- On a session of the control service that is ready, SetVolumeDB stores the level of the decibels
  -- asked for in Volume, the decibels of that level in VolumeDB, and hands their factor to the output;
  -- Mute stays. It faults without a DesiredVolume, and where the level is not defined.
  pub set_volume_db-Match :
      (s : Session Own)
      → IsGood s
      → Match (set_volume_db_contract (abs s)) (Handlers.set_volume_db s)
  set_volume_db-Match s good = set_volume_db-Refines.apply s good

  pub query-Refines :
      (cmd : ControlCmd)
      → is_query cmd ≡ true
      → Refines (handler cmd) (query_contract (answers cmd))
  unfolding handler is_query query_contract answers Handlers.get_blue_videoblacklevel
      Handlers.get_blue_videogain Handlers.get_brightness Handlers.get_colortemperature
      Handlers.get_contrast Handlers.get_green_videoblacklevel Handlers.get_green_videogain
      Handlers.get_horizontal_keystone Handlers.get_loudness Handlers.get_mute
      Handlers.get_red_videoblacklevel Handlers.get_red_videogain Handlers.get_sharpness
      Handlers.get_vertical_keystone Handlers.get_volume Handlers.get_volume_db
      Handlers.list_presets
  query-Refines get_vol_dbrange h = absurd (ground (arith, h))
  query-Refines set_mute h = absurd (ground (arith, h))
  query-Refines set_vol h = absurd (ground (arith, h))
  query-Refines set_vol_db h = absurd (ground (arith, h))
  query-Refines get_blue_black h =
      obtain-Refines b_black (codes "CurrentBlueVideoBlackLevel") (omega arith)
  query-Refines get_blue_gain h = obtain-Refines b_gain (codes "CurrentBlueVideoGain") (omega arith)
  query-Refines get_brightness h =
      obtain-Refines brightness (codes "CurrentBrightness") (omega arith)
  query-Refines get_color_temp h =
      obtain-Refines color_temp (codes "CurrentColorTemperature") (omega arith)
  query-Refines get_contrast h = obtain-Refines contrast (codes "CurrentContrast") (omega arith)
  query-Refines get_green_black h =
      obtain-Refines g_black (codes "CurrentGreenVideoBlackLevel") (omega arith)
  query-Refines get_green_gain h =
      obtain-Refines g_gain (codes "CurrentGreenVideoGain") (omega arith)
  query-Refines get_hor_keystone h =
      obtain-Refines hor_keystone (codes "CurrentHorizontalKeystone") (omega arith)
  query-Refines get_loudness h = obtain-Refines loudness (codes "CurrentLoudness") (omega arith)
  query-Refines get_mute h = obtain-Refines mute (codes "CurrentMute") (omega arith)
  query-Refines get_red_black h =
      obtain-Refines r_black (codes "CurrentRedVideoBlackLevel") (omega arith)
  query-Refines get_red_gain h = obtain-Refines r_gain (codes "CurrentRedVideoGain") (omega arith)
  query-Refines get_sharpness h = obtain-Refines sharpness (codes "CurrentSharpness") (omega arith)
  query-Refines get_vert_keystone h =
      obtain-Refines ver_keystone (codes "CurrentVerticalKeystone") (omega arith)
  query-Refines get_vol h = obtain-Refines volume (codes "CurrentVolume") (omega arith)
  query-Refines get_vol_db h = obtain-Refines volume_db (codes "CurrentVolumeDB") (omega arith)
  query-Refines list_presets h =
      obtain-Refines preset_name_list (codes "CurrentPresetNameList") (omega arith)

  -- On a session of the control service that is ready, each of the seventeen commands that only
  -- ask for a value answers with the variable that the table of its outgoing arguments names,
  -- under the name given there, but for GetVolumeDB, which answers with VolumeDB as
  -- CurrentVolumeDB. Without an InstanceID the result is -1 and the request fails: status -1, no
  -- response, the code of a failed action, and a message. No variable changes.
  pub obtained-Match :
      (cmd : ControlCmd) (s : Session Own)
      → is_query cmd ≡ true
      → IsGood s
      → Match (query_contract (answers cmd) (abs s)) (handler cmd s)
  obtained-Match cmd s h good = (query-Refines cmd h).apply s good
