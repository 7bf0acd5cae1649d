-- ===== src/Control/Actions.antt =====
-- src/upnp_control.c: the commands of the service (`control_cmd`, without the prefix CONTROL_CMD_),
-- the tables of their arguments, and the names and callbacks of the actions.
use gmrender_resurrect.Prelude.{Option, none, some, List, [], ◌∷◌, if◌then◌else◌}
use gmrender_resurrect.Prelude.Text.{Bytes, codes, str_eq}
use gmrender_resurrect.Prelude.Int.{ℤ}
use gmrender_resurrect.XmlDoc.{Ixml}
use gmrender_resurrect.ActionEvent.{Upnp}
use gmrender_resurrect.Output.{OutputModule}
use gmrender_resurrect.Transport.{Transport}
use gmrender_resurrect.Arguments.{Argument, in_arg, out_arg}
use gmrender_resurrect.Control.{DoubleMath}
use gmrender_resurrect.Control.Variables.{
  ControlVariable, aat_channel, aat_instance_id, b_black, b_gain, brightness, color_temp, contrast,
  g_black, g_gain, hor_keystone, loudness, mute, preset_name_list, r_black, r_gain, sharpness,
  ver_keystone, volume, volume_db,
}
use gmrender_resurrect.Control.Handlers

-- `control_cmd`
pub data ControlCmd : Type 0 where
  get_blue_black get_blue_gain get_brightness get_color_temp get_contrast get_green_black
        get_green_gain get_hor_keystone get_loudness get_mute get_red_black :
      ControlCmd
  get_red_gain get_sharpness get_vert_keystone get_vol get_vol_db get_vol_dbrange list_presets
        set_mute set_vol set_vol_db :
      ControlCmd

-- `argument_list`
unfoldable pub argument_list : ControlCmd → List (Argument ControlVariable)
argument_list get_blue_black =
    in_arg (codes "InstanceID") aat_instance_id
    ∷ out_arg (codes "CurrentBlueVideoBlackLevel") b_black
    ∷ []
argument_list get_blue_gain =
    in_arg (codes "InstanceID") aat_instance_id ∷ out_arg (codes "CurrentBlueVideoGain") b_gain ∷ []
argument_list get_brightness =
    in_arg (codes "InstanceID") aat_instance_id
    ∷ out_arg (codes "CurrentBrightness") brightness
    ∷ []
argument_list get_color_temp =
    in_arg (codes "InstanceID") aat_instance_id
    ∷ out_arg (codes "CurrentColorTemperature") color_temp
    ∷ []
argument_list get_contrast =
    in_arg (codes "InstanceID") aat_instance_id ∷ out_arg (codes "CurrentContrast") contrast ∷ []
argument_list get_green_black =
    in_arg (codes "InstanceID") aat_instance_id
    ∷ out_arg (codes "CurrentGreenVideoBlackLevel") g_black
    ∷ []
argument_list get_green_gain =
    in_arg (codes "InstanceID") aat_instance_id
    ∷ out_arg (codes "CurrentGreenVideoGain") g_gain
    ∷ []
argument_list get_hor_keystone =
    in_arg (codes "InstanceID") aat_instance_id
    ∷ out_arg (codes "CurrentHorizontalKeystone") hor_keystone
    ∷ []
argument_list get_loudness =
    in_arg (codes "InstanceID") aat_instance_id
    ∷ in_arg (codes "Channel") aat_channel
    ∷ out_arg (codes "CurrentLoudness") loudness
    ∷ []
argument_list get_mute =
    in_arg (codes "InstanceID") aat_instance_id
    ∷ in_arg (codes "Channel") aat_channel
    ∷ out_arg (codes "CurrentMute") mute
    ∷ []
argument_list get_red_black =
    in_arg (codes "InstanceID") aat_instance_id
    ∷ out_arg (codes "CurrentRedVideoBlackLevel") r_black
    ∷ []
argument_list get_red_gain =
    in_arg (codes "InstanceID") aat_instance_id ∷ out_arg (codes "CurrentRedVideoGain") r_gain ∷ []
argument_list get_sharpness =
    in_arg (codes "InstanceID") aat_instance_id ∷ out_arg (codes "CurrentSharpness") sharpness ∷ []
argument_list get_vert_keystone =
    in_arg (codes "InstanceID") aat_instance_id
    ∷ out_arg (codes "CurrentVerticalKeystone") ver_keystone
    ∷ []
argument_list get_vol =
    in_arg (codes "InstanceID") aat_instance_id
    ∷ in_arg (codes "Channel") aat_channel
    ∷ out_arg (codes "CurrentVolume") volume
    ∷ []
argument_list get_vol_db =
    in_arg (codes "InstanceID") aat_instance_id
    ∷ in_arg (codes "Channel") aat_channel
    ∷ out_arg (codes "CurrentVolume") volume_db
    ∷ []
argument_list get_vol_dbrange =
    in_arg (codes "InstanceID") aat_instance_id
    ∷ in_arg (codes "Channel") aat_channel
    ∷ out_arg (codes "MinValue") volume_db
    ∷ out_arg (codes "MaxValue") volume_db
    ∷ []
argument_list list_presets =
    in_arg (codes "InstanceID") aat_instance_id
    ∷ out_arg (codes "CurrentPresetNameList") preset_name_list
    ∷ []
argument_list set_mute =
    in_arg (codes "InstanceID") aat_instance_id
    ∷ in_arg (codes "Channel") aat_channel
    ∷ in_arg (codes "DesiredMute") mute
    ∷ []
argument_list set_vol =
    in_arg (codes "InstanceID") aat_instance_id
    ∷ in_arg (codes "Channel") aat_channel
    ∷ in_arg (codes "DesiredVolume") volume
    ∷ []
argument_list set_vol_db =
    in_arg (codes "InstanceID") aat_instance_id
    ∷ in_arg (codes "Channel") aat_channel
    ∷ in_arg (codes "DesiredVolume") volume_db
    ∷ []

-- The names in `control_actions`, and the commands in their order.
unfoldable pub action_name : ControlCmd → Bytes
action_name get_blue_black = codes "GetBlueVideoBlackLevel"
action_name get_blue_gain = codes "GetBlueVideoGain"
action_name get_brightness = codes "GetBrightness"
action_name get_color_temp = codes "GetColorTemperature"
action_name get_contrast = codes "GetContrast"
action_name get_green_black = codes "GetGreenVideoBlackLevel"
action_name get_green_gain = codes "GetGreenVideoGain"
action_name get_hor_keystone = codes "GetHorizontalKeystone"
action_name get_loudness = codes "GetLoudness"
action_name get_mute = codes "GetMute"
action_name get_red_black = codes "GetRedVideoBlackLevel"
action_name get_red_gain = codes "GetRedVideoGain"
action_name get_sharpness = codes "GetSharpness"
action_name get_vert_keystone = codes "GetVerticalKeystone"
action_name get_vol = codes "GetVolume"
action_name get_vol_db = codes "GetVolumeDB"
action_name get_vol_dbrange = codes "GetVolumeDBRange"
action_name list_presets = codes "ListPresets"
action_name set_mute = codes "SetMute"
action_name set_vol = codes "SetVolume"
action_name set_vol_db = codes "SetVolumeDB"

abbrev pub all_commands : List ControlCmd
all_commands =
    get_blue_black ∷ get_blue_gain ∷ get_brightness ∷ get_color_temp ∷ get_contrast
    ∷ get_green_black ∷ get_green_gain ∷ get_hor_keystone ∷ get_loudness ∷ get_mute ∷ get_red_black
    ∷ get_red_gain ∷ get_sharpness ∷ get_vert_keystone ∷ get_vol ∷ get_vol_db ∷ get_vol_dbrange
    ∷ list_presets ∷ set_mute ∷ set_vol ∷ set_vol_db ∷ []

-- `find_action` on `control_actions`; its loop ends at the entry without a name.
pub find_in : Bytes → List ControlCmd → Option ControlCmd
find_in name [] = none
find_in name (cmd ∷ rest) =
    let later = find_in name rest in if str_eq (action_name cmd) name then some cmd else later

unfoldable pub find_action : Bytes → Option ControlCmd
unfolding find_in action_name
find_action name = find_in name all_commands

module _ ⦃m : DoubleMath⦄ ⦃x : Ixml⦄ ⦃u : Upnp⦄ ⦃o : OutputModule⦄ where
  -- The callbacks in `control_actions`.
  unfoldable pub handler : ControlCmd → Transport ℤ
  handler get_blue_black = Handlers.get_blue_videoblacklevel
  handler get_blue_gain = Handlers.get_blue_videogain
  handler get_brightness = Handlers.get_brightness
  handler get_color_temp = Handlers.get_colortemperature
  handler get_contrast = Handlers.get_contrast
  handler get_green_black = Handlers.get_green_videoblacklevel
  handler get_green_gain = Handlers.get_green_videogain
  handler get_hor_keystone = Handlers.get_horizontal_keystone
  handler get_loudness = Handlers.get_loudness
  handler get_mute = Handlers.get_mute
  handler get_red_black = Handlers.get_red_videoblacklevel
  handler get_red_gain = Handlers.get_red_videogain
  handler get_sharpness = Handlers.get_sharpness
  handler get_vert_keystone = Handlers.get_vertical_keystone
  handler get_vol = Handlers.get_volume
  handler get_vol_db = Handlers.get_volume_db
  handler get_vol_dbrange = Handlers.get_volume_dbrange
  handler list_presets = Handlers.list_presets
  handler set_mute = Handlers.set_mute
  handler set_vol = Handlers.set_volume
  handler set_vol_db = Handlers.set_volume_db
