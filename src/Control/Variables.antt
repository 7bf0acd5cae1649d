-- ===== src/Control/Variables.antt =====
-- src/upnp_control.c: the numbers of the service's state variables (`control_variable_t`, without
-- the prefix CONTROL_VAR_), and their table `control_var_meta` with what it names.
use gmrender_resurrect.Prelude.{ℕ, Bool, true, false, Option, none, some, List, [], ◌∷◌}
use gmrender_resurrect.Prelude.Text.{Bytes, codes}
use gmrender_resurrect.Prelude.Int.{pos, negsuc}
use gmrender_resurrect.VariableContainer.{
  VarMeta, ParamRange, ParamDatatype, string, boolean, i2, ui2, ui4,
}
use gmrender_resurrect.Control.Volume.{volume_range, volume_db_range}

-- `control_variable_t`
pub data ControlVariable : Type 0 where
  g_gain b_black ver_keystone g_black volume loudness aat_instance_id r_gain color_temp sharpness
        aat_preset_name :
      ControlVariable
  r_black b_gain mute last_change aat_channel hor_keystone volume_db preset_name_list contrast
        brightness :
      ControlVariable

abbrev pub variable_num : ControlVariable → ℕ
variable_num g_gain = 0
variable_num b_black = 1
variable_num ver_keystone = 2
variable_num g_black = 3
variable_num volume = 4
variable_num loudness = 5
variable_num aat_instance_id = 6
variable_num r_gain = 7
variable_num color_temp = 8
variable_num sharpness = 9
variable_num aat_preset_name = 10
variable_num r_black = 11
variable_num b_gain = 12
variable_num mute = 13
variable_num last_change = 14
variable_num aat_channel = 15
variable_num hor_keystone = 16
variable_num volume_db = 17
variable_num preset_name_list = 18
variable_num contrast = 19
variable_num brightness = 20

-- CONTROL_VAR_COUNT
abbrev pub variable_count : ℕ
variable_count = 21

abbrev pub aat_presetnames : List Bytes
aat_presetnames =
    codes "FactoryDefaults" ∷ codes "InstallationDefaults" ∷ codes "Vendor defined" ∷ []

abbrev pub aat_channels : List Bytes
aat_channels = codes "Master" ∷ codes "LF" ∷ codes "RF" ∷ []

-- `brightness_range`, `contrast_range`, `sharpness_range`, `vid_gain_range` and `vid_black_range`
abbrev pub percent_range : ParamRange
percent_range = record { min = pos 0; max = pos 100; step = pos 1 }

abbrev pub colortemp_range : ParamRange
colortemp_range = record { min = pos 0; max = pos 65535; step = pos 1 }

abbrev pub keystone_range : ParamRange
keystone_range = record { min = negsuc 32767; max = pos 32767; step = pos 1 }

abbrev entry :
    ControlVariable
    → Bytes
    → Bytes
    → Bool
    → ParamDatatype
    → Option (List Bytes)
    → Option ParamRange
    → VarMeta
entry v name default_value sendevents datatype allowed_values allowed_range = record {
  id = variable_num v;
  name = some name;
  default_value = some default_value;
  sendevents = sendevents;
  datatype = datatype;
  allowed_values = allowed_values;
  allowed_range = allowed_range;
}

-- `control_var_meta`, up to its end mark, in the order of the source.
unfoldable pub control_var_meta : List VarMeta
control_var_meta =
    entry last_change (codes "LastChange")
      (codes "<Event xmlns = \"urn:schemas-upnp-org:metadata-1-0/RCS/\"/>") true string none none
    ∷ entry preset_name_list (codes "PresetNameList") (codes "") false string none none
    ∷ entry aat_channel (codes "A_ARG_TYPE_Channel") (codes "") false string (some aat_channels)
        none
    ∷ entry aat_instance_id (codes "A_ARG_TYPE_InstanceID") (codes "0") false ui4 none none
    ∷ entry aat_preset_name (codes "A_ARG_TYPE_PresetName") (codes "") false string
        (some aat_presetnames) none
    ∷ entry brightness (codes "Brightness") (codes "0") false ui2 none (some percent_range)
    ∷ entry contrast (codes "Contrast") (codes "0") false ui2 none (some percent_range)
    ∷ entry sharpness (codes "Sharpness") (codes "0") false ui2 none (some percent_range)
    ∷ entry r_gain (codes "RedVideoGain") (codes "0") false ui2 none (some percent_range)
    ∷ entry g_gain (codes "GreenVideoGain") (codes "0") false ui2 none (some percent_range)
    ∷ entry b_gain (codes "BlueVideoGain") (codes "0") false ui2 none (some percent_range)
    ∷ entry r_black (codes "RedVideoBlackLevel") (codes "0") false ui2 none (some percent_range)
    ∷ entry g_black (codes "GreenVideoBlackLevel") (codes "0") false ui2 none (some percent_range)
    ∷ entry b_black (codes "BlueVideoBlackLevel") (codes "0") false ui2 none (some percent_range)
    ∷ entry color_temp (codes "ColorTemperature") (codes "0") false ui2 none (some colortemp_range)
    ∷ entry hor_keystone (codes "HorizontalKeystone") (codes "0") false i2 none
        (some keystone_range)
    ∷ entry ver_keystone (codes "VerticalKeystone") (codes "0") false i2 none (some keystone_range)
    ∷ entry mute (codes "Mute") (codes "0") false boolean none none
    ∷ entry volume (codes "Volume") (codes "0") false ui2 none (some volume_range)
    ∷ entry volume_db (codes "VolumeDB") (codes "0") false i2 none (some volume_db_range)
    ∷ entry loudness (codes "Loudness") (codes "0") false boolean none none
    ∷ []
