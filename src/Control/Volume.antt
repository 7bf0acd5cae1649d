-- ===== src/Control/Volume.antt =====
-- src/upnp_control.c: the levels of the volume from 0 to 100, and their decibels, on C's floats.
pub mod Levels
pub mod Decibels
use gmrender_resurrect.Prelude.{ℕ, ◌-◌, ◌/◌, Option, none, some, ltb, if◌then◌else◌}
use gmrender_resurrect.Prelude.Int.{ℤ, pos, negsuc, ltb_ℤ, pos_part, sub_ℕ}
use gmrender_resurrect.Prelude.Float.{Float, of_int, fadd, fsub, fmul, fdiv, flt, to_int}
use gmrender_resurrect.VariableContainer.{ParamRange}

-- `vol_min_db`, `vol_mid_db`, `vol_max_db` and `vol_mid_point`
unfoldable pub vol_min_db : Float
unfolding of_int
vol_min_db = of_int (negsuc 59)

unfoldable pub vol_mid_db : Float
unfolding of_int
vol_mid_db = of_int (negsuc 19)

unfoldable pub vol_max_db : Float
unfolding of_int
vol_max_db = of_int (pos 0)

abbrev pub vol_mid_point : ℕ
vol_mid_point = 50

-- `volume_range` and `volume_db_range`
abbrev pub volume_range : ParamRange
volume_range = record { min = pos 0; max = pos 100; step = pos 1 }

abbrev pub volume_db_range : ParamRange
volume_db_range = record { min = negsuc 15359; max = pos 0; step = pos 0 }

-- The two guards that keep a level in `volume_range`.
abbrev pub clamp_level : ℤ → ℤ
clamp_level volume =
    if ltb_ℤ volume volume_range.min
    then volume_range.min
    else if ltb_ℤ volume_range.max volume
    then volume_range.max
    else volume

abbrev upper_range : ℕ
upper_range = pos_part volume_range.max - vol_mid_point

-- `volume_level_to_decibel` behind its guards, which leave a level that is not negative.
unfoldable pub slope : ℕ → Float
unfolding vol_min_db vol_mid_db vol_max_db fadd fsub fmul fdiv of_int
slope volume =
    if ltb volume (pos_part volume_range.max / 2)
    then fadd vol_min_db (
        fmul (fdiv (fsub vol_mid_db vol_min_db) (of_int (pos vol_mid_point))) (of_int (pos volume)))
    else fadd vol_mid_db (
        fmul (fdiv (fsub vol_max_db vol_mid_db) (of_int (pos upper_range)))
          (of_int (sub_ℕ volume vol_mid_point)))

-- `volume_level_to_decibel`
unfoldable pub volume_level_to_decibel : ℤ → Float
unfolding slope
volume_level_to_decibel volume = slope (pos_part (clamp_level volume))

-- `volume_decibel_to_level`; `none` where the conversion to int is undefined.
unfoldable pub volume_decibel_to_level : Float → Option ℤ
unfolding vol_min_db vol_mid_db vol_max_db fadd fsub fmul fdiv of_int flt to_int
volume_decibel_to_level decibel =
    if flt decibel vol_min_db
    then some volume_range.min
    else if flt vol_max_db decibel
    then some volume_range.max
    else if flt decibel vol_mid_db
    then to_int (
        fdiv (fmul (fsub decibel vol_min_db) (of_int (pos vol_mid_point)))
          (fsub vol_mid_db vol_min_db))
    else to_int (
        fadd
          (fdiv (fmul (fsub decibel vol_mid_db) (of_int (pos upper_range)))
            (fsub vol_max_db vol_mid_db))
          (of_int (pos vol_mid_point)))

-- `(int) (256 * decibel)`, which VolumeDB shows.
unfoldable pub decibel_units : Float → Option ℤ
unfolding fmul of_int to_int
decibel_units decibel = to_int (fmul (of_int (pos 256)) decibel)
