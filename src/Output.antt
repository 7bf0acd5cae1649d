-- ===== src/Output.antt =====
-- src/output.c and src/output_module.h: the calls are passed on to the output module chosen at
-- start, and fail where it lacks the function. The module, over its own state, is a parameter;
-- that none was chosen is the module that lacks them all.
use gmrender_resurrect.Prelude.{Bool, Option, none, some}
use gmrender_resurrect.Prelude.Text.{Bytes}
use gmrender_resurrect.Prelude.Int.{ℤ, pos, negsuc}
use gmrender_resurrect.Prelude.Float.{Float, number}

-- The functions of `struct output_module` that the services call; NULL is `none`. The callbacks
-- they are given are always the same ones: of `set_uri` only whether there is one matters.
pub record OutputModule : Type 1 where
  pub Out : Type 0
  pub set_uri : Option (Bytes → Bool → Out → Out)
  pub set_next_uri : Option (Bytes → Out → Out)
  pub play : Option (Out → ℤ × Out)
  pub pause : Option (Out → ℤ × Out)
  pub stop : Option (Out → ℤ × Out)
  pub seek : Option (ℤ → Out → ℤ × Out)
  pub get_position : Option (Out → ℤ × ℤ × ℤ × Out)
  pub get_volume : Option (Out → ℤ × Float × Out)
  pub set_volume : Option (Float → Out → ℤ × Out)
  pub get_mute : Option (Out → ℤ × ℤ × Out)
  pub set_mute : Option (ℤ → Out → ℤ × Out)

module _ ⦃o : OutputModule⦄ where
  unfoldable pub output_set_uri : Bytes → Bool → o.Out → o.Out
  output_set_uri uri has_meta_cb out = elim o.set_uri [
    | none ↦ out
    | some f ↦ f uri has_meta_cb out
  ]

  unfoldable pub output_set_next_uri : Bytes → o.Out → o.Out
  output_set_next_uri uri out = elim o.set_next_uri [ none ↦ out | some f ↦ f uri out ]

  unfoldable pub output_play : o.Out → ℤ × o.Out
  output_play out = elim o.play [ none ↦ (negsuc 0, out) | some f ↦ f out ]

  unfoldable pub output_pause : o.Out → ℤ × o.Out
  output_pause out = elim o.pause [ none ↦ (negsuc 0, out) | some f ↦ f out ]

  unfoldable pub output_stop : o.Out → ℤ × o.Out
  output_stop out = elim o.stop [ none ↦ (negsuc 0, out) | some f ↦ f out ]

  unfoldable pub output_seek : ℤ → o.Out → ℤ × o.Out
  output_seek position_nanos out = elim o.seek [
    | none ↦ (negsuc 0, out)
    | some f ↦ f position_nanos out
  ]

  -- The return code, the duration and the position; the latter two only count after code 0.
  unfoldable pub output_get_position : o.Out → ℤ × ℤ × ℤ × o.Out
  output_get_position out = elim o.get_position [
    | none ↦ (negsuc 0, pos 0, pos 0, out)
    | some f ↦ f out
  ]

  -- The return code and the volume, which only counts after code 0.
  unfoldable pub output_get_volume : o.Out → ℤ × Float × o.Out
  output_get_volume out = elim o.get_volume [
    | none ↦ (negsuc 0, number (pos 0), out)
    | some f ↦ f out
  ]

  unfoldable pub output_set_volume : Float → o.Out → ℤ × o.Out
  output_set_volume value out = elim o.set_volume [ none ↦ (negsuc 0, out) | some f ↦ f value out ]

  -- The return code and the mute state, which only counts after code 0.
  unfoldable pub output_get_mute : o.Out → ℤ × ℤ × o.Out
  output_get_mute out = elim o.get_mute [ none ↦ (negsuc 0, pos 0, out) | some f ↦ f out ]

  unfoldable pub output_set_mute : ℤ → o.Out → ℤ × o.Out
  output_set_mute value out = elim o.set_mute [ none ↦ (negsuc 0, out) | some f ↦ f value out ]
