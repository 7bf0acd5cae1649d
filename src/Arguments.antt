-- ===== src/Arguments.antt =====
-- src/upnp_service.h: the arguments of an action, over the state variables of a service.
use gmrender_resurrect.Prelude.{List, [], ◌∷◌}
use gmrender_resurrect.Prelude.Text.{Bytes}

-- `param_dir`
pub data ParamDir : Type 0 where
  param_in param_out : ParamDir

-- `struct argument`, with the variable by its name.
pub record Argument (V : Type 0) : Type 0 where
  pub name : Bytes
  pub direction : ParamDir
  pub statevar : V

module _ {V : Type 0} where
  abbrev pub in_arg : Bytes → V → Argument V
  in_arg name statevar = record { name = name; direction = param_in; statevar = statevar }

  abbrev pub out_arg : Bytes → V → Argument V
  out_arg name statevar = record { name = name; direction = param_out; statevar = statevar }

  -- What an action answers with by its table: the arguments that go out.
  unfoldable pub declared : List (Argument V) → List (V × Bytes)
  declared [] = []
  declared (a ∷ rest) = elim a.direction [
    | param_in ↦ declared rest
    | param_out ↦ (a.statevar, a.name) ∷ declared rest
  ]
