-- ===== src/VariableContainer.antt =====
-- src/variable-container.c, first part: a table of named variables that hold C strings, and the
-- meta data that src/upnp_service.h declares. `change` calls the listeners, so it stands with the
-- collector, in LastChangeCollector.
pub mod Creation
use gmrender_resurrect.Prelude.{
  ℕ, ◌+◌, Bool, ◌&&◌, Option, none, some, List, [], ◌∷◌, ltb, leb, ◌==◌, if◌then◌else◌, length,
  get_elem?, take,
}
use gmrender_resurrect.Prelude.Text.{Bytes}
use gmrender_resurrect.Prelude.Int.{ℤ, pos, negsuc}

pub data ParamDatatype : Type 0 where
  string boolean i2 i4 ui2 ui4 unknown : ParamDatatype

-- `struct param_range`
pub record ParamRange : Type 0 where
  pub min : ℤ
  pub max : ℤ
  pub step : ℤ

-- `struct var_meta`; NULL is `none`, and `sendevents` is true for `EV_YES`.
pub record VarMeta : Type 0 where
  pub id : ℕ
  pub name : Option Bytes
  pub default_value : Option Bytes
  pub sendevents : Bool
  pub datatype : ParamDatatype
  pub allowed_values : Option (List Bytes)
  pub allowed_range : Option ParamRange

-- A registered callback with its user data: that of the collector, or `log_variable_change` of
-- src/main.c with its category.
pub data Listener : Type 0 where
  collector : Listener
  logger : Bytes → Listener

-- `struct variable_container`
pub record Container : Type 0 where
  pub variable_num : ℕ
  pub vars : List VarMeta
  pub values : List Bytes
  pub callbacks : List Listener

-- `qsort` by `cmp_meta_id`. The order of equal ids is not specified, and `fill` refuses them.
unfoldable pub insert_meta : VarMeta → List VarMeta → List VarMeta
insert_meta m [] = m ∷ []
insert_meta m (n ∷ ms) = if leb m.id n.id then m ∷ n ∷ ms else n ∷ insert_meta m ms

unfoldable pub create_sorted_meta : List VarMeta → List VarMeta
unfolding insert_meta
create_sorted_meta [] = []
create_sorted_meta (m ∷ ms) = insert_meta m (create_sorted_meta ms)

-- The loop of `VariableContainer_new` from `i` on; `none` is a failed `assert`.
unfoldable pub fill : ℕ → List VarMeta → Option (List Bytes)
fill i [] = some []
fill i (m ∷ ms) =
    let rest = fill (i + 1) ms in
    elim m.name [
      | none ↦ none
      | some _ ↦
          if m.id == i
          then elim m.default_value [
            | none ↦ none
            | some v ↦ elim rest [ none ↦ none | some vs ↦ some (v ∷ vs) ]
          ]
          else none
    ]

-- `VariableContainer_new`. The table has at least `variable_num` entries; further ones are not read.
unfoldable pub new : ℕ → List VarMeta → Option Container
unfolding create_sorted_meta fill
new variable_num unordered_vars =
    let vars = create_sorted_meta (take variable_num unordered_vars) in
    if ltb 0 variable_num && (length vars == variable_num)
    then elim (fill 0 vars) [
      | none ↦ none
      | some values ↦
          some
            (record { variable_num = variable_num; vars = vars; values = values; callbacks = [] })
    ]
    else none

unfoldable pub get_num_vars : Container → ℕ
get_num_vars c = c.variable_num

pub get_meta : Container → List VarMeta
get_meta c = c.vars

abbrev pub var_name : Container → ℕ → Option Bytes
var_name c i = elim (get_elem? c.vars i) [ none ↦ none | some m ↦ m.name ]

-- `VariableContainer_get` with the name asked for: NULL, or the name and the value.
unfoldable pub get_named : Container → ℤ → Option (Bytes × Bytes)
get_named c (negsuc _) = none
get_named c (pos i) =
    if ltb i c.variable_num
    then elim (var_name c i) [
      | none ↦ none
      | some name ↦ elim (get_elem? c.values i) [ none ↦ none | some value ↦ some (name, value) ]
    ]
    else none

-- `VariableContainer_get`
unfoldable pub get : Container → ℤ → Option Bytes
unfolding get_named
get c var = elim (get_named c var) [ none ↦ none | some (_, value) ↦ some value ]

-- `VariableContainer_register_callback`
unfoldable pub register_callback : Container → Listener → Container
register_callback c callback = record c { callbacks = callback ∷ c.callbacks }
