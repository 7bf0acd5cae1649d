-- ===== src/Control/Table.antt =====
-- The variables of the control service on the abstract state.
use gmrender_resurrect.Prelude.{List, ℕ, ◌<◌, ◌≡◌, ◌≢◌, refl, arith, Option, some, length}
use gmrender_resurrect.Prelude.Text.{Bytes}
use gmrender_resurrect.XmlDoc.{Ixml}
use gmrender_resurrect.VariableContainer.{VarMeta, create_sorted_meta, insert_meta}
use gmrender_resurrect.LastChangeCollector.{text_of}
use gmrender_resurrect.LastChangeCollector.Changes.{update}
use gmrender_resurrect.ActionEvent.{Upnp, with_response, upnp_append_variable}
use gmrender_resurrect.Output.{OutputModule}
use gmrender_resurrect.Abstract.{Table, Refines, Refines-eq, Refines-bind, Refines-pure}
use gmrender_resurrect.Abstract.Calls.{append-Refines, change-Refines}
use gmrender_resurrect.Control.{replace_var}
use gmrender_resurrect.Control.Variables.{
  ControlVariable, variable_num, control_var_meta, last_change,
}

-- The sorted table, and the number of LastChange in it.
unfoldable pub control_metas : List VarMeta
unfolding create_sorted_meta insert_meta control_var_meta
control_metas = create_sorted_meta control_var_meta

abbrev pub lc : ℕ
lc = variable_num last_change

pub length-control_metas : length control_metas ≡ 21
unfolding control_metas
length-control_metas = refl

instance abbrev pub control_table : Table
control_table = record { metas = control_metas; lc = lc }

variable_num-lt : (v : ControlVariable) → variable_num v < 21
variable_num-lt v = ground arith

in_table : (v : ControlVariable) → variable_num v < length control_metas
in_table v = rw length-control_metas (variable_num-lt v)

abbrev pub put : ControlVariable → Bytes → (ℕ → Bytes) → ℕ → Bytes
put v text f = update f (variable_num v) text

module _ ⦃x : Ixml⦄ ⦃u : Upnp⦄ ⦃o : OutputModule⦄ where
  pub Refines-append_variable :
      (v : ControlVariable) (paramname : Bytes)
      → variable_num v ≢ lc
      → Refines (upnp_append_variable (variable_num v) paramname) (λ a.
        some
          (tt, record a { event = (with_response paramname (a.var (variable_num v)) a.event).1 }))
  Refines-append_variable v paramname ne = append-Refines (variable_num v) paramname (in_table v) ne

  pub Refines-replace_var :
      (v : ControlVariable) (value : Option Bytes)
      → variable_num v ≢ lc
      → Refines
          (replace_var v value)
          (λ a. some (tt, record a { var = put v (text_of value) a.var }))
  unfolding replace_var
  Refines-replace_var v value ne =
      Refines-eq
        (Refines-bind (change-Refines (variable_num v) value (in_table v) ne) λ _. Refines-pure tt)
        (λ a. refl)
