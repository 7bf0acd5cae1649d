-- ===== src/Transport/Table.antt =====
-- The variables of the transport on the abstract state.
use gmrender_resurrect.Prelude.{List, ℕ, ◌<◌, ◌≡◌, ◌≢◌, refl, arith, not, Option, some, length}
use gmrender_resurrect.Prelude.Text.{Bytes, str_eq}
use gmrender_resurrect.Prelude.Run.{Run, ◌>>=◌, returns}
use gmrender_resurrect.XmlDoc.{Ixml}
use gmrender_resurrect.VariableContainer.{VarMeta, create_sorted_meta, insert_meta}
use gmrender_resurrect.LastChangeCollector.{text_of}
use gmrender_resurrect.LastChangeCollector.Changes.{update}
use gmrender_resurrect.ActionEvent.{Upnp, with_response, upnp_append_variable}
use gmrender_resurrect.Output.{OutputModule}
use gmrender_resurrect.Transport.{Transport, replace_var, get_var}
use gmrender_resurrect.Transport.Variables.{TransportVariable, variable_num}
use gmrender_resurrect.Transport.Variables.{transport_var_meta, last_change}
use gmrender_resurrect.Abstract.{Table, Abs, Refines}
use gmrender_resurrect.Abstract.Calls.{get_eq, append-Refines, change-Refines}

-- The sorted table, and the number of LastChange in it.
unfoldable pub transport_metas : List VarMeta
unfolding create_sorted_meta insert_meta transport_var_meta
transport_metas = create_sorted_meta transport_var_meta

abbrev pub lc : ℕ
lc = variable_num last_change

pub length-transport_metas : length transport_metas ≡ 30
unfolding transport_metas
length-transport_metas = refl

instance abbrev pub transport_table : Table
transport_table = record { metas = transport_metas; lc = lc }

variable_num-lt : (v : TransportVariable) → variable_num v < 30
variable_num-lt v = ground arith

in_table : (v : TransportVariable) → variable_num v < length transport_metas
in_table v = rw length-transport_metas (variable_num-lt v)

module _ ⦃x : Ixml⦄ ⦃u : Upnp⦄ ⦃o : OutputModule⦄ where
  pub Refines-get_var :
      (v : TransportVariable)
      → variable_num v ≢ lc
      → Refines (get_var v) (λ a. some (some (a.var (variable_num v)), a))
  unfolding get_var
  Refines-get_var v ne = record {
    apply = λ s good. returns _ s (good, get_eq (variable_num v) s (in_table v) ne good, refl);
  }

  -- A read variable is not NULL.
  read-step :
      (v : TransportVariable)
      → variable_num v ≢ lc
      → {A : Type 0} (k : Option Bytes → Transport A) {g : Bytes → Run Abs A}
      → ((text : Bytes) → Refines (k (some text)) (g text))
      → Refines (get_var v >>= k) (λ a. g (a.var (variable_num v)) a)
  unfolding get_var
  read-step v ne k h = record {
    apply = λ s good. rw (get_eq (variable_num v) s (in_table v) ne good) ((h _).apply s good);
  }

  pub read_two :
      (v w : TransportVariable)
      → variable_num v ≢ lc
      → variable_num w ≢ lc
      → {A : Type 0} (k : Option Bytes → Option Bytes → Transport A) (g : Bytes → Bytes → Run Abs A)
      → ((a b : Bytes) → Refines (k (some a) (some b)) (g a b))
      → Refines
          (get_var v >>= λ a. get_var w >>= k a)
          (λ s. g (s.var (variable_num v)) (s.var (variable_num w)) s)
  read_two v w p q k g h =
      read-step v p (λ a. get_var w >>= k a) λ a. read-step w q (k (some a)) (h a)

  pub Refines-append_variable :
      (v : TransportVariable) (paramname : Bytes)
      → variable_num v ≢ lc
      → Refines (upnp_append_variable (variable_num v) paramname) (λ a.
        some
          (tt, record a { event = (with_response paramname (a.var (variable_num v)) a.event).1 }))
  Refines-append_variable v paramname ne = append-Refines (variable_num v) paramname (in_table v) ne

  pub Refines-replace_var :
      (v : TransportVariable) (value : Option Bytes)
      → variable_num v ≢ lc
      → Refines (replace_var v value) (λ a. some (
        not (str_eq (text_of value) (a.var (variable_num v))),
        record a { var = update a.var (variable_num v) (text_of value) },
      ))
  unfolding replace_var
  Refines-replace_var v value ne = change-Refines (variable_num v) value (in_table v) ne
