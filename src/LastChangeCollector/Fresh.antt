-- ===== src/LastChangeCollector/Fresh.antt =====
-- A service whose variables `VariableContainer_new` has just made, before it has a collector.
use mathlib.Core.Path.{subst}
use gmrender_resurrect.Prelude.{ℕ, ◌<◌, ◌≡◌, sym, ap, ◌∙◌, arith, none, some, List, length, take}
use gmrender_resurrect.XmlDoc.{Ixml}
use gmrender_resurrect.VariableContainer
use gmrender_resurrect.VariableContainer.{VarMeta, Container, create_sorted_meta}
use gmrender_resurrect.VariableContainer.Creation.{new-IsNew}
use gmrender_resurrect.LastChangeCollector.{Service}
use gmrender_resurrect.LastChangeCollector.Ready.{IsReady, IsWired, IsSilent}

module _ ⦃x : Ixml⦄ where
  -- It is ready.
  pub new-IsReady :
      (n : ℕ) (metas : List VarMeta) (lc : ℕ) (service : Service) (c : Container)
      → VariableContainer.new n metas ≡ some c
      → service.container ≡ c
      → service.last_change ≡ none
      → n ≡ length (create_sorted_meta (take n metas))
      → lc < n
      → IsReady (create_sorted_meta (take n metas)) lc service
  new-IsReady n metas lc service c e ec el size lt =
      let q = new-IsNew n metas c e in
      record {
        vars_eq = ap (λ c. c.vars) ec ∙ q.vars_eq;
        num_eq = ap (λ c. c.variable_num) ec ∙ q.num_eq ∙ size;
        values_length = ap (λ c. length c.values) ec ∙ q.values_length ∙ size;
        lc_lt = omega (arith, size, lt);
        named = λ i h.
            let g = q.initial i (omega (arith, size, h)) in
            (g.name, ground (arith, ec, g.found, g.named));
        wired =
            subst (IsWired lc service.container.callbacks) (sym el)
              (subst IsSilent (sym (ap (λ c. c.callbacks) ec ∙ q.callbacks_eq)) tt);
      }
