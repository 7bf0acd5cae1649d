-- ===== src/LastChangeCollector/Changes.antt =====
-- `VariableContainer_change` as its callers see it: with LastChange set aside it is an update of
-- one variable, whatever the collector does in between.
use mathlib.Core.Path.{fun_ext, subst}
use gmrender_resurrect.Prelude.{
  ℕ, suc, ◌-◌, ◌<◌, ◌≡◌, ◌≢◌, refl, sym, ◌∙◌, ap, arith, Bool, true, false, not, Option, none, some,
  List, [], inl, inr, ◌==◌, if◌then◌else◌, length, get_elem?, set, length-set, get_elem?_lt,
  get_elem?-set_self, get_elem?-set_ne, Bool-cases,
}
use gmrender_resurrect.Prelude.Text.{Bytes, str_eq, str_eq-eq}
use gmrender_resurrect.Prelude.Run.{◌>>=◌, pure, Returns, returns, Returns-bind, Returns-weaken}
use gmrender_resurrect.XmlDoc.{Ixml}
use gmrender_resurrect.VariableContainer.{VarMeta}
use gmrender_resurrect.LastChangeCollector.{
  Collector, Service, text_of, call_listeners, change_fuel, change, notify, finish,
}
use gmrender_resurrect.LastChangeCollector.Ready.{IsReady, IsWired, identity, Quiet, Quiet-IsReady}
use gmrender_resurrect.LastChangeCollector.Listeners.{
  stored, change_with_at, change_lc, call_listeners-Returns, notify-Returns,
}

abbrev pub update : (ℕ → Bytes) → ℕ → Bytes → ℕ → Bytes
update f i v j = if i == j then v else f j

-- The text at an index, with the empty text out of range.
abbrev pub or_empty : Option Bytes → Bytes
or_empty none = []
or_empty (some v) = v

or_empty-set :
    (vs : List Bytes) (i : ℕ) (v : Bytes) (j : ℕ)
    → i < length vs
    → or_empty (get_elem? (set vs i v) j) ≡ (if i == j then v else or_empty (get_elem? vs j))
or_empty-set vs i v j h = elim (Bool-cases (i == j)) [
  | inl e ↦ ground (arith, get_elem?-set_self vs i v h)
  | inr e ↦ ground (arith, get_elem?-set_ne vs i j v)
]

module _ ⦃x : Ixml⦄ where
  -- The variables of a service, but for LastChange.
  abbrev pub view : ℕ → Service → ℕ → Bytes
  view lc s j = if j == lc then [] else or_empty (get_elem? s.container.values j)

  -- What a change of variable `i` to `v` leads to: `b` says whether the value is a new one.
  pub record Updated (metas : List VarMeta) (lc i : ℕ) (v : Bytes) (s : Service) (b : Bool)
      (t : Service) : Type 0 where
    pub ready : IsReady metas lc t
    pub view_eq : view lc t ≡ update (view lc s) i v
    pub flag_eq : b ≡ not (str_eq v (view lc s i))
    pub identity_eq : identity t.last_change ≡ identity s.last_change

  pub Quiet-view : (lc : ℕ) (s t : Service) → Quiet lc s t → view lc t ≡ view lc s
  Quiet-view lc s t q = fun_ext λ j. elim (Bool-cases (j == lc)) [
    | inl e ↦ ground arith
    | inr e ↦ ground (arith, q.same_values j)
  ]

  stored-view :
      (lc i : ℕ) (v : Bytes) (s : Service)
      → i < length s.container.values
      → i ≢ lc
      → view lc (stored i v s) ≡ update (view lc s) i v
  stored-view lc i v s h ne = fun_ext λ j. ground (arith, or_empty-set s.container.values i v j h)

  stored-IsReady :
      {metas : List VarMeta} {lc : ℕ} (i : ℕ) (v : Bytes) (s : Service)
      → IsReady metas lc s
      → IsReady metas lc (stored i v s)
  stored-IsReady i v s r = record {
    vars_eq = r.vars_eq;
    num_eq = r.num_eq;
    values_length = length-set s.container.values i v ∙ r.values_length;
    lc_lt = r.lc_lt;
    named = r.named;
    wired = r.wired;
  }

  view_at :
      (lc i : ℕ) (s : Service) (old : Bytes)
      → get_elem? s.container.values i ≡ some old
      → i ≢ lc
      → view lc s i ≡ old
  view_at lc i s old e ne = ground arith

  update_same : (f : ℕ → Bytes) (i : ℕ) → update f i (f i) ≡ f
  update_same f i = fun_ext λ j. ground arith

  -- A variable other than LastChange can be changed at any depth of two or more.
  pub change_fuel-Updated :
      (depth : ℕ) (metas : List VarMeta) (lc i : ℕ) (value : Option Bytes) (s : Service)
      → IsReady metas lc s
      → i < length metas
      → i ≢ lc
      → Returns (Updated metas lc i (text_of value) s) (change_fuel (suc (suc depth)) i value s)
  unfolding change_fuel
  change_fuel-Updated depth metas lc i value s r lt ne =
      let (old, eo) = get_elem?_lt s.container.values i (rw r.values_length lt) in
      let (name, en) = r.named i lt in
      let num_lt : i < s.container.variable_num = rw r.num_eq lt in
      subst (Returns (Updated metas lc i (text_of value) s))
        (sym (change_with_at (change_fuel (suc depth)) i value s old name num_lt eo en))
        (by_test old name (str_eq (text_of value) old) refl (view_at lc i s old eo ne))
    where
      by_test :
          (old name : Bytes) (same : Bool)
          → str_eq (text_of value) old ≡ same
          → view lc s i ≡ old
          → Returns (Updated metas lc i (text_of value) s) (
              if same
              then some (false, s)
              else (call_listeners
                      (change_fuel (suc depth))
                      s.container.callbacks
                      i
                      name
                      (text_of value)
                    >>= λ _. pure true)
                  (stored i (text_of value) s))
      by_test old name true e at = returns false s (record {
        ready = r;
        view_eq =
            sym (update_same (view lc s) i)
            ∙ ap (update (view lc s) i) (at ∙ sym (str_eq-eq (text_of value) old e));
        flag_eq = sym (ap not (ap (str_eq (text_of value)) at ∙ e));
        identity_eq = refl;
      })
      by_test old name false e at =
          let s1 = stored i (text_of value) s in
          let r1 = stored-IsReady i (text_of value) s r in
          Returns-bind {Q = Updated metas lc i (text_of value) s}
            (call_listeners (change_fuel (suc depth)) s.container.callbacks i name (text_of value))
            (λ _. pure true) s1
            (call_listeners-Returns metas lc (change_fuel (suc depth))
              (λ v t rt. change_lc depth v t rt) i name (text_of value) s1 r1)
            λ _ t q. returns true t (record {
              ready = Quiet-IsReady r1 q;
              view_eq =
                  Quiet-view lc s1 t q
                  ∙ stored-view lc i (text_of value) s (rw r.values_length lt) ne;
              flag_eq = sym (ap not (ap (str_eq (text_of value)) at ∙ e));
              identity_eq = q.same_identity;
            })

  -- `VariableContainer_change` on any variable but LastChange, in a service that is ready (with its
  -- whole table, and a collector, if any, that ignores LastChange): it does not fault, reports whether
  -- the value is new, stores the value (NULL as the empty text), leaves every other variable but
  -- LastChange as it was, and keeps the collector's transaction count and settings.
  pub change-Updated :
      (metas : List VarMeta) (lc i : ℕ) (value : Option Bytes) (s : Service)
      → IsReady metas lc s
      → i < length metas
      → i ≢ lc
      → Returns (Updated metas lc i (text_of value) s) (change i value s)
  unfolding change
  change-Updated metas lc i value s r lt ne = change_fuel-Updated 0 metas lc i value s r lt ne

  abbrev pub finishing : Collector → Service → Service
  finishing c s = record s {
    last_change = some (record c { open_transactions = c.open_transactions - 1 });
  }

  finishing-IsReady :
      {metas : List VarMeta} {lc : ℕ} (c : Collector) (s : Service)
      → IsReady metas lc s
      → s.last_change ≡ some c
      → IsReady metas lc (finishing c s)
  finishing-IsReady {lc = lc} c s r e = record {
    vars_eq = r.vars_eq;
    num_eq = r.num_eq;
    values_length = r.values_length;
    lc_lt = r.lc_lt;
    named = r.named;
    wired = subst (IsWired lc s.container.callbacks) e r.wired;
  }

  -- In a service that is ready, finishing an open transaction does not fault: it takes one off the count and changes nothing
  -- else but LastChange, the builder and what was sent.
  pub finish-Returns :
      (metas : List VarMeta) (lc : ℕ) (s : Service) (c : Collector)
      → IsReady metas lc s
      → s.last_change ≡ some c
      → 0 < c.open_transactions
      → Returns (λ _ t. IsReady metas lc t × Quiet lc (finishing c s) t) (finish s)
  unfolding finish change
  finish-Returns metas lc s c r e lt =
      let r' = finishing-IsReady c s r e in
      subst (Returns (λ _ t. IsReady metas lc t × Quiet lc (finishing c s) t)) (sym open_eq) (
        Returns-weaken
          (notify-Returns metas lc change (λ v t rt. change_lc 1 v t rt) (finishing c s)
            (record c { open_transactions = c.open_transactions - 1 }) r' refl)
          (λ _ t q. (Quiet-IsReady r' q, q)))
    where
      open_eq : finish s ≡ notify change (finishing c s)
      open_eq = ground arith
