-- ===== src/LastChangeCollector/Ready.antt =====
-- The states in which the variables of a service can be changed without a fault, and what the
-- listeners of a change leave alone.
use gmrender_resurrect.Prelude.{
  ℕ, ◌<◌, ◌≡◌, ◌≢◌, refl, ◌∙◌, arith, true, Option, none, some, List, [], ◌∷◌, length, get_elem?,
}
use gmrender_resurrect.Prelude.Text.{Bytes}
use gmrender_resurrect.Prelude.Bits.{test_bit}
use gmrender_resurrect.XmlDoc.{Ixml}
use gmrender_resurrect.VariableContainer.{VarMeta, Listener, collector, logger, var_name}
use gmrender_resurrect.LastChangeCollector.{Collector, Service}

-- No listener of the list is the collector.
abbrev pub IsSilent : List Listener → Type 0
IsSilent [] = Unit {0}
IsSilent (logger _ ∷ ls) = IsSilent ls
IsSilent (collector ∷ ls) = ⊥

module _ ⦃x : Ixml⦄ where
  -- The collector, if there is one, sends through variable `lc` and does not listen to it.
  abbrev pub IsWired : ℕ → List Listener → Option Collector → Type 0
  IsWired lc ls none = IsSilent ls
  IsWired lc ls (some c) =
      (c.last_change_variable_num ≡ lc) × (test_bit c.not_eventable_variables lc ≡ true)

  -- A service over the sorted table `metas`, whose LastChange variable has number `lc`.
  pub record IsReady (metas : List VarMeta) (lc : ℕ) (s : Service) : Type 0 where
    pub vars_eq : s.container.vars ≡ metas
    pub num_eq : s.container.variable_num ≡ length metas
    pub values_length : length s.container.values ≡ length metas
    pub lc_lt : lc < length metas
    pub named : (i : ℕ) → i < length metas → (name : Bytes) × (var_name s.container i ≡ some name)
    pub wired : IsWired lc s.container.callbacks s.last_change

  -- What identifies a collector: all but its builder.
  abbrev pub identity : Option Collector → Option (ℕ × ℕ × Bytes × ℕ)
  identity none = none
  identity (some c) =
      some
        (c.last_change_variable_num, c.not_eventable_variables, c.service_id, c.open_transactions)

  -- From `s` to `t` at most the builder, LastChange and what was sent have changed.
  pub record Quiet (lc : ℕ) (s t : Service) : Type 0 where
    pub same_vars : t.container.vars ≡ s.container.vars
    pub same_num : t.container.variable_num ≡ s.container.variable_num
    pub same_callbacks : t.container.callbacks ≡ s.container.callbacks
    pub same_length : length t.container.values ≡ length s.container.values
    pub same_values :
        (j : ℕ) → j ≢ lc → get_elem? t.container.values j ≡ get_elem? s.container.values j
    pub same_identity : identity t.last_change ≡ identity s.last_change

  pub Quiet-refl : (lc : ℕ) (s : Service) → Quiet lc s s
  Quiet-refl lc s = record {
    same_vars = refl;
    same_num = refl;
    same_callbacks = refl;
    same_length = refl;
    same_values = λ j h. refl;
    same_identity = refl;
  }

  pub Quiet-trans : (lc : ℕ) {s t u : Service} → Quiet lc s t → Quiet lc t u → Quiet lc s u
  Quiet-trans lc p q = record {
    same_vars = q.same_vars ∙ p.same_vars;
    same_num = q.same_num ∙ p.same_num;
    same_callbacks = q.same_callbacks ∙ p.same_callbacks;
    same_length = q.same_length ∙ p.same_length;
    same_values = λ j h. q.same_values j h ∙ p.same_values j h;
    same_identity = q.same_identity ∙ p.same_identity;
  }

  IsWired-identity :
      (lc : ℕ) (ls : List Listener) (c d : Option Collector)
      → identity d ≡ identity c
      → IsWired lc ls c
      → IsWired lc ls d
  IsWired-identity lc ls none none e h = h
  IsWired-identity lc ls none (some d) e h = cc
  IsWired-identity lc ls (some c) none e h = cc
  IsWired-identity lc ls (some c) (some d) e h = ground arith

  pub Quiet-IsReady :
      {metas : List VarMeta} {lc : ℕ} {s t : Service}
      → IsReady metas lc s
      → Quiet lc s t
      → IsReady metas lc t
  Quiet-IsReady {lc = lc} {s = s} {t = t} r q = record {
    vars_eq = q.same_vars ∙ r.vars_eq;
    num_eq = q.same_num ∙ r.num_eq;
    values_length = q.same_length ∙ r.values_length;
    lc_lt = r.lc_lt;
    named = λ i h. rw q.same_vars (r.named i h);
    wired = rw q.same_callbacks (
        IsWired-identity lc s.container.callbacks s.last_change t.last_change q.same_identity
          r.wired);
  }
