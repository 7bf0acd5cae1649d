-- ===== src/Abstract.antt =====
-- The abstract transport: the variables as a function, with LastChange, its collector, the
-- documents and the listeners forgotten. A piece of code refines an abstract one if it faults
-- exactly where that faults, and otherwise ends in a state that abstracts to its result.
pub mod Calls
pub mod Locks
pub mod Ends
pub mod Transactions
use mathlib.Core.Path.{subst}
use gmrender_resurrect.Prelude.{
  ℕ, zero, suc, ◌-◌, ◌<◌, ◌≡◌, ◌≢◌, refl, sym, ◌∙◌, ap, arith, Bool, true, false, not, Option, none,
  some, List, if◌then◌else◌, length, get_elem?_lt,
}
use gmrender_resurrect.Prelude.Text.{Bytes, str_eq}
use gmrender_resurrect.Prelude.Int.{pos}
use gmrender_resurrect.Prelude.Run.{Run, ◌>>=◌, pure, assert, deref, Returns, returns}
use gmrender_resurrect.XmlDoc.{Ixml}
use gmrender_resurrect.VariableContainer
use gmrender_resurrect.VariableContainer.{
  VarMeta, Listener, create_sorted_meta, insert_meta, var_name,
}
use gmrender_resurrect.LastChangeCollector
use gmrender_resurrect.LastChangeCollector.{Service, Collector, text_of}
use gmrender_resurrect.LastChangeCollector.Ready.{IsReady, IsWired, identity}
use gmrender_resurrect.LastChangeCollector.Changes.{
  update, view, change-Updated, finishing, finish-Returns, Quiet-view,
}
use gmrender_resurrect.ActionEvent.{
  Upnp, ActionEvent, Session, with_error, with_response, request_string, missing_message,
  upnp_set_error, upnp_append_variable, upnp_get_string,
}
use gmrender_resurrect.Output.{OutputModule}
use gmrender_resurrect.Transport.{
  TransportState, Own, Transport, on_service, set_state, get_state, on_output, on_output_void,
  service_lock, service_unlock, replace_var, get_var,
}
use gmrender_resurrect.Transport.Variables.{
  TransportVariable, variable_num, transport_var_meta, last_change,
}

-- The table of the variables of a service, sorted, and the number of LastChange in it.
pub record Table : Type 0 where
  pub metas : List VarMeta
  pub lc : ℕ

-- The number of open transactions, if there is a collector.
abbrev pub depth_of : Option (ℕ × ℕ × Bytes × ℕ) → Option ℕ
depth_of none = none
depth_of (some (_, _, _, n)) = some n

abbrev pub opened : Option ℕ → Option ℕ
opened none = none
opened (some n) = some (suc n)

pub count_down :
    ⦃x : Ixml⦄ (c : Collector) (n : ℕ) → c.open_transactions ≡ suc n → c.open_transactions - 1 ≡ n
count_down c n e = omega arith

module _ ⦃x : Ixml⦄ ⦃u : Upnp⦄ ⦃o : OutputModule⦄ where
  pub record Abs : Type 0 where
    pub var : ℕ → Bytes
    pub state : TransportState
    pub out : o.Out
    pub event : ActionEvent
    pub depth : Option ℕ

module _ ⦃t : Table⦄ ⦃x : Ixml⦄ ⦃u : Upnp⦄ ⦃o : OutputModule⦄ where
  abbrev pub abs : Session Own → Abs
  abs s = record {
    var = view t.lc s.service;
    state = s.own.transport_state;
    out = s.own.output;
    event = s.event;
    depth = depth_of (identity s.service.last_change);
  }

  -- The sessions of a service that has been set up.
  abbrev pub IsGood : Session Own → Type 0
  IsGood s = IsReady t.metas t.lc s.service

  -- How a run of the code matches a run of its abstraction.
  abbrev pub Match : {A : Type 0} → Option (A × Abs) → Option (A × Session Own) → Type 0
  Match none r = r ≡ none
  Match (some (a, v)) r = Returns (λ b t. IsGood t × (b ≡ a) × (abs t ≡ v)) r

  pub record Refines {A : Type 0} (m : Transport A) (f : Run Abs A) : Type 0 where
    pub apply : (s : Session Own) → IsGood s → Match (f (abs s)) (m s)

  pub Refines-eq :
      {A : Type 0} {m : Transport A} {f g : Run Abs A}
      → Refines m f
      → ((v : Abs) → f v ≡ g v)
      → Refines m g
  Refines-eq {m = m} r e = record {
    apply = λ s good. subst (λ q. Match q (m s)) (e (abs s)) (r.apply s good);
  }

  Match-bind :
      {A B : Type 0} (k : A → Transport B) (g : A → Run Abs B) (p : Option (A × Abs))
      (r : Option (A × Session Own))
      → ((a : A) → Refines (k a) (g a))
      → Match p r
      → Match
          (elim p [ none ↦ none | some (a, v) ↦ g a v ])
          (elim r [ none ↦ none | some (a, s) ↦ k a s ])
  Match-bind k g none r h e = rw e
  Match-bind {A = A} k g (some (a, v)) r h e = step r e
    where
      step :
          (r : Option (A × Session Own))
          → Returns (λ b t. IsGood t × (b ≡ a) × (abs t ≡ v)) r
          → Match (g a v) (elim r [ none ↦ none | some (a, s) ↦ k a s ])
      step r (returns b t (good, eb, ev)) =
          subst (λ w. Match (g a w) (k b t)) ev
            (subst (λ b. Match (g a (abs t)) (k b t)) (sym eb) ((h a).apply t good))

  pub Refines-bind :
      {A B : Type 0} {m : Transport A} {f : Run Abs A} {k : A → Transport B} {g : A → Run Abs B}
      → Refines m f
      → ((a : A) → Refines (k a) (g a))
      → Refines (m >>= k) (f >>= g)
  Refines-bind {m = m} {f = f} {k = k} {g = g} p q = record {
    apply = λ s good. Match-bind k g (f (abs s)) (m s) q (p.apply s good);
  }

  fault_at :
      {A B : Type 0} (k : A → Transport B) (r : Option (A × Session Own))
      → r ≡ none
      → elim r [ none ↦ none | some (a, s) ↦ k a s ] ≡ none
  fault_at k r e = rw e

  -- What follows a fault is not run.
  pub fault-bind :
      {A B : Type 0} {m : Transport A} (k : A → Transport B)
      → Refines m (λ _. none)
      → Refines (m >>= k) (λ _. none)
  fault-bind {m = m} k r = record { apply = λ s good. fault_at k (m s) (r.apply s good) }

  pub Refines-pure : {A : Type 0} (a : A) → Refines (pure a) (pure a)
  Refines-pure a = record { apply = λ s good. returns a s (good, refl, refl) }

  pub Refines-fault :
      {A : Type 0} {f : Run Abs A} {m : Transport A}
      → ((v : Abs) → f v ≡ none)
      → ((s : Session Own) → m s ≡ none)
      → Refines m f
  Refines-fault p q = record { apply = λ s good. rw (p (abs s)) (q s) }

  pub Refines-deref : {A : Type 0} (a : Option A) → Refines (deref a) (deref a)
  Refines-deref none = record { apply = λ s good. refl }
  Refines-deref (some a) = record { apply = λ s good. returns a s (good, refl, refl) }

  pub Refines-assert : (b : Bool) → Refines (assert b) (assert b)
  Refines-assert false = record { apply = λ s good. refl }
  Refines-assert true = record { apply = λ s good. returns tt s (good, refl, refl) }

  pub Refines-if :
      {A : Type 0} (b : Bool) {m n : Transport A} {f g : Run Abs A}
      → Refines m f
      → Refines n g
      → Refines (if b then m else n) (if b then f else g)
  Refines-if true p q = p
  Refines-if false p q = q

  pub Refines-set_state :
      (state : TransportState)
      → Refines (set_state state) (λ v. some (tt, record v { state = state }))
  Refines-set_state state = record { apply = λ s good. returns tt _ (good, refl, refl) }

  pub Refines-get_state : Refines get_state (λ v. some (v.state, v))
  Refines-get_state = record { apply = λ s good. returns _ s (good, refl, refl) }

  pub Refines-on_output :
      {A : Type 0} (f : o.Out → A × o.Out)
      → Refines (on_output f) (λ v. some ((f v.out).0, record v { out = (f v.out).1 }))
  Refines-on_output f = record { apply = λ s good. returns _ _ (good, refl, refl) }

  pub Refines-on_output_void :
      (f : o.Out → o.Out) → Refines (on_output_void f) (λ v. some (tt, record v { out = f v.out }))
  Refines-on_output_void f = record { apply = λ s good. returns _ _ (good, refl, refl) }

  pub on_service-Returns :
      {A : Type 0} {P : A → Service → Type 0} {Q : A → Session Own → Type 0} (m : Run Service A)
      (s : Session Own)
      → Returns P (m s.service)
      → ((a : A) (t : Service) → P a t → Q a (record s { service = t }))
      → Returns Q (on_service m s)
  on_service-Returns {A = A} {P = P} {Q = Q} m s r k = step (m s.service) r
    where
      step :
          (r : Option (A × Service))
          → Returns P r
          → Returns Q (elim r [
            | none ↦ none
            | some (a, service) ↦ some (a, record s { service = service })
          ])
      step r (returns a t p) = returns a _ (k a t p)
