-- ===== src/Abstract/Locks.antt =====
-- `service_lock` and `service_unlock` on the abstract transport: the number of open transactions.
use mathlib.Core.Path.{subst}
use gmrender_resurrect.Prelude.{
  ℕ, zero, suc, ◌≡◌, refl, sym, ◌∙◌, ap, arith, Option, none, some, List,
}
use gmrender_resurrect.Prelude.Run.{Run, returns}
use gmrender_resurrect.XmlDoc.{Ixml}
use gmrender_resurrect.VariableContainer.{Listener}
use gmrender_resurrect.LastChangeCollector
use gmrender_resurrect.LastChangeCollector.{Service, Collector, text_of}
use gmrender_resurrect.LastChangeCollector.Ready.{IsWired, identity}
use gmrender_resurrect.LastChangeCollector.Changes.{view, finishing, finish-Returns, Quiet-view}
use gmrender_resurrect.ActionEvent.{Upnp, Session}
use gmrender_resurrect.Output.{OutputModule}
use gmrender_resurrect.Transport.{Own, on_service, service_lock, service_unlock}
use gmrender_resurrect.Abstract.{
  Table, depth_of, opened, count_down, Abs, abs, IsGood, Match, Refines, on_service-Returns,
}

module _ ⦃t : Table⦄ ⦃x : Ixml⦄ ⦃u : Upnp⦄ ⦃o : OutputModule⦄ where
  started : Option Collector → Option Collector
  started none = none
  started (some c) = some (LastChangeCollector.start c)

  IsWired-started :
      (ls : List Listener) (c : Option Collector) → IsWired t.lc ls c → IsWired t.lc ls (started c)
  unfolding started LastChangeCollector.start
  IsWired-started ls none h = h
  IsWired-started ls (some c) h = h

  depth-started :
      (c : Option Collector) → depth_of (identity (started c)) ≡ opened (depth_of (identity c))
  unfolding started LastChangeCollector.start
  depth-started none = refl
  depth-started (some c) = ground arith

  lock_eq :
      (s : Session Own)
      → service_lock s
        ≡ some (
          tt,
          record s { service = record s.service { last_change = started s.service.last_change } },
        )
  unfolding service_lock started
  lock_eq s = ground arith

  pub Refines-lock : Refines service_lock (λ a. some (tt, record a { depth = opened a.depth }))
  Refines-lock = record {
    apply = λ s good. rw (lock_eq s) (
        returns tt _ (
          record {
            vars_eq = good.vars_eq;
            num_eq = good.num_eq;
            values_length = good.values_length;
            lc_lt = good.lc_lt;
            named = good.named;
            wired = IsWired-started s.service.container.callbacks s.service.last_change good.wired;
          },
          refl,
          λ i. record {
            var = view t.lc s.service;
            state = s.own.transport_state;
            out = s.own.output;
            event = s.event;
            depth = depth-started s.service.last_change i;
          },
        ));
  }

  abbrev pub unlocked_at : Option ℕ → Run Abs (Unit {0})
  unlocked_at none a = some (tt, a)
  unlocked_at (some zero) a = none
  unlocked_at (some (suc n)) a = some (tt, record a { depth = some n })

  -- `service_unlock` faults if there is a collector and no transaction is open.
  abbrev pub unlocked : Run Abs (Unit {0})
  unlocked a = unlocked_at a.depth a

  finish_fault :
      (s : Service) (c : Collector)
      → s.last_change ≡ some c
      → c.open_transactions ≡ 0
      → LastChangeCollector.finish s ≡ none
  unfolding LastChangeCollector.finish
  finish_fault s c e z = ground arith

  unlock_at :
      (s : Session Own) (c : Collector) (n : ℕ)
      → IsGood s
      → s.service.last_change ≡ some c
      → c.open_transactions ≡ n
      → Match (unlocked_at (some n) (abs s)) (on_service LastChangeCollector.finish s)
  unlock_at s c zero good e z = ground (arith, finish_fault s.service c e z)
  unlock_at s c (suc n) good e z =
      on_service-Returns LastChangeCollector.finish s
        (finish-Returns t.metas t.lc s.service c good e (omega arith))
        λ _ after (ready, q). (
          ready,
          refl,
          λ i. record {
            var = Quiet-view t.lc (finishing c s.service) after q i;
            state = s.own.transport_state;
            out = s.own.output;
            event = s.event;
            depth = (ap depth_of q.same_identity ∙ ap some (count_down c n z)) i;
          },
        )

  unlock_none : (s : Session Own) → s.service.last_change ≡ none → service_unlock s ≡ some (tt, s)
  unfolding service_unlock
  unlock_none s e = ground arith

  unlock_some :
      (s : Session Own) (c : Collector)
      → s.service.last_change ≡ some c
      → service_unlock s ≡ on_service LastChangeCollector.finish s
  unfolding service_unlock
  unlock_some s c e = ground arith

  pub Refines-unlock : Refines service_unlock unlocked
  Refines-unlock = record { apply = λ s good. by_collector s good s.service.last_change refl }
    where
      by_collector :
          (s : Session Own)
          → IsGood s
          → (c : Option Collector) → s.service.last_change ≡ c
          → Match (unlocked (abs s)) (service_unlock s)
      by_collector s good none e =
          subst (λ d. Match (unlocked_at d (abs s)) (service_unlock s))
            (sym (ap (λ c. depth_of (identity c)) e))
            (rw (unlock_none s e) (returns tt s (good, refl, refl)))
      by_collector s good (some c) e =
          subst (λ d. Match (unlocked_at d (abs s)) (service_unlock s))
            (sym (ap (λ c. depth_of (identity c)) e))
            (rw (unlock_some s c e) (unlock_at s c c.open_transactions good e refl))
