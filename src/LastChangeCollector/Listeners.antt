-- ===== src/LastChangeCollector/Listeners.antt =====
-- What the listeners of a change do: they never fault, and change at most LastChange, the
-- collector's builder, the documents and what was sent.
use mathlib.Core.Path.{subst}
use gmrender_resurrect.Prelude.{
  ℕ, suc, ◌<◌, ◌≡◌, refl, sym, ◌∙◌, ap, arith, Bool, true, false, Option, none, some, List, [], ◌∷◌,
  inl, inr, ◌==◌, if◌then◌else◌, length, get_elem?, set, length-set, get_elem?_lt, get_elem?-set_ne,
  Option-cases,
}
use gmrender_resurrect.Prelude.Text.{Bytes, str_eq}
use gmrender_resurrect.Prelude.Bits.{test_bit}
use gmrender_resurrect.Prelude.Run.{◌>>=◌, pure, Returns, returns, Returns-bind, Returns-weaken}
use gmrender_resurrect.XmlEscape.{escaped, xmlescape_small-eq}
use gmrender_resurrect.XmlDoc.{Ixml}
use gmrender_resurrect.VariableContainer.{VarMeta, Listener, collector, logger, var_name}
use gmrender_resurrect.LastChangeBuilder
use gmrender_resurrect.LastChangeBuilder.{Builder}
use gmrender_resurrect.LastChangeCollector.{
  Collector, Service, Change, text_of, announce, announce_if, send, flush, notify, callback,
  call_listeners, change_with, change_fuel, change,
}
use gmrender_resurrect.LastChangeCollector.Ready.{
  IsSilent, IsWired, IsReady, identity, Quiet, Quiet-refl, Quiet-trans, Quiet-IsReady,
}

module _ ⦃x : Ixml⦄ where
  pub call_listeners_silent :
      (deeper : Change) (ls : List Listener) (i : ℕ) (name v : Bytes) (s : Service)
      → IsSilent ls
      → call_listeners deeper ls i name v s ≡ some (tt, s)
  unfolding call_listeners
  call_listeners_silent deeper [] i name v s h = refl
  call_listeners_silent deeper (logger _ ∷ ls) i name v s h =
      call_listeners_silent deeper ls i name v s h
  call_listeners_silent deeper (collector ∷ ls) i name v s h = absurd h

  callback_ignored :
      (deeper : Change) (i : ℕ) (name v : Bytes) (s : Service) (c : Collector)
      → s.last_change ≡ some c
      → test_bit c.not_eventable_variables i ≡ true
      → callback deeper i name v s ≡ some (tt, s)
  unfolding callback
  callback_ignored deeper i name v s c e h = rw (e, h)

  call_listeners_ignored :
      (deeper : Change) (ls : List Listener) (i : ℕ) (name v : Bytes) (s : Service) (c : Collector)
      → s.last_change ≡ some c
      → test_bit c.not_eventable_variables i ≡ true
      → call_listeners deeper ls i name v s ≡ some (tt, s)
  unfolding call_listeners
  call_listeners_ignored deeper [] i name v s c e h = refl
  call_listeners_ignored deeper (logger _ ∷ ls) i name v s c e h =
      call_listeners_ignored deeper ls i name v s c e h
  call_listeners_ignored deeper (collector ∷ ls) i name v s c e h = ground (
    arith,
    callback_ignored deeper i name v s c e h,
    call_listeners_ignored deeper ls i name v s c e h,
  )

  -- Storing a value, before the listeners are called.
  abbrev pub stored : ℕ → Bytes → Service → Service
  stored i v s = record s { container = record s.container { values = set s.container.values i v } }

  stored-Quiet : (lc : ℕ) (v : Bytes) (s : Service) → Quiet lc s (stored lc v s)
  stored-Quiet lc v s = record {
    same_vars = refl;
    same_num = refl;
    same_callbacks = refl;
    same_length = length-set s.container.values lc v;
    same_values = λ j h. get_elem?-set_ne s.container.values lc j v (λ e. h (sym e));
    same_identity = refl;
  }

  -- The listeners are not concerned by a change of LastChange.
  pub call_listeners-lc :
      (deeper : Change) (lc : ℕ) (ls : List Listener) (name v : Bytes) (s : Service)
      → IsWired lc ls s.last_change
      → call_listeners deeper ls lc name v s ≡ some (tt, s)
  call_listeners-lc deeper lc ls name v s w = go s.last_change refl w
    where
      go :
          (o : Option Collector)
          → s.last_change ≡ o
          → IsWired lc ls o
          → call_listeners deeper ls lc name v s ≡ some (tt, s)
      go none e h = call_listeners_silent deeper ls lc name v s h
      go (some c) e h = call_listeners_ignored deeper ls lc name v s c e h.1

  pub change_lem :
      (i : ℕ) (value : Option Bytes) (s : Service)
      → change i value s ≡ change_with (change_fuel 1) i value s
  unfolding change
  change_lem i value s = refl

  -- What `change_with` does once the old value and the name are known.
  pub change_with_at :
      (deeper : Change) (i : ℕ) (value : Option Bytes) (s : Service) (old name : Bytes)
      → i < s.container.variable_num
      → get_elem? s.container.values i ≡ some old
      → var_name s.container i ≡ some name
      → change_with deeper i value s ≡ (
          if str_eq (text_of value) old
          then some (false, s)
          else (call_listeners deeper s.container.callbacks i name (text_of value) >>= λ _.
                pure true)
              (stored i (text_of value) s))
  unfolding change_with
  change_with_at deeper i value s old name h eo en = ground arith

  -- Whatever the depth, LastChange itself can be changed, and nothing else changes by it.
  pub change_lc :
      (depth : ℕ) {metas : List VarMeta} {lc : ℕ} (value : Option Bytes) (s : Service)
      → IsReady metas lc s
      → Returns (λ _ t. Quiet lc s t) (change_fuel (suc depth) lc value s)
  unfolding change_fuel
  change_lc depth {lc = lc} value s r =
      let (old, eo) = get_elem?_lt s.container.values lc (rw r.values_length r.lc_lt) in
      let (name, en) = r.named lc r.lc_lt in
      let i_lt : lc < s.container.variable_num = rw r.num_eq r.lc_lt in
      subst (Returns (λ _ t. Quiet lc s t))
        (sym (change_with_at (change_fuel depth) lc value s old name i_lt eo en))
        (by_test (str_eq (text_of value) old) name)
    where
      by_test :
          (same : Bool) (name : Bytes)
          → Returns
              (λ _ t. Quiet lc s t)
              (if same
                then some (false, s)
                else (call_listeners
                        (change_fuel depth)
                        s.container.callbacks
                        lc
                        name
                        (text_of value)
                      >>= λ _. pure true)
                    (stored lc (text_of value) s))
      by_test true name = returns false s (Quiet-refl lc s)
      by_test false name =
          subst
            (λ o.
              Returns (λ _ t. Quiet lc s t) (elim o [ none ↦ none | some (_, t) ↦ some (true, t) ]))
            (sym (
              call_listeners-lc (change_fuel depth) lc s.container.callbacks name (text_of value)
                (stored lc (text_of value) s) r.wired))
            (returns true (stored lc (text_of value) s) (stored-Quiet lc (text_of value) s))

  -- A step that leaves the container alone and keeps the collector's identity.
  same_container-Quiet :
      (lc : ℕ) (s t : Service)
      → t.container ≡ s.container
      → identity t.last_change ≡ identity s.last_change
      → Quiet lc s t
  same_container-Quiet lc s t e h = record {
    same_vars = ap (λ c. c.vars) e;
    same_num = ap (λ c. c.variable_num) e;
    same_callbacks = ap (λ c. c.callbacks) e;
    same_length = ap (λ c. length c.values) e;
    same_values = λ j ne. ap (λ c. get_elem? c.values j) e;
    same_identity = h;
  }

-- The listeners, given that the call they may make does no more than change LastChange.
module _ ⦃x : Ixml⦄ (metas : List VarMeta) (lc : ℕ) (deeper : Change)
    (deep : (v : Option Bytes) (s : Service)
      → IsReady metas lc s
      → Returns (λ _ t. Quiet lc s t) (deeper lc v s)) where
  announce_if-Returns :
      (changed : Bool) (c : Collector) (xml : Bytes) (s t : Service)
      → Quiet lc s t
      → Returns (λ _ u. Quiet lc s u) (announce_if changed c xml t)
  unfolding announce_if
  announce_if-Returns true c xml s t q =
      rw (announce_if, xmlescape_small-eq xml false)
        (returns tt (announce c (escaped xml false) t)
          (Quiet-trans lc q (same_container-Quiet lc t _ refl refl)))
  announce_if-Returns false c xml s t q = returns tt t q

  send-Returns :
      (c : Collector) (xml : Bytes) (s : Service)
      → IsReady metas lc s
      → c.last_change_variable_num ≡ lc
      → Returns (λ _ t. Quiet lc s t) (send deeper c xml s)
  unfolding send
  send-Returns c xml s r e =
      Returns-bind {P = λ _ t. Quiet lc s t} (deeper c.last_change_variable_num (some xml)) _ s
        (rw e (deep (some xml) s r)) λ changed t q. announce_if-Returns changed c xml s t q

  -- Another builder for the same collector.
  rebuilt-Quiet :
      (s : Service) (c : Collector) (builder : Builder) (dom : x.Dom)
      → s.last_change ≡ some c
      → Quiet lc s (record s { last_change = some (record c { builder = builder }); dom = dom })
  rebuilt-Quiet s c builder dom e =
      same_container-Quiet lc s
        (record s { last_change = some (record c { builder = builder }); dom = dom }) refl
        (sym (ap identity e))

  flush-Returns :
      (c : Collector) (s : Service)
      → IsReady metas lc s
      → s.last_change ≡ some c
      → Returns (λ _ t. Quiet lc s t) (flush deeper c s)
  unfolding flush
  flush-Returns c s r e =
      let (xml, builder, dom) = LastChangeBuilder.to_xml c.builder s.dom in
      by_document xml builder dom
    where
      by_document :
          (xml : Option Bytes) (builder : Builder) (dom : x.Dom)
          → Returns
              (λ _ t. Quiet lc s t)
              (elim xml [
                | none ↦ some (
                  tt,
                  record s { last_change = some (record c { builder = builder }); dom = dom },
                )
                | some xml ↦
                    send deeper
                      (record c { builder = builder })
                      xml
                      (record s { last_change = some (record c { builder = builder }); dom = dom })
              ])
      by_document none builder dom = returns tt _ (rebuilt-Quiet s c builder dom e)
      by_document (some xml) builder dom =
          let q = rebuilt-Quiet s c builder dom e in
          let wired : IsWired lc s.container.callbacks (some c) =
            subst (IsWired lc s.container.callbacks) e r.wired in
          Returns-weaken
            (send-Returns (record c { builder = builder }) xml _ (Quiet-IsReady r q) wired.0)
            (λ _ t p. Quiet-trans lc q p)

  pub notify-Returns :
      (s : Service) (c : Collector)
      → IsReady metas lc s
      → s.last_change ≡ some c
      → Returns (λ _ t. Quiet lc s t) (notify deeper s)
  unfolding notify
  notify-Returns s c r e =
      subst
        (λ o.
          Returns (λ _ t. Quiet lc s t)
            (elim o [
              | none ↦ none
              | some c ↦ if c.open_transactions == 0 then flush deeper c s else some (tt, s)
            ]))
        (sym e) (by_test (c.open_transactions == 0))
    where
      by_test :
          (closed : Bool)
          → Returns (λ _ t. Quiet lc s t) (if closed then flush deeper c s else some (tt, s))
      by_test true = flush-Returns c s r e
      by_test false = returns tt s (Quiet-refl lc s)

  callback-Returns :
      (i : ℕ) (name v : Bytes) (s : Service) (c : Collector)
      → IsReady metas lc s
      → s.last_change ≡ some c
      → Returns (λ _ t. Quiet lc s t) (callback deeper i name v s)
  unfolding callback
  callback-Returns i name v s c r e =
      subst
        (λ o.
          Returns (λ _ t. Quiet lc s t)
            (elim o [
              | none ↦ none
              | some c ↦
                  if test_bit c.not_eventable_variables i
                  then some (tt, s)
                  else let (builder, dom) = LastChangeBuilder.add c.builder name v s.dom in
                    notify deeper
                      (record s { last_change = some (record c { builder = builder }); dom = dom })
            ]))
        (sym e) (by_test (test_bit c.not_eventable_variables i))
    where
      by_test :
          (ignored : Bool)
          → Returns
              (λ _ t. Quiet lc s t)
              (if ignored
                then some (tt, s)
                else let (builder, dom) = LastChangeBuilder.add c.builder name v s.dom in
                  notify deeper
                    (record s { last_change = some (record c { builder = builder }); dom = dom }))
      by_test true = returns tt s (Quiet-refl lc s)
      by_test false =
          let (builder, dom) = LastChangeBuilder.add c.builder name v s.dom in
          let q = rebuilt-Quiet s c builder dom e in
          Returns-weaken
            (notify-Returns
              (record s { last_change = some (record c { builder = builder }); dom = dom })
              (record c { builder = builder }) (Quiet-IsReady r q) refl)
            (λ _ t p. Quiet-trans lc q p)

  -- The collector stays the collector.
  identity-some :
      (c : Collector) (o : Option Collector)
      → identity o ≡ identity (some c)
      → (d : Collector) × (o ≡ some d)
  identity-some c none h = cc
  identity-some c (some d) h = (d, refl)

  call_listeners-Returns-some :
      (ls : List Listener) (i : ℕ) (name v : Bytes) (s : Service) (c : Collector)
      → IsReady metas lc s
      → s.last_change ≡ some c
      → Returns (λ _ t. Quiet lc s t) (call_listeners deeper ls i name v s)
  unfolding call_listeners
  call_listeners-Returns-some [] i name v s c r e = returns tt s (Quiet-refl lc s)
  call_listeners-Returns-some (logger _ ∷ ls) i name v s c r e =
      call_listeners-Returns-some ls i name v s c r e
  call_listeners-Returns-some (collector ∷ ls) i name v s c r e =
      Returns-bind (callback deeper i name v) (λ _. call_listeners deeper ls i name v) s
        (callback-Returns i name v s c r e)
        λ _ t q.
          let (d, e') = identity-some c t.last_change (q.same_identity ∙ ap identity e) in
          Returns-weaken (call_listeners-Returns-some ls i name v t d (Quiet-IsReady r q) e')
            (λ _ u p. Quiet-trans lc q p)

  -- The loop over the listeners of a container ends, and is quiet.
  pub call_listeners-Returns :
      (i : ℕ) (name v : Bytes) (s : Service)
      → IsReady metas lc s
      → Returns (λ _ t. Quiet lc s t) (call_listeners deeper s.container.callbacks i name v s)
  call_listeners-Returns i name v s r = elim (Option-cases s.last_change) [
    | inl e ↦
        subst (Returns (λ _ t. Quiet lc s t))
          (sym (
            call_listeners_silent deeper s.container.callbacks i name v s
              (subst (IsWired lc s.container.callbacks) e r.wired)))
          (returns tt s (Quiet-refl lc s))
    | inr (c, e) ↦ call_listeners-Returns-some s.container.callbacks i name v s c r e
  ]
