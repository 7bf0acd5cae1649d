-- ===== src/LastChangeCollector/Events.antt =====
-- When LastChange events are sent, and what they hold: nothing while a transaction is open, one
-- event at most when the outermost one is finished.
use gmrender_resurrect.Prelude.{
  ℕ, ◌-◌, ◌<◌, ◌≡◌, ◌≢◌, ◌⊎◌, arith, true, false, Option, none, some, List, [], ◌∷◌, ◌++◌, inl, inr,
  if◌then◌else◌, get_elem?, set,
}
use gmrender_resurrect.Prelude.Text.{Bytes, str_eq_ne}
use gmrender_resurrect.Prelude.Bits.{test_bit}
use gmrender_resurrect.XmlEscape.{escaped}
use gmrender_resurrect.XmlDoc.{Ixml}
use gmrender_resurrect.VariableContainer.{Listener, collector, logger, var_name}
use gmrender_resurrect.LastChangeBuilder
use gmrender_resurrect.LastChangeBuilder.{Builder}
use gmrender_resurrect.LastChangeCollector.{
  Collector, Service, Change, text_of, flush, notify, callback, call_listeners, change_fuel, change,
  finish,
}
use gmrender_resurrect.LastChangeCollector.Ready.{IsSilent}
use gmrender_resurrect.LastChangeCollector.Listeners.{
  stored, change_with_at, change_lem, call_listeners_silent,
}

-- Among the listeners the collector stands once.
abbrev pub IsSole : List Listener → Type 0
IsSole [] = ⊥
IsSole (logger _ ∷ ls) = IsSole ls
IsSole (collector ∷ ls) = IsSilent ls

module _ ⦃x : Ixml⦄ where
  -- What the collector does with a change while a transaction is open: it adds the variable to
  -- its document, unless the variable is ignored.
  abbrev pub gathered : Collector → ℕ → Bytes → Bytes → x.Dom → Builder × x.Dom
  gathered c i name v dom =
      if test_bit c.not_eventable_variables i
      then (c.builder, dom)
      else LastChangeBuilder.add c.builder name v dom

  abbrev pub with_builder : Collector → Builder × x.Dom → Service → Service
  with_builder c (builder, dom) s = record s {
    last_change = some (record c { builder = builder });
    dom = dom;
  }

  callback_open :
      (deeper : Change) (i : ℕ) (name v : Bytes) (s : Service) (c : Collector)
      → s.last_change ≡ some c
      → c.open_transactions ≢ 0
      → callback deeper i name v s ≡ some (tt, with_builder c (gathered c i name v s.dom) s)
  unfolding callback notify
  callback_open deeper i name v s c e h = ground arith

  call_listeners_sole :
      (deeper : Change) (ls : List Listener) (i : ℕ) (name v : Bytes) (s : Service) (c : Collector)
      → IsSole ls
      → s.last_change ≡ some c
      → c.open_transactions ≢ 0
      → call_listeners deeper ls i name v s
        ≡ some (tt, with_builder c (gathered c i name v s.dom) s)
  unfolding call_listeners
  call_listeners_sole deeper [] i name v s c l e h = absurd l
  call_listeners_sole deeper (logger _ ∷ ls) i name v s c l e h =
      call_listeners_sole deeper ls i name v s c l e h
  call_listeners_sole deeper (collector ∷ ls) i name v s c l e h = ground (
    arith,
    callback_open deeper i name v s c e h,
    call_listeners_silent deeper ls i name v (with_builder c (gathered c i name v s.dom) s) l,
  )

  -- While a transaction is open and the collector listens once, a change of a variable to a new value stores it and adds it to
  -- the document of the collector, unless the variable is ignored; nothing is sent.
  pub change_gathers :
      (i : ℕ) (value : Option Bytes) (s : Service) (c : Collector) (old name : Bytes)
      → s.last_change ≡ some c
      → c.open_transactions ≢ 0
      → IsSole s.container.callbacks
      → i < s.container.variable_num
      → get_elem? s.container.values i ≡ some old
      → var_name s.container i ≡ some name
      → text_of value ≢ old
      → change i value s
        ≡ some (
          true,
          with_builder c (gathered c i name (text_of value) s.dom) (stored i (text_of value) s),
        )
  change_gathers i value s c old name e h sole lt eo en ne = ground (
    arith,
    change_lem i value s,
    change_with_at (change_fuel 1) i value s old name lt eo en,
    str_eq_ne (text_of value) old ne,
    call_listeners_sole (change_fuel 1) s.container.callbacks i name (text_of value)
        (stored i (text_of value) s) c sole e h,
  )

  -- The state in which `finish` calls `notify`.
  abbrev pub closing : Collector → Service → Service
  closing c s = record s {
    last_change = some (record c { open_transactions = c.open_transactions - 1 });
  }

  finish_lem :
      (s : Service) (c : Collector)
      → s.last_change ≡ some c
      → 0 < c.open_transactions
      → finish s ≡ notify change (closing c s)
  unfolding finish
  finish_lem s c e h = ground arith

  -- Finishing an inner transaction, or one in which nothing was gathered, sends nothing: the
  -- transaction count goes down by one and all else stays.
  pub finish_silent :
      (s : Service) (c : Collector)
      → s.last_change ≡ some c
      → 0 < c.open_transactions
      → (1 < c.open_transactions) ⊎ (c.builder.document ≡ none)
      → finish s ≡ some (tt, closing c s)
  unfolding notify flush LastChangeBuilder.to_xml
  finish_silent s c e h (inl nested) = ground (arith, finish_lem s c e h)
  finish_silent s c e h (inr idle) = ground (arith, finish_lem s c e h)

  -- The state in which the document's text is sent: the collector has given the document up.
  abbrev pub emptied : Collector → Service → Service
  emptied c s = record s {
    last_change =
        some (record c { open_transactions = 0; builder = record c.builder { document = none } });
    dom = LastChangeBuilder.delete c.builder s.dom;
  }

  -- The state after the outermost `finish` with a document to send.
  abbrev pub closed : Collector → ℕ → Bytes → Service → Service
  closed c lc xml s =
      let c' = record c { open_transactions = 0; builder = record c.builder { document = none } } in
      record s {
        container = record s.container { values = set s.container.values lc xml };
        last_change = some c';
        dom = LastChangeBuilder.delete c.builder s.dom;
        notified =
            s.notified ++ (record { service_id = c.service_id; value = escaped xml false } ∷ []);
      }
