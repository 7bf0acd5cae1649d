-- ===== src/LastChangeCollector.antt =====
-- src/variable-container.c, third part: `VariableContainer_change` with the listeners that it
-- calls, and the collector that gathers changes into LastChange events. A change calls the
-- collector, which may send an event and for that changes the LastChange variable, which calls the
-- listeners again: the recursion is on fuel, and two levels are all that a service uses.
pub mod Ready
pub mod Fresh
pub mod Listeners
pub mod Changes
pub mod Events
use gmrender_resurrect.Prelude.{
  ℕ, zero, suc, ◌+◌, ◌-◌, Bool, true, false, Option, none, some, List, [], ◌∷◌, ◌++◌, ltb, leb,
  ◌==◌, if◌then◌else◌, get_elem?, set,
}
use gmrender_resurrect.Prelude.Text.{Bytes, codes, str_eq}
use gmrender_resurrect.Prelude.Bits.{test_bit, set_bit}
use gmrender_resurrect.Prelude.Int.{pos}
use gmrender_resurrect.Prelude.Run.{Run, ◌>>=◌, ◌>>◌, pure, gets, modify, assert, deref}
use gmrender_resurrect.XmlEscape.{xmlescape_small}
use gmrender_resurrect.XmlDoc.{Ixml}
use gmrender_resurrect.VariableContainer
use gmrender_resurrect.VariableContainer.{Container, Listener, collector, logger, var_name}
use gmrender_resurrect.LastChangeBuilder
use gmrender_resurrect.LastChangeBuilder.{Builder}

-- One call of `upnp_device_notify`: the service and the text of its LastChange variable.
pub record Notification : Type 0 where
  pub service_id : Bytes
  pub value : Bytes

-- A value to store: NULL stands for the empty string.
abbrev pub text_of : Option Bytes → Bytes
text_of none = []
text_of (some v) = v

module _ ⦃x : Ixml⦄ where
  -- `struct upnp_last_change_collector`, less the pointers to the container and to the device.
  pub record Collector : Type 0 where
    pub last_change_variable_num : ℕ
    pub not_eventable_variables : ℕ
    pub service_id : Bytes
    pub open_transactions : ℕ
    pub builder : Builder

  -- What changes while a service runs: its variables, its collector, the documents of libixml,
  -- and the notifications sent so far, the latest last.
  pub record Service : Type 0 where
    pub container : Container
    pub last_change : Option Collector
    pub dom : x.Dom
    pub notified : List Notification

  -- The type of `VariableContainer_change` for this service.
  abbrev pub Change : Type 0
  Change = ℕ → Option Bytes → Run Service Bool

  -- `upnp_device_notify` as the collector calls it.
  abbrev pub announce : Collector → Bytes → Service → Service
  announce c quoted s = record s {
    notified = s.notified ++ (record { service_id = c.service_id; value = quoted } ∷ []);
  }

  -- The event is sent only if LastChange has a new value.
  pub announce_if : Bool → Collector → Bytes → Run Service (Unit {0})
  announce_if true c xml_doc_string s = elim (xmlescape_small xml_doc_string false) [
    | none ↦ none
    | some quoted ↦ some (tt, announce c quoted s)
  ]
  announce_if false c xml_doc_string s = some (tt, s)

  -- The end of `UPnPLastChangeCollector_notify`: there is a document to send.
  pub send : Change → Collector → Bytes → Run Service (Unit {0})
  send change c xml_doc_string = do
    changed ← change c.last_change_variable_num (some xml_doc_string)
    announce_if changed c xml_doc_string

  -- `UPnPLastChangeCollector_notify` with no transaction open.
  pub flush : Change → Collector → Run Service (Unit {0})
  flush change c s =
      let (xml_doc_string, builder, dom) = LastChangeBuilder.to_xml c.builder s.dom in
      let c' = record c { builder = builder } in
      let s' = record s { last_change = some c'; dom = dom } in
      elim xml_doc_string [ none ↦ some (tt, s') | some xml ↦ send change c' xml s' ]

  -- `UPnPLastChangeCollector_notify`
  pub notify : Change → Run Service (Unit {0})
  notify change s = elim s.last_change [
    | none ↦ none
    | some c ↦ if c.open_transactions == 0 then flush change c s else some (tt, s)
  ]

  -- `UPnPLastChangeCollector_callback`
  pub callback : Change → ℕ → Bytes → Bytes → Run Service (Unit {0})
  callback change var_num var_name new_value s = elim s.last_change [
    | none ↦ none
    | some c ↦
        if test_bit c.not_eventable_variables var_num
        then some (tt, s)
        else let (builder, dom) = LastChangeBuilder.add c.builder var_name new_value s.dom in
          notify change
            (record s { last_change = some (record c { builder = builder }); dom = dom })
  ]

  -- The loop over the callbacks. `log_variable_change` writes to the log and nothing else.
  pub call_listeners : Change → List Listener → ℕ → Bytes → Bytes → Run Service (Unit {0})
  call_listeners change [] var_num var_name new_value = pure tt
  call_listeners change (logger _ ∷ ls) var_num var_name new_value =
      call_listeners change ls var_num var_name new_value
  call_listeners change (collector ∷ ls) var_num var_name new_value =
      callback change var_num var_name new_value
      >> call_listeners change ls var_num var_name new_value

  -- The body of `VariableContainer_change`; `deeper` is the call that a listener may make.
  pub change_with : Change → Change
  change_with deeper var_num value s =
      let c = s.container in
      let new_value = text_of value in
      if ltb var_num c.variable_num
      then elim (get_elem? c.values var_num) [
        | none ↦ none
        | some old_value ↦
            if str_eq new_value old_value then some (false, s) else elim (var_name c var_num) [
              | none ↦ none
              | some name ↦
                  let s' = record s {
                    container = record c { values = set c.values var_num new_value };
                  } in
                  (call_listeners deeper c.callbacks var_num name new_value >> pure true) s'
            ]
      ]
      else none

  -- `VariableContainer_change` with its recursion through the listeners at most `depth` deep.
  pub change_fuel : ℕ → Change
  change_fuel zero var_num value s = none
  change_fuel (suc depth) var_num value s = change_with (change_fuel depth) var_num value s

  -- `VariableContainer_change`: true if the value changed.
  unfoldable pub change : Change
  unfolding change_fuel change_with call_listeners callback notify flush send announce_if
      xmlescape_small
  change = change_fuel 2

  -- `UPnPLastChangeCollector_add_ignore`
  unfoldable pub add_ignore : Collector → ℕ → Collector
  add_ignore c variable_num = record c {
    not_eventable_variables = set_bit c.not_eventable_variables variable_num;
  }

  -- `UPnPLastChangeCollector_start`
  unfoldable pub start : Collector → Collector
  start c = record c { open_transactions = c.open_transactions + 1 }

  -- `UPnPLastChangeCollector_finish`
  unfoldable pub finish : Run Service (Unit {0})
  unfolding notify flush send announce_if xmlescape_small change
  finish s = elim s.last_change [
    | none ↦ none
    | some c ↦
        if leb 1 c.open_transactions
        then notify change (record s {
          last_change = some (record c { open_transactions = c.open_transactions - 1 });
        })
        else none
  ]

  -- The loop of `UPnPLastChangeCollector_new` over the variables from `i` on, `left` of them:
  -- the builder that holds all but LastChange, and the number of LastChange.
  pub collect : Container → ℕ → ℕ → Option ℕ → Builder → x.Dom → Option ℕ × Builder × x.Dom
  collect c zero i last_change builder dom = (last_change, builder, dom)
  collect c (suc left) i last_change builder dom =
      let (last_change', builder', dom') =
        let at_variable : Option ℕ × Builder × x.Dom =
          elim (VariableContainer.get_named c (pos i)) [
            | none ↦ (last_change, builder, dom)
            | some (name, value) ↦
                if str_eq (codes "LastChange") name
                then (some i, builder, dom)
                else (let (builder', dom') = LastChangeBuilder.add builder name value dom in
                    (last_change, builder', dom'))
          ] in
        at_variable in
      collect c left (i + 1) last_change' builder' dom'

  -- `UPnPLastChangeCollector_new`, and the assignment of its result to the service.
  unfoldable pub new : Option Bytes → Bytes → Run Service (Unit {0})
  unfolding collect notify flush send announce_if xmlescape_small change
  new event_xml_namespace service_id s =
      let c = s.container in
      if ltb c.variable_num 32
      then (let (last_change, builder, dom) =
            collect c c.variable_num 0 none (LastChangeBuilder.new event_xml_namespace) s.dom in
          elim last_change [
            | none ↦ none
            | some n ↦
                let obj =
                  add_ignore
                    (record {
                      last_change_variable_num = n;
                      not_eventable_variables = 0;
                      service_id = service_id;
                      open_transactions = 0;
                      builder = builder;
                    })
                    n in
                (notify change
                    >> modify (λ s. record s {
                      container = VariableContainer.register_callback s.container collector;
                    }))
                  (record s { last_change = some obj; dom = dom })
          ])
      else none
