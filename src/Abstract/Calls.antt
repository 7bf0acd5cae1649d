-- ===== src/Abstract/Calls.antt =====
-- The calls of the handlers on the abstract transport: errors, arguments, and the variables.
use gmrender_resurrect.Prelude.{
  ℕ, ◌<◌, ◌≡◌, ◌≢◌, refl, arith, not, Option, none, some, ◌-◌, take, length, get_elem?_lt,
}
use gmrender_resurrect.Prelude.Text.{Bytes, str_eq}
use gmrender_resurrect.Prelude.Int.{pos, negsuc}
use gmrender_resurrect.Prelude.Run.{returns}
use gmrender_resurrect.XmlDoc.{Ixml}
use gmrender_resurrect.VariableContainer
use gmrender_resurrect.VariableContainer.{
  VarMeta, Listener, create_sorted_meta, insert_meta, var_name,
}
use gmrender_resurrect.LastChangeCollector
use gmrender_resurrect.LastChangeCollector.{Service, Collector, text_of}
use gmrender_resurrect.LastChangeCollector.Changes.{update, view, change-Updated}
use gmrender_resurrect.ActionEvent.{
  Upnp, ActionEvent, Session, action_failed, with_error, with_response, request_string,
  missing_message, upnp_set_error, upnp_append_variable, upnp_get_string,
}
use gmrender_resurrect.Output.{OutputModule}
use gmrender_resurrect.Transport.{Own, on_service}
use gmrender_resurrect.Abstract.{Table, depth_of, IsGood, Refines, on_service-Returns}

module _ ⦃x : Ixml⦄ ⦃u : Upnp⦄ where
  -- The event of a failed request: the status -1, no response, the code of a failed action, and the
  -- message as far as the buffer of libupnp holds it.
  abbrev pub refused : Bytes → ActionEvent → ActionEvent
  refused message event = record event {
    status = negsuc 0;
    action_result = none;
    err_code = action_failed;
    err_str = some (take (u.line_size - 1) message);
  }

  -- What the event is after an argument was asked for.
  unfoldable pub asked : Bytes → ActionEvent → ActionEvent
  asked key event = elim (request_string key event.request) [
    | none ↦ refused (missing_message key event.request) event
    | some _ ↦ event
  ]

module _ ⦃t : Table⦄ ⦃x : Ixml⦄ ⦃u : Upnp⦄ ⦃o : OutputModule⦄ where
  pub Refines-set_error :
      (error_code : ℕ) (message : Bytes)
      → Refines
          (upnp_set_error error_code message)
          (λ v. some (tt, record v { event = refused message v.event }))
  unfolding upnp_set_error with_error
  Refines-set_error error_code message = record {
    apply = λ s good. returns tt _ (good, refl, refl);
  }

  get_string_eq :
      (key : Bytes) (s : Session Own)
      → upnp_get_string key s
        ≡ some (request_string key s.event.request, record s { event = asked key s.event })
  unfolding upnp_get_string asked with_error
  get_string_eq key s = ground arith

  pub Refines-get_string :
      (key : Bytes)
      → Refines
          (upnp_get_string key)
          (λ v. some (request_string key v.event.request, record v { event = asked key v.event }))
  Refines-get_string key = record {
    apply = λ s good. rw (get_string_eq key s) (returns _ _ (good, refl, refl));
  }

  pub get_eq :
      (n : ℕ) (s : Session Own)
      → n < length t.metas
      → n ≢ t.lc
      → IsGood s
      → VariableContainer.get s.service.container (pos n) ≡ some (view t.lc s.service n)
  unfolding VariableContainer.get
  get_eq n s lt ne good =
      let (name, en) = good.named n lt in
      let (value, ev) = get_elem?_lt s.service.container.values n (rw good.values_length lt) in
      let num : s.service.container.variable_num ≡ length t.metas = good.num_eq in ground arith

  append_eq :
      (n : ℕ) (paramname : Bytes) (s : Session Own)
      → n < length t.metas
      → n ≢ t.lc
      → IsGood s
      → upnp_append_variable n paramname s
        ≡ some
            (tt, record s { event = (with_response paramname (view t.lc s.service n) s.event).1 })
  unfolding upnp_append_variable
  append_eq n paramname s lt ne good = ground (arith, get_eq n s lt ne good)

  pub append-Refines :
      (n : ℕ) (paramname : Bytes)
      → n < length t.metas
      → n ≢ t.lc
      → Refines
          (upnp_append_variable n paramname)
          (λ a. some (tt, record a { event = (with_response paramname (a.var n) a.event).1 }))
  append-Refines n paramname lt ne = record {
    apply = λ s good. rw (append_eq n paramname s lt ne good) (returns tt _ (good, refl, refl));
  }

  pub change-Refines :
      (n : ℕ) (value : Option Bytes)
      → n < length t.metas
      → n ≢ t.lc
      → Refines (on_service (LastChangeCollector.change n value)) (λ a.
        some (
          not (str_eq (text_of value) (a.var n)),
          record a { var = update a.var n (text_of value) },
        ))
  change-Refines n value lt ne = record {
    apply = λ s good.
        on_service-Returns (LastChangeCollector.change n value) s
          (change-Updated t.metas t.lc n value s.service good lt ne)
          λ b w h. (
            h.ready,
            h.flag_eq,
            λ i. record {
              var = h.view_eq i;
              state = s.own.transport_state;
              out = s.own.output;
              event = s.event;
              depth = depth_of (h.identity_eq i);
            },
          );
  }
