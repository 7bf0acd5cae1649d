-- ===== src/ActionEvent.antt =====
-- src/upnp_device.c, first part: a SOAP action request as the handlers see it. libupnp is a
-- parameter. A handler runs on a `Session`: the request that it answers, the service that it
-- belongs to, and the state of its own file. Code between the lock and the unlock of a service's
-- mutex runs as one piece, so the mutex itself is not modelled.
use gmrender_resurrect.Prelude.{
  ℕ, zero, suc, ◌-◌, Bool, true, false, Option, none, some, List, [], ◌∷◌, ◌++◌, if◌then◌else◌,
  take,
}
use gmrender_resurrect.Prelude.Text.{Bytes, codes, str_eq}
use gmrender_resurrect.Prelude.Int.{ℤ, pos, negsuc}
use gmrender_resurrect.Prelude.Run.{Run, ◌>>=◌, ◌>>◌, pure, gets, deref}
use gmrender_resurrect.XmlDoc.{Ixml}
use gmrender_resurrect.VariableContainer
use gmrender_resurrect.LastChangeCollector.{Service}

-- The result codes of libupnp that the program uses; `code` is any other number.
pub data ErrCode : Type 0 where
  success invalid_args invalid_var action_failed : ErrCode
  code : ℕ → ErrCode

-- How `UpnpAddToActionResponse` ends: the new document, or the message of its error.
pub data Addition (A : Type 0) : Type 0 where
  added : A → Addition A
  failed : Bytes → Addition A

-- What the handlers use of libupnp. `line_size` is its LINE_SIZE.
pub record Upnp : Type 1 where
  pub Response : Type 0
  pub add_to_action_response : Option Response → Bytes → Bytes → Bytes → Bytes → Addition Response
  pub make_action_response : Bytes → Bytes → Response
  pub line_size : ℕ

-- The action request document: none at all, one with no root, or the children of the root with
-- the value of the first child of each.
pub data RequestDocument : Type 0 where
  absent rootless : RequestDocument
  arguments : List (Bytes × Option Bytes) → RequestDocument

module _ ⦃x : Ixml⦄ ⦃u : Upnp⦄ where
  -- `struct action_event` with the fields of its `UpnpActionRequest`; NULL is `none`.
  pub record ActionEvent : Type 0 where
    pub request : RequestDocument
    pub action_name : Bytes
    pub service_type : Bytes
    pub action_result : Option u.Response
    pub err_code : ErrCode
    pub err_str : Option Bytes
    pub status : ℤ

  pub record Session (S : Type 0) : Type 0 where
    pub event : ActionEvent
    pub service : Service
    pub own : S

  -- `upnp_set_error` on a message that is already formatted. The error code is only logged.
  unfoldable pub with_error : ℕ → Bytes → ActionEvent → ActionEvent
  with_error error_code message event = record event {
    status = negsuc 0;
    action_result = none;
    err_code = action_failed;
    err_str = some (take (u.line_size - 1) message);
  }

  -- `upnp_add_response`: the return code and the event after it.
  unfoldable pub with_response : Bytes → Bytes → ActionEvent → ℤ × ActionEvent
  with_response key value event = elim event.status [
    | pos zero ↦
        elim (u.add_to_action_response event.action_result event.action_name event.service_type key
          value) [
            | added result ↦ (pos 0, record event { action_result = some result })
            | failed message ↦ (
              negsuc 0,
              record event {
                action_result = none;
                err_code = action_failed;
                err_str = some message;
              },
            )
          ]
    | pos (suc _) ↦ (negsuc 0, event)
    | negsuc _ ↦ (negsuc 0, event)
  ]

  -- The search of `upnp_get_string` among the children of the root.
  pub find_argument : Bytes → List (Bytes × Option Bytes) → Option Bytes
  find_argument key [] = none
  find_argument key ((name, value) ∷ rest) =
      let later = find_argument key rest in
      if str_eq name key then some (elim value [ none ↦ [] | some v ↦ v ]) else later

  -- What `upnp_get_string` returns, and its message where that is NULL.
  unfoldable pub request_string : Bytes → RequestDocument → Option Bytes
  unfolding find_argument
  request_string key absent = none
  request_string key rootless = none
  request_string key (arguments args) = find_argument key args

  pub missing_message : Bytes → RequestDocument → Bytes
  missing_message key (arguments args) =
      codes "Missing action request argument (" ++ key ++ codes ")"
  missing_message key _ = codes "Invalid action request document"

module _ ⦃x : Ixml⦄ ⦃u : Upnp⦄ {S : Type 0} where
  abbrev pub modify_event : (ActionEvent → ActionEvent) → Run (Session S) (Unit {0})
  modify_event f s = some (tt, record s { event = f s.event })

  unfoldable pub upnp_set_error : ℕ → Bytes → Run (Session S) (Unit {0})
  unfolding with_error
  upnp_set_error error_code message = modify_event (with_error error_code message)

  unfoldable pub upnp_add_response : Bytes → Bytes → Run (Session S) ℤ
  unfolding with_response
  upnp_add_response key value s =
      let (rc, event) = with_response key value s.event in some (rc, record s { event = event })

  -- `upnp_append_variable`; an invalid variable fails its `assert`.
  unfoldable pub upnp_append_variable : ℕ → Bytes → Run (Session S) (Unit {0})
  unfolding upnp_add_response
  upnp_append_variable varnum paramname = do
    value ← gets (λ s. VariableContainer.get s.service.container (pos varnum))
    v ← deref value
    upnp_add_response paramname v
    pure tt

  -- `upnp_get_string` with UPNP_SOAP_E_INVALID_ARGS, which is 402.
  unfoldable pub upnp_get_string : Bytes → Run (Session S) (Option Bytes)
  unfolding request_string upnp_set_error missing_message
  upnp_get_string key s = elim (request_string key s.event.request) [
    | some value ↦ some (some value, s)
    | none ↦ (upnp_set_error 402 (missing_message key s.event.request) >> pure none) s
  ]

  -- `has_instance_id` of src/upnp_transport.c
  unfoldable pub has_instance_id : Run (Session S) Bool
  unfolding upnp_get_string upnp_set_error
  has_instance_id = do
    value ← upnp_get_string (codes "InstanceID")
    elim value [
      | none ↦ upnp_set_error 402 (codes "Missing InstanceID") >> pure false
      | some _ ↦ pure true
    ]
