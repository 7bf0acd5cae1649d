-- ===== src/ConnectionManager/Answers.antt =====
-- What the handlers of the connection manager answer, against the tables of their arguments.
use gmrender_resurrect.Prelude.{◌≡◌, refl, ap, ◌∙◌, arith, Option, none, some, List, [], ◌∷◌}
use gmrender_resurrect.Prelude.Text.{Bytes, codes}
use gmrender_resurrect.Prelude.Int.{ℤ, pos, negsuc}
use gmrender_resurrect.Prelude.Run.{Run, ◌>>◌, pure, gets}
use gmrender_resurrect.XmlDoc.{Ixml}
use gmrender_resurrect.VariableContainer
use gmrender_resurrect.ActionEvent.{
  Upnp, ActionEvent, Session, with_response, with_error, request_string, missing_message,
  upnp_append_variable, upnp_add_response, upnp_get_string, upnp_set_error,
}
use gmrender_resurrect.Arguments.{declared}
use gmrender_resurrect.Abstract.Calls.{refused}
use gmrender_resurrect.ConnectionManager.Variables.{
  ConnectionVariable, variable_num, cur_conn_ids, aat_avt_id, aat_rcs_id,
}
use gmrender_resurrect.ConnectionManager.{
  ConnectionCmd, getcurrentconnectionids, setcurrentconnectioninfo, getprotocolinfo,
  prepareforconnection, argument_list, append, get_protocol_info, get_current_conn_ids,
  prepare_for_connection, tell_conn_info, with_id, get_current_conn_info, handler,
}

module _ ⦃x : Ixml⦄ ⦃u : Upnp⦄ where
  -- An answer that lists variables.
  abbrev pub answered :
      List (ConnectionVariable × Bytes) → (ConnectionVariable → Bytes) → ActionEvent → ActionEvent
  answered [] value e = e
  answered ((v, name) ∷ rest) value e = answered rest value (with_response name (value v) e).1

  -- GetCurrentConnectionInfo, with what the search for the ConnectionID gave.
  abbrev info_outcome : Option Bytes → (ConnectionVariable → Bytes) → ActionEvent → ℤ × ActionEvent
  info_outcome none value e =
      (negsuc 0, refused (missing_message (codes "ConnectionID") e.request) e)
  info_outcome (some _) value e =
      (pos 0, answered (declared (argument_list setcurrentconnectioninfo)) value e)

  -- PrepareForConnection answers with CurrentConnectionIDs.
  abbrev prepared : List (ConnectionVariable × Bytes)
  prepared =
      (cur_conn_ids, codes "ConnectionID")
      ∷ (aat_avt_id, codes "AVTransportID")
      ∷ (aat_rcs_id, codes "RcsID")
      ∷ []

  -- The return code of a command, and the event after it, by the table of its arguments.
  unfoldable pub outcome :
      ConnectionCmd → (ConnectionVariable → Bytes) → ActionEvent → ℤ × ActionEvent
  unfolding declared argument_list
  outcome getcurrentconnectionids value e =
      (negsuc 0, (with_response (codes "ConnectionIDs") (codes "0") e).1)
  outcome setcurrentconnectioninfo value e =
      info_outcome (request_string (codes "ConnectionID") e.request) value e
  outcome getprotocolinfo value e =
      let after = answered (declared (argument_list getprotocolinfo)) value e in
      (after.status, after)
  outcome prepareforconnection value e = (pos 0, answered prepared value e)

module _ ⦃x : Ixml⦄ ⦃u : Upnp⦄ {S : Type 0} where
  -- A list of appends, and what follows it.
  appends : List (ConnectionVariable × Bytes) → Run (Session S) ℤ → Run (Session S) ℤ
  appends [] k = k
  appends ((v, name) ∷ rest) k = append v name >> appends rest k

module _ ⦃x : Ixml⦄ ⦃u : Upnp⦄ {S : Type 0} (s : Session S) (value : ConnectionVariable → Bytes)
    (stored : (v : ConnectionVariable)
      → VariableContainer.get s.service.container (pos (variable_num v)) ≡ some (value v)) where
  append_eq :
      (v : ConnectionVariable) (name : Bytes) (e : ActionEvent)
      → append v name (record s { event = e })
        ≡ some (tt, record s { event = (with_response name (value v) e).1 })
  unfolding append upnp_append_variable upnp_add_response
  append_eq v name e = ground (arith, stored v)

  appends_eq :
      (vars : List (ConnectionVariable × Bytes)) (k : Run (Session S) ℤ) (e : ActionEvent)
      → appends vars k (record s { event = e }) ≡ k (record s { event = answered vars value e })
  unfolding appends
  appends_eq [] k e = refl
  appends_eq ((v, name) ∷ rest) k e =
      ap (elim [ none ↦ none | some (_, w) ↦ appends rest k w ]) (append_eq v name e)
      ∙ appends_eq rest k (with_response name (value v) e).1

  info_eq :
      (e : ActionEvent)
      → tell_conn_info (record s { event = e })
        ≡ some (
          pos 0,
          record s { event = answered (declared (argument_list setcurrentconnectioninfo)) value e },
        )
  unfolding tell_conn_info appends declared argument_list
  info_eq e = appends_eq (declared (argument_list setcurrentconnectioninfo)) (pure (pos 0)) e

  -- `upnp_get_string`, with what its search gave.
  abbrev found : Option Bytes → Option (Option Bytes × Session S)
  found none = some (
    none,
    record s { event = refused (missing_message (codes "ConnectionID") s.event.request) s.event },
  )
  found (some v) = some (some v, s)

  conn_info_eq :
      get_current_conn_info s
      ≡ some (
        (outcome setcurrentconnectioninfo value s.event).0,
        record s { event = (outcome setcurrentconnectioninfo value s.event).1 },
      )
  unfolding get_current_conn_info upnp_get_string upnp_set_error with_error outcome
  conn_info_eq = by_id (request_string (codes "ConnectionID") s.event.request)
    where
      by_id :
          (id : Option Bytes)
          → elim (found id) [ none ↦ none | some (value, w) ↦ with_id value w ]
            ≡ some (
              (info_outcome id value s.event).0,
              record s { event = (info_outcome id value s.event).1 },
            )
      by_id none = refl
      by_id (some v) = info_eq s.event

  -- In a session of the connection manager whose variables have the values `value`, each of the four
  -- commands ends without a fault; it answers with the variables that the table of its outgoing
  -- arguments names, in that order, but for GetCurrentConnectionIDs, which answers 0 and returns -1,
  -- and PrepareForConnection, where the ConnectionID is the value of CurrentConnectionIDs.
  -- GetCurrentConnectionInfo needs a ConnectionID, else it returns -1 and the request fails: its event
  -- has the status -1, no response, the code of a failed action, and the message. Only the event
  -- changes.
  pub handler-outcome :
      (cmd : ConnectionCmd)
      → handler cmd s
        ≡ some ((outcome cmd value s.event).0, record s { event = (outcome cmd value s.event).1 })
  unfolding handler outcome get_protocol_info prepare_for_connection get_current_conn_ids appends
      upnp_add_response
  handler-outcome getcurrentconnectionids = refl
  handler-outcome getprotocolinfo =
      appends_eq (declared (argument_list getprotocolinfo)) (gets (λ s. s.event.status)) s.event
  handler-outcome prepareforconnection = appends_eq prepared (pure (pos 0)) s.event
  handler-outcome setcurrentconnectioninfo = conn_info_eq
