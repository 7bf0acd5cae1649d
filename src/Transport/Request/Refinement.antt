-- ===== src/Transport/Request/Refinement.antt =====
-- What an action request does, whatever its action is.
use mathlib.Core.Path.{subst}
use gmrender_resurrect.Transport.Table.{transport_table}
use gmrender_resurrect.Prelude.{
  ℕ, ◌≡◌, refl, sym, ap, ◌∙◌, arith, Option, none, some, List, zero, suc, if◌then◌else◌,
}
use gmrender_resurrect.Prelude.Text.{Bytes, codes, str_eq}
use gmrender_resurrect.Prelude.Int.{ℤ, pos, negsuc}
use gmrender_resurrect.Prelude.Run.{gets, returns, bind_assoc, Run, ◌>>=◌, ◌>>◌, pure}
use gmrender_resurrect.XmlDoc.{Ixml}
use gmrender_resurrect.ActionEvent.{Upnp, ActionEvent, modify_event, success, code}
use gmrender_resurrect.Output.{OutputModule}
use gmrender_resurrect.Transport.Variables.{TransportVariable}
use gmrender_resurrect.Abstract.{Abs, Refines, Refines-eq, Refines-bind, Refines-pure, opened}
use gmrender_resurrect.Abstract.Locks.{Refines-lock, Refines-unlock, unlocked}
use gmrender_resurrect.Transport.Contract.{
  needs_instance, stop_in, stop_contract, start_in, play_in, play_contract, pause_in,
  pause_contract, set_uri_in, set_uri_contract, set_next_uri_contract, seek_in, seek_contract,
  answer_contract,
}
use gmrender_resurrect.Abstract.Transactions.{IsBlind, locked_lem, in_depth}
use gmrender_resurrect.Transport.Handlers.Refinement.{
  stop-Refines, play-Refines, pause_stream-Refines,
}
use gmrender_resurrect.Transport.Handlers.Requests.{set_avtransport_uri-Refines}
use gmrender_resurrect.Transport.Handlers.Callbacks.{set_next_avtransport_uri-Refines, seek-Refines}
use gmrender_resurrect.Transport.Actions.{
  TransportCmd, getcurrenttransportactions, getdevicecapabilities, getmediainfo, getpositioninfo,
  gettransportinfo, gettransportsettings, pause, play, seek, setavtransporturi, stop,
  setnextavtransporturi, handler, find_action,
}
use gmrender_resurrect.Transport.Actions.Answers.{
  answers, position_info_answered, transport_info_answered, current_transportactions_answered,
  media_info_answered, transport_settings_answered, device_caps_answered,
}
use gmrender_resurrect.Transport.Request.{
  unknown_action, fresh, completed, run_action, handle_action_request,
}

-- The command that a name of an action stands for.
unfoldable pub command_named : Bytes → Option TransportCmd
command_named name =
    if str_eq (codes "GetCurrentTransportActions") name
    then some getcurrenttransportactions
    else if str_eq (codes "GetDeviceCapabilities") name
    then some getdevicecapabilities
    else if str_eq (codes "GetMediaInfo") name
    then some getmediainfo
    else if str_eq (codes "GetPositionInfo") name
    then some getpositioninfo
    else if str_eq (codes "GetTransportInfo") name
    then some gettransportinfo
    else if str_eq (codes "GetTransportSettings") name
    then some gettransportsettings
    else if str_eq (codes "Pause") name
    then some pause
    else if str_eq (codes "Play") name
    then some play
    else if str_eq (codes "Seek") name
    then some seek
    else if str_eq (codes "SetAVTransportURI") name
    then some setavtransporturi
    else if str_eq (codes "Stop") name
    then some stop
    else if str_eq (codes "SetNextAVTransportURI") name
    then some setnextavtransporturi
    else none

command_named-eq : (name : Bytes) → find_action name ≡ command_named name
unfolding find_action command_named
command_named-eq name = refl

module _ ⦃x : Ixml⦄ ⦃u : Upnp⦄ ⦃o : OutputModule⦄ where
  -- What the handler of a command promises.
  unfoldable pub promised : TransportCmd → Run Abs ℤ
  unfolding stop_contract play_contract pause_contract seek_contract set_uri_contract
      set_next_uri_contract answer_contract answers
  promised stop = stop_contract
  promised play = play_contract
  promised pause = pause_contract
  promised seek = seek_contract
  promised setavtransporturi = set_uri_contract
  promised setnextavtransporturi = set_next_uri_contract
  promised cmd = answer_contract (answers cmd)

  handler-Refines : (cmd : TransportCmd) → Refines (handler cmd) (promised cmd)
  unfolding handler promised
  handler-Refines stop = stop-Refines
  handler-Refines play = play-Refines
  handler-Refines pause = pause_stream-Refines
  handler-Refines seek = seek-Refines
  handler-Refines setavtransporturi = set_avtransport_uri-Refines
  handler-Refines setnextavtransporturi = set_next_avtransport_uri-Refines
  handler-Refines getpositioninfo = position_info_answered
  handler-Refines gettransportinfo = transport_info_answered
  handler-Refines getcurrenttransportactions = current_transportactions_answered
  handler-Refines getmediainfo = media_info_answered
  handler-Refines gettransportsettings = transport_settings_answered
  handler-Refines getdevicecapabilities = device_caps_answered

  needs_instance-IsBlind : (f : Run Abs ℤ) → IsBlind f → IsBlind (needs_instance f)
  needs_instance-IsBlind f h v d = ground (arith, h v d)

  stop_contract-IsBlind : IsBlind stop_contract
  unfolding stop_contract stop_in
  stop_contract-IsBlind = needs_instance-IsBlind _ λ v d. ground arith

  play_contract-IsBlind : IsBlind play_contract
  unfolding play_contract play_in start_in
  play_contract-IsBlind = needs_instance-IsBlind _ λ v d. ground arith

  pause_contract-IsBlind : IsBlind pause_contract
  unfolding pause_contract pause_in
  pause_contract-IsBlind = needs_instance-IsBlind _ λ v d. ground arith

  seek_contract-IsBlind : IsBlind seek_contract
  unfolding seek_contract seek_in
  seek_contract-IsBlind = needs_instance-IsBlind _ λ v d. ground arith

  set_uri_contract-IsBlind : IsBlind set_uri_contract
  unfolding set_uri_contract set_uri_in
  set_uri_contract-IsBlind = needs_instance-IsBlind _ λ v d. ground arith

  set_next_uri_contract-IsBlind : IsBlind set_next_uri_contract
  unfolding set_next_uri_contract
  set_next_uri_contract-IsBlind = needs_instance-IsBlind _ λ v d. ground arith

  answer_contract-IsBlind :
      (vars : List (TransportVariable × Bytes)) → IsBlind (answer_contract vars)
  unfolding answer_contract
  answer_contract-IsBlind vars = needs_instance-IsBlind _ λ v d. refl

  promised-IsBlind : (cmd : TransportCmd) → IsBlind (promised cmd)
  unfolding promised
  promised-IsBlind stop = stop_contract-IsBlind
  promised-IsBlind play = play_contract-IsBlind
  promised-IsBlind pause = pause_contract-IsBlind
  promised-IsBlind seek = seek_contract-IsBlind
  promised-IsBlind setavtransporturi = set_uri_contract-IsBlind
  promised-IsBlind setnextavtransporturi = set_next_uri_contract-IsBlind
  promised-IsBlind getpositioninfo = answer_contract-IsBlind (answers getpositioninfo)
  promised-IsBlind gettransportinfo = answer_contract-IsBlind (answers gettransportinfo)
  promised-IsBlind getcurrenttransportactions =
      answer_contract-IsBlind (answers getcurrenttransportactions)
  promised-IsBlind getmediainfo = answer_contract-IsBlind (answers getmediainfo)
  promised-IsBlind gettransportsettings = answer_contract-IsBlind (answers gettransportsettings)
  promised-IsBlind getdevicecapabilities = answer_contract-IsBlind (answers getdevicecapabilities)

  abbrev pub on_event : (ActionEvent → ActionEvent) → Run Abs (Unit {0})
  on_event f v = some (tt, record v { event = f v.event })

  Refines-modify_event : (f : ActionEvent → ActionEvent) → Refines (modify_event f) (on_event f)
  Refines-modify_event f = record { apply = λ s good. returns tt _ (good, refl, refl) }

  -- The event that a handler starts with, and the one of an action that there is not.
  abbrev pub started : ActionEvent → ActionEvent
  started e = record e { status = pos 0 }

  abbrev pub unanswered : ActionEvent → ActionEvent
  unanswered e = record e { action_result = none; err_code = code 401 }

  -- An event has a response in the end, if only an empty one.
  unfoldable pub responded : ActionEvent → ActionEvent
  responded e = elim e.action_result [
    | some _ ↦ e
    | none ↦ record e { action_result = some (u.make_action_response e.action_name e.service_type) }
  ]

  -- Only a handler that returned 0 made a success.
  unfoldable pub finished : ℤ → ActionEvent → ActionEvent
  unfolding responded
  finished (pos zero) e = responded (record e { err_code = success })
  finished (pos (suc n)) e = responded e
  finished (negsuc n) e = responded e

  finished-eq : (rc : ℤ) (e : ActionEvent) → completed rc e ≡ finished rc e
  unfolding completed finished responded
  finished-eq (pos zero) e = ground arith
  finished-eq (pos (suc n)) e = ground arith
  finished-eq (negsuc n) e = ground arith

  Refines-completed : (rc : ℤ) → Refines (modify_event (completed rc)) (on_event (finished rc))
  Refines-completed rc =
      Refines-eq (Refines-modify_event (completed rc))
        (λ v. ap (λ e. some (tt, record v { event = e })) (finished-eq rc v.event))

  -- An action request: the handler runs between the two steps on the event.
  unfoldable pub request_for : Option TransportCmd → Run Abs ℤ
  unfolding promised finished
  request_for none = on_event unanswered >> pure (negsuc 0)
  request_for (some cmd) =
      on_event started >> (promised cmd >>= λ rc. on_event (finished rc) >> pure (pos 0))

  unfoldable pub request_contract : Run Abs ℤ
  unfolding request_for command_named
  request_contract v = request_for (command_named v.event.action_name) v

  -- The part of `request_contract` before the return.
  handled : TransportCmd → Run Abs (Unit {0})
  handled cmd = on_event fresh >> (promised cmd >>= λ rc. on_event (finished rc))

  in_depth-event :
      (f : ℤ → ActionEvent → ActionEvent) (d : Option ℕ) (r : Option (ℤ × Abs))
      → elim (in_depth d r) [ none ↦ none | some (rc, w) ↦ on_event (f rc) w ]
        ≡ in_depth d (elim r [ none ↦ none | some (rc, w) ↦ on_event (f rc) w ])
  in_depth-event f d none = refl
  in_depth-event f d (some (rc, w)) = refl

  handled-IsBlind : (cmd : TransportCmd) → IsBlind (handled cmd)
  unfolding handled
  handled-IsBlind cmd v d =
      ap (λ r. elim r [ none ↦ none | some (rc, w) ↦ on_event (finished rc) w ])
        (promised-IsBlind cmd (record v { event = started v.event }) d)
      ∙ in_depth-event finished d (promised cmd (record v { event = started v.event }))

  locked_request :
      (cmd : TransportCmd) (v : Abs)
      → (on_event started
            >> (promised cmd >>= λ rc. on_event (finished rc) >> (unlocked >> pure (pos 0))))
          (record v { depth = opened v.depth })
        ≡ (on_event started >> (promised cmd >>= λ rc. on_event (finished rc) >> pure (pos 0))) v
  unfolding handled
  locked_request cmd v =
      sym (
        bind_assoc (promised cmd) (λ rc. on_event (finished rc)) (λ _. unlocked >> pure (pos 0))
          (record v { event = started v.event; depth = opened v.depth }))
      ∙ locked_lem (λ _. pos 0) (handled cmd) (handled-IsBlind cmd) v
      ∙ bind_assoc (promised cmd) (λ rc. on_event (finished rc)) (λ _. pure (pos 0))
          (record v { event = started v.event })

  run_action-Refines :
      (cmd : TransportCmd)
      → Refines
          (run_action cmd)
          (on_event started >> (promised cmd >>= λ rc. on_event (finished rc) >> pure (pos 0)))
  unfolding run_action
  run_action-Refines cmd =
      Refines-eq
        (Refines-bind Refines-lock λ _. Refines-bind (Refines-modify_event fresh) λ _.
          Refines-bind (handler-Refines cmd) λ rc.
            Refines-bind (Refines-completed rc)
              λ _. Refines-bind Refines-unlock λ _. Refines-pure (pos 0))
        (locked_request cmd)

  dispatched :
      (found : Option TransportCmd)
      → Refines {A = ℤ}
          (elim found [
            | none ↦ modify_event unknown_action >> pure (negsuc 0)
            | some cmd ↦ run_action cmd
          ])
          (request_for found)
  unfolding request_for
  dispatched none = Refines-bind (Refines-modify_event unknown_action) λ _. Refines-pure (negsuc 0)
  dispatched (some cmd) = run_action-Refines cmd

  Refines-event :
      {A : Type 0} (f : ActionEvent → A) → Refines (gets (λ s. f s.event)) (gets (λ v. f v.event))
  Refines-event f = record { apply = λ s good. returns _ s (good, refl, refl) }

  pub handle_action_request-Refines : Refines handle_action_request request_contract
  unfolding handle_action_request request_contract
  handle_action_request-Refines =
      Refines-eq
        (Refines-bind (Refines-event (λ e. e.action_name)) λ name.
          subst
            (λ found.
              Refines {A = ℤ}
                (elim (find_action name) [
                  | none ↦ modify_event unknown_action >> pure (negsuc 0)
                  | some cmd ↦ run_action cmd
                ])
                (request_for found))
            (command_named-eq name) (dispatched (find_action name)))
        (λ v. refl)
