-- ===== src/Transport/Request.antt =====
-- src/upnp_device.c: `handle_action_request` on a request for the AVTransport service, which
-- `find_service` found. Logging is left out.
pub mod Refinement
use gmrender_resurrect.Prelude.{ℕ, zero, suc, Option, none, some}
use gmrender_resurrect.Prelude.Text.{Bytes}
use gmrender_resurrect.Prelude.Int.{ℤ, pos, negsuc}
use gmrender_resurrect.Prelude.Run.{Run, ◌>>=◌, ◌>>◌, pure, gets}
use gmrender_resurrect.XmlDoc.{Ixml}
use gmrender_resurrect.ActionEvent.{Upnp, ActionEvent, code, success, modify_event}
use gmrender_resurrect.Output.{OutputModule}
use gmrender_resurrect.Transport.{Transport, service_lock, service_unlock}
use gmrender_resurrect.Transport.Actions.{TransportCmd, find_action, handler}

module _ ⦃x : Ixml⦄ ⦃u : Upnp⦄ ⦃o : OutputModule⦄ where
  -- The answer to an unknown action.
  abbrev pub unknown_action : ActionEvent → ActionEvent
  unknown_action e = record e { action_result = none; err_code = code 401 }

  -- `event.status = 0` before the callback.
  abbrev pub fresh : ActionEvent → ActionEvent
  fresh e = record e { status = pos 0 }

  -- After the callback: the code of a success, and a response if the callback left none.
  unfoldable pub completed : ℤ → ActionEvent → ActionEvent
  completed rc e =
      let coded : ActionEvent = (elim rc [
        | pos zero ↦ record e { err_code = success }
        | pos (suc _) ↦ e
        | negsuc _ ↦ e
      ]) in
      elim coded.action_result [
        | none ↦ record coded {
          action_result = some (u.make_action_response coded.action_name coded.service_type);
        }
        | some _ ↦ coded
      ]

  unfoldable pub run_action : TransportCmd → Transport ℤ
  run_action cmd = do
    service_lock
    modify_event fresh
    rc ← handler cmd
    modify_event (completed rc)
    service_unlock
    pure (pos 0)

  unfoldable pub handle_action_request : Transport ℤ
  handle_action_request = do
    name ← gets (λ s. s.event.action_name)
    elim (find_action name) [
      | none ↦ modify_event unknown_action >> pure (negsuc 0)
      | some cmd ↦ run_action cmd
    ]
