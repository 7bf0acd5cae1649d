-- ===== src/Transport/Promises.antt =====
-- What the handlers, the callback from the output and the clock promise, for every session of a
-- service that is ready: `Match p r` says that the run of the code ended with `r` where the
-- contract ends with `p`, faults included.
use gmrender_resurrect.Transport.Table.{transport_table}
use gmrender_resurrect.Prelude.{arith, Bool, true, false, ◌≡◌, some}
use gmrender_resurrect.Prelude.Int.{ℤ}
use gmrender_resurrect.XmlDoc.{Ixml}
use gmrender_resurrect.ActionEvent.{Upnp, Session}
use gmrender_resurrect.Output.{OutputModule}
use gmrender_resurrect.Transport.{Own}
use gmrender_resurrect.Transport.Feedback.{PlayFeedback}
use gmrender_resurrect.Abstract.{abs, IsGood, Match, Refines}
use gmrender_resurrect.Transport.Contract.{
  stop_contract, play_contract, pause_contract, set_uri_contract, set_next_uri_contract,
  seek_contract, feedback_in, answer_contract,
}
use gmrender_resurrect.Transport.Handlers
use gmrender_resurrect.Transport.Handlers.Refinement.{
  stop-Refines, play-Refines, pause_stream-Refines,
}
use gmrender_resurrect.Transport.Handlers.Requests.{set_avtransport_uri-Refines}
use gmrender_resurrect.Transport.Handlers.Callbacks.{
  set_next_avtransport_uri-Refines, seek-Refines, inform_play_transition-Refines,
}
use gmrender_resurrect.Transport.Actions.{
  TransportCmd, getcurrenttransportactions, getdevicecapabilities, getmediainfo, getpositioninfo,
  gettransportinfo, gettransportsettings, pause, play, seek, setavtransporturi, stop,
  setnextavtransporturi, handler,
}
use gmrender_resurrect.Transport.Actions.Answers.{
  answers, position_info_answered, transport_info_answered, current_transportactions_answered,
  media_info_answered, transport_settings_answered, device_caps_answered,
}
use gmrender_resurrect.Transport.Request.{handle_action_request}
use gmrender_resurrect.Transport.Request.Refinement.{
  request_contract, handle_action_request-Refines,
}
use gmrender_resurrect.Transport.Clock.{
  update_track_time, clock_contract, update_track_time-Refines,
}

-- The commands that only answer.
unfoldable pub is_query : TransportCmd → Bool
is_query getcurrenttransportactions = true
is_query getdevicecapabilities = true
is_query getmediainfo = true
is_query getpositioninfo = true
is_query gettransportinfo = true
is_query gettransportsettings = true
is_query _ = false

module _ ⦃x : Ixml⦄ ⦃u : Upnp⦄ ⦃o : OutputModule⦄ where
  -- On a session of a service that is ready, an action request does what its contract says. The
  -- twelve names of actions each run their own command; any other name gets error code 401, no
  -- response and the result -1. A command resets the status, runs what the action promises, sets
  -- the success code if the handler returned 0, adds an empty response if there is none, and gives
  -- 0; it faults only where the action's promise faults. The service is ready again, and as many
  -- transactions are open as before.
  pub handle_action_request-Match :
      (s : Session Own) → IsGood s → Match (request_contract (abs s)) (handle_action_request s)
  handle_action_request-Match s good = handle_action_request-Refines.apply s good

  -- On a session of a service that is ready, `stop` leaves STOPPED as it is and ends in STOPPED
  -- from the other states whatever the output answers, TransportState showing it and
  -- CurrentTransportActions following if TransportState changed; in NO_MEDIA_PRESENT it changes no
  -- state and the request fails (status -1, no response, the code of a failed action, and a
  -- message with the actions allowed), but the result is 0 as in the other cases. Without an
  -- InstanceID the request fails, too, and the result is -1.
  pub stop-Match : (s : Session Own) → IsGood s → Match (stop_contract (abs s)) (Handlers.stop s)
  stop-Match s good = stop-Refines.apply s good

  -- On a session of a service that is ready, `play` does nothing while PLAYING; from STOPPED it
  -- sets the position to zero first; from STOPPED and PAUSED_PLAYBACK it starts the output, and if
  -- that works ends in PLAYING with the current track taken from AVTransportURI. If the output
  -- fails, in any other state, and without an InstanceID, the result is -1 and the request fails:
  -- status -1, no response, the code of a failed action, and a message; the transport state stays.
  pub play-Match : (s : Session Own) → IsGood s → Match (play_contract (abs s)) (Handlers.play s)
  play-Match s good = play-Refines.apply s good

  -- On a session of a service that is ready, `pause_stream` pauses the output while PLAYING, and
  -- if that works ends in PAUSED_PLAYBACK; it does nothing in PAUSED_PLAYBACK. If the output
  -- fails, in any other state, and without an InstanceID, the result is -1 and the request fails:
  -- status -1, no response, the code of a failed action, and a message; the transport state stays.
  pub pause_stream-Match :
      (s : Session Own) → IsGood s → Match (pause_contract (abs s)) (Handlers.pause_stream s)
  pause_stream-Match s good = pause_stream-Refines.apply s good

  -- On a session of a service that is ready, and for a request with an InstanceID,
  -- `set_avtransport_uri` stores the URI, its meta data and the number of tracks (0 for an empty
  -- URI, else 1), the same for the current track while PLAYING only, and hands the URI to the
  -- output, which is to report meta data if the given one is empty or holds object.item.audioItem.
  -- Without CurrentURIMetaData it faults. Without CurrentURI or an InstanceID it changes no
  -- variable, the result is -1 and the request fails: status -1, no response, the code of a failed
  -- action, and a message.
  pub set_avtransport_uri-Match :
      (s : Session Own)
      → IsGood s
      → Match (set_uri_contract (abs s)) (Handlers.set_avtransport_uri s)
  set_avtransport_uri-Match s good = set_avtransport_uri-Refines.apply s good

  -- On a session of a service that is ready, and for a request with an InstanceID,
  -- `set_next_avtransport_uri` hands the next URI to the output and stores it, and then its meta
  -- data; if those are missing the result is -1 with the URI already stored and handed on. In that
  -- case, without a NextURI and without an InstanceID the request fails: status -1, no response,
  -- the code of a failed action, and a message.
  pub set_next_avtransport_uri-Match :
      (s : Session Own)
      → IsGood s
      → Match (set_next_uri_contract (abs s)) (Handlers.set_next_avtransport_uri s)
  set_next_avtransport_uri-Match s good = set_next_avtransport_uri-Refines.apply s good

  -- On a session of a service that is ready, and for a request with an InstanceID, `seek` by
  -- REL_TIME moves the output to the nanoseconds of the hours, minutes and seconds that are read
  -- from the target and, if that works, shows the target as the position; any other unit does
  -- nothing. It faults without a Unit, and where the unit is REL_TIME without a Target, or with
  -- one whose hours, or one of whose sums of seconds, does not fit an int. Without an InstanceID
  -- the result is -1 and the request fails: status -1, no response, the code of a failed action,
  -- and a message.
  pub seek-Match : (s : Session Own) → IsGood s → Match (seek_contract (abs s)) (Handlers.seek s)
  seek-Match s good = seek-Refines.apply s good

  -- On a session of a service that is ready, the report that the output stopped clears both URIs
  -- and ends in STOPPED, and the report that it went on to the next stream makes the next URI the
  -- transport's and the current one and clears it.
  pub inform_play_transition-Match :
      (fb : PlayFeedback) (s : Session Own)
      → IsGood s
      → Match (some (tt, feedback_in fb (abs s))) (Handlers.inform_play_transition_from_output fb s)
  inform_play_transition-Match fb s good = (inform_play_transition-Refines fb).apply s good

  -- On a session of a service that is ready, one turn of the clock stores the duration and the
  -- position that the output tells, each only if it differs from the last one told, the position
  -- by whole seconds, as the text of hours, minutes and seconds with two digits for the last two.
  -- If the output fails, nothing is stored.
  pub update_track_time-Match :
      (last_duration last_position : ℤ) (s : Session Own)
      → IsGood s
      → Match
          (clock_contract last_duration last_position (abs s))
          (update_track_time last_duration last_position s)
  update_track_time-Match last_duration last_position s good =
      (update_track_time-Refines last_duration last_position).apply s good

  query-Refines :
      (cmd : TransportCmd)
      → is_query cmd ≡ true
      → Refines (handler cmd) (answer_contract (answers cmd))
  unfolding handler is_query
  query-Refines getpositioninfo h = position_info_answered
  query-Refines gettransportinfo h = transport_info_answered
  query-Refines getcurrenttransportactions h = current_transportactions_answered
  query-Refines getmediainfo h = media_info_answered
  query-Refines gettransportsettings h = transport_settings_answered
  query-Refines getdevicecapabilities h = device_caps_answered
  query-Refines pause h = absurd (ground (arith, h))
  query-Refines play h = absurd (ground (arith, h))
  query-Refines seek h = absurd (ground (arith, h))
  query-Refines setavtransporturi h = absurd (ground (arith, h))
  query-Refines stop h = absurd (ground (arith, h))
  query-Refines setnextavtransporturi h = absurd (ground (arith, h))

  -- On a session of a service that is ready, and for a request with an InstanceID,
  -- GetPositionInfo, GetTransportInfo and GetCurrentTransportActions answer with the values of
  -- exactly the variables that the tables of their outgoing arguments name, in that order (each
  -- through `upnp_add_response`), and GetMediaInfo does so with PlayMedium taken from
  -- PossibleRecordStorageMedia; GetTransportSettings and GetDeviceCapabilities answer nothing. No
  -- variable changes. Without an InstanceID the result is -1 and the request fails: status -1, no
  -- response, the code of a failed action, and a message.
  pub query-Match :
      (cmd : TransportCmd) (s : Session Own)
      → is_query cmd ≡ true
      → IsGood s
      → Match (answer_contract (answers cmd) (abs s)) (handler cmd s)
  query-Match cmd s h good = (query-Refines cmd h).apply s good
