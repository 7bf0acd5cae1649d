-- ===== src/Transport/Handlers.antt =====
-- src/upnp_transport.c: the action handlers and the callbacks from the output. A handler returns
-- its return code.
pub mod Steps
pub mod Refinement
pub mod Requests
pub mod Callbacks
use gmrender_resurrect.Prelude.{
  ℕ, Bool, true, false, not, Option, none, some, [], ◌∷◌, ◌++◌, ◌==◌, if◌then◌else◌,
}
use gmrender_resurrect.Prelude.Text.{Bytes, codes, str_eq}
use gmrender_resurrect.Prelude.Int.{ℤ, pos, negsuc}
use gmrender_resurrect.Prelude.Run.{◌>>=◌, ◌>>◌, pure, gets, deref}
use gmrender_resurrect.XmlDoc.{Ixml}
use gmrender_resurrect.ActionEvent.{
  Upnp, has_instance_id, upnp_get_string, upnp_set_error, upnp_append_variable,
}
use gmrender_resurrect.Output.{
  OutputModule, output_set_uri, output_set_next_uri, output_play, output_pause, output_stop,
  output_seek,
}
use gmrender_resurrect.Transport.{
  TransportState, stopped, playing, transitioning, paused_playback, paused_recording, recording,
  no_media_present, Own, Transport, get_state, on_output, on_output_void, service_lock,
  service_unlock, replace_var, get_var, replace_transport_uri_and_meta,
  replace_current_uri_and_meta, change_transport_state,
}
use gmrender_resurrect.Transport.Variables
use gmrender_resurrect.Transport.Variables.{
  TransportVariable, variable_num, zero_time, next_av_uri, next_av_uri_meta, av_uri, av_uri_meta,
  rel_time_pos, cur_track_meta, cur_transport_actions, nr_tracks, cur_media_dur, rec_media,
  rec_medium, rec_medium_wr_status, transport_status, transport_play_speed, cur_track,
  cur_track_dur, cur_track_uri, abs_time_pos, rel_ctr_pos, abs_ctr_pos,
}
use gmrender_resurrect.Transport.Feedback.{
  PlayFeedback, play_stopped, play_started_next_stream, succeeded,
}
use gmrender_resurrect.Transport.Time.{parse_upnp_time}

abbrev pub ok : ℤ
ok = pos 0

abbrev pub failure : ℤ
failure = negsuc 0

module _ ⦃x : Ixml⦄ ⦃u : Upnp⦄ ⦃o : OutputModule⦄ where
  -- The error of a transition, with the actions that are allowed.
  unfoldable pub transition_error : Bytes → Transport (Unit {0})
  transition_error what = do
    allowed ← get_var cur_transport_actions
    text ← deref allowed
    upnp_set_error 701 (codes "Transition to " ++ what ++ codes " not allowed; allowed=" ++ text)

  -- The common start of the handlers: without an InstanceID they return -1.
  unfoldable pub with_instance : Transport ℤ → Transport ℤ
  with_instance body = do has ← has_instance_id; if has then body else pure failure

  unfoldable pub append : TransportVariable → Bytes → Transport (Unit {0})
  append varnum paramname = upnp_append_variable (variable_num varnum) paramname

  unfoldable pub set_uri_locked : Bytes → Transport (Unit {0})
  set_uri_locked uri = do
    meta ← upnp_get_string (codes "CurrentURIMetaData")
    requires_meta_update ← replace_transport_uri_and_meta (some uri) meta
    state ← get_state
    elim state [ playing ↦ replace_current_uri_and_meta (some uri) meta | _ ↦ pure tt ]
    on_output_void (output_set_uri uri requires_meta_update)

  unfoldable pub set_avtransport_uri : Transport ℤ
  set_avtransport_uri = with_instance (do
    uri ← upnp_get_string (codes "CurrentURI")
    elim uri [
      | none ↦ pure failure
      | some text ↦ do service_lock; set_uri_locked text; service_unlock; pure ok
    ])

  unfoldable pub set_next_locked : Bytes → Transport ℤ
  set_next_locked next_uri = do
    on_output_void (output_set_next_uri next_uri)
    replace_var next_av_uri (some next_uri)
    next_uri_meta ← upnp_get_string (codes "NextURIMetaData")
    elim next_uri_meta [
      | none ↦ pure failure
      | some meta ↦ do replace_var next_av_uri_meta (some meta); pure ok
    ]

  unfoldable pub set_next_avtransport_uri : Transport ℤ
  set_next_avtransport_uri = with_instance (do
    next_uri ← upnp_get_string (codes "NextURI")
    elim next_uri [
      | none ↦ pure failure
      | some text ↦ do service_lock; rc ← set_next_locked text; service_unlock; pure rc
    ])

  unfoldable pub stop_locked : TransportState → Transport (Unit {0})
  stop_locked stopped = pure tt
  stop_locked no_media_present = transition_error (codes "STOP")
  stop_locked _ = do on_output output_stop; change_transport_state stopped

  unfoldable pub stop : Transport ℤ
  stop =
      with_instance (do service_lock; state ← get_state; stop_locked state; service_unlock; pure ok)

  -- The case of `play` that both STOPPED and PAUSED_PLAYBACK reach.
  unfoldable pub start_playing : Transport ℤ
  start_playing = do
    rc ← on_output output_play
    if succeeded rc
        then (do
          change_transport_state playing
          uri ← get_var av_uri
          meta ← get_var av_uri_meta
          replace_current_uri_and_meta uri meta
          pure ok)
        else (do upnp_set_error 704 (codes "Playing failed"); pure failure)

  unfoldable pub play_locked : TransportState → Transport ℤ
  play_locked playing = pure ok
  play_locked stopped = do replace_var rel_time_pos (some zero_time); start_playing
  play_locked paused_playback = start_playing
  play_locked _ = do transition_error (codes "PLAY"); pure failure

  unfoldable pub play : Transport ℤ
  play =
      with_instance
        (do service_lock; state ← get_state; rc ← play_locked state; service_unlock; pure rc)

  unfoldable pub pause_locked : TransportState → Transport ℤ
  pause_locked paused_playback = pure ok
  pause_locked playing = do
    rc ← on_output output_pause
    if succeeded rc
        then (do change_transport_state paused_playback; pure ok)
        else (do upnp_set_error 704 (codes "Pause failed"); pure failure)
  pause_locked _ = do transition_error (codes "PAUSE"); pure failure

  unfoldable pub pause_stream : Transport ℤ
  pause_stream =
      with_instance
        (do service_lock; state ← get_state; rc ← pause_locked state; service_unlock; pure rc)

  unfoldable pub seek_locked : Bytes → ℤ → Transport (Unit {0})
  seek_locked target nanos = do
    rc ← on_output (output_seek nanos)
    if succeeded rc then (do replace_var rel_time_pos (some target); pure tt) else pure tt

  -- `strcmp` and `sscanf` fault on NULL, and `parse_upnp_time` on an int that overflows.
  unfoldable pub seek : Transport ℤ
  seek = with_instance (do
    unit ← upnp_get_string (codes "Unit")
    mode ← deref unit
    if str_eq mode (codes "REL_TIME")
        then (do
          target ← upnp_get_string (codes "Target")
          text ← deref target
          nanos ← deref (parse_upnp_time text)
          service_lock
          seek_locked text nanos
          service_unlock
          pure ok)
        else pure ok)

  unfoldable pub feedback_locked : PlayFeedback → Transport (Unit {0})
  feedback_locked play_stopped = do
    replace_transport_uri_and_meta (some []) (some [])
    replace_current_uri_and_meta (some []) (some [])
    change_transport_state stopped
  feedback_locked play_started_next_stream = do
    uri ← get_var next_av_uri
    meta ← get_var next_av_uri_meta
    replace_transport_uri_and_meta uri meta
    replace_current_uri_and_meta uri meta
    replace_var next_av_uri (some [])
    replace_var next_av_uri_meta (some [])
    pure tt

  unfoldable pub inform_play_transition_from_output : PlayFeedback → Transport (Unit {0})
  inform_play_transition_from_output fb = do service_lock; feedback_locked fb; service_unlock

  unfoldable pub get_media_info : Transport ℤ
  get_media_info = with_instance (do
    append nr_tracks (codes "NrTracks")
    append cur_media_dur (codes "MediaDuration")
    append av_uri (codes "CurrentURI")
    append av_uri_meta (codes "CurrentURIMetaData")
    append next_av_uri (codes "NextURI")
    append next_av_uri_meta (codes "NextURIMetaData")
    append rec_media (codes "PlayMedium")
    append rec_medium (codes "RecordMedium")
    append rec_medium_wr_status (codes "WriteStatus")
    pure ok)

  unfoldable pub get_transport_info : Transport ℤ
  get_transport_info = with_instance (do
    append Variables.transport_state (codes "CurrentTransportState")
    append transport_status (codes "CurrentTransportStatus")
    append transport_play_speed (codes "CurrentSpeed")
    pure ok)

  unfoldable pub get_current_transportactions : Transport ℤ
  get_current_transportactions =
      with_instance (do append cur_transport_actions (codes "Actions"); pure ok)

  unfoldable pub get_transport_settings : Transport ℤ
  get_transport_settings = with_instance (pure ok)

  unfoldable pub get_device_caps : Transport ℤ
  get_device_caps = with_instance (pure ok)

  unfoldable pub get_position_info : Transport ℤ
  get_position_info = with_instance (do
    append cur_track (codes "Track")
    append cur_track_dur (codes "TrackDuration")
    append cur_track_meta (codes "TrackMetaData")
    append cur_track_uri (codes "TrackURI")
    append rel_time_pos (codes "RelTime")
    append abs_time_pos (codes "AbsTime")
    append rel_ctr_pos (codes "RelCount")
    append abs_ctr_pos (codes "AbsCount")
    pure ok)
