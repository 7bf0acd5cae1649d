-- ===== src/Transport/Contract.antt =====
-- What each handler of the transport promises, on the abstract state: transactions, listeners and
-- events are out of sight, and the order of the single updates is not told.
use gmrender_resurrect.Transport.Table.{transport_table}
use gmrender_resurrect.Prelude.{
  ℕ, none, some, List, [], ◌∷◌, ◌++◌, Bool, true, false, if◌then◌else◌,
}
use gmrender_resurrect.Prelude.Text.{Bytes, codes, str_eq, is_empty, strstr}
use gmrender_resurrect.Prelude.Int.{ℤ, pos, negsuc}
use gmrender_resurrect.Prelude.Run.{Run}
use gmrender_resurrect.XmlDoc.{Ixml}
use gmrender_resurrect.LastChangeCollector.Changes.{update}
use gmrender_resurrect.ActionEvent.{
  Upnp, ActionEvent, with_response, request_string, missing_message,
}
use gmrender_resurrect.Output.{
  OutputModule, output_set_uri, output_set_next_uri, output_play, output_pause, output_stop,
  output_seek,
}
use gmrender_resurrect.Transport.{
  TransportState, stopped, playing, paused_playback, no_media_present, state_name,
}
use gmrender_resurrect.Transport.Variables
use gmrender_resurrect.Transport.Variables.{
  TransportVariable, variable_num, zero_time, next_av_uri, next_av_uri_meta, av_uri, av_uri_meta,
  rel_time_pos, cur_track, cur_track_uri, cur_track_meta, cur_transport_actions, nr_tracks,
}
use gmrender_resurrect.Transport.Time.Named.{time_named}
use gmrender_resurrect.Transport.Feedback.{
  PlayFeedback, play_stopped, play_started_next_stream, succeeded,
}
use gmrender_resurrect.Abstract.{Abs}
use gmrender_resurrect.Abstract.Calls.{asked, refused}

-- CurrentTransportActions in the three states that the renderer takes.
unfoldable pub allowed_actions : TransportState → Bytes → Bytes
allowed_actions playing uri = codes "PAUSE,STOP,SEEK"
allowed_actions paused_playback uri = codes "PLAY,STOP,SEEK"
allowed_actions _ uri = if is_empty uri then codes "PLAY" else codes "PLAY,SEEK"

-- The number of tracks that a URI stands for.
abbrev pub tracks_of : Bytes → Bytes
tracks_of [] = codes "0"
tracks_of (c ∷ uri) = codes "1"

-- The output is to report meta data if there is none, or if it is that of an audio item.
unfoldable pub wants_stream_meta : Bytes → Bool
wants_stream_meta [] = true
wants_stream_meta (c ∷ meta) = elim (strstr (c ∷ meta) (codes "object.item.audioItem")) [
  | some _ ↦ true
  | none ↦ false
]

abbrev pub put : TransportVariable → Bytes → (ℕ → Bytes) → ℕ → Bytes
put v text f = update f (variable_num v) text

abbrev pub at : TransportVariable → (ℕ → Bytes) → Bytes
at v f = f (variable_num v)

-- The variables with a new AVTransportURI.
abbrev pub with_transport_uri : Bytes → Bytes → (ℕ → Bytes) → ℕ → Bytes
with_transport_uri uri meta f =
    put nr_tracks (tracks_of uri) (put av_uri_meta meta (put av_uri uri f))

-- The variables with a new current track.
abbrev pub with_current_uri : Bytes → Bytes → (ℕ → Bytes) → ℕ → Bytes
with_current_uri uri meta f =
    put cur_track_meta meta (put cur_track_uri uri (put cur_track (tracks_of uri) f))

-- The variables in a new transport state: the allowed actions follow a change of the state only.
unfoldable pub with_state : TransportState → (ℕ → Bytes) → ℕ → Bytes
with_state state f =
    if str_eq (state_name state) (at Variables.transport_state f)
    then put Variables.transport_state (state_name state) f
    else put cur_transport_actions (allowed_actions state (at av_uri f))
        (put Variables.transport_state (state_name state) f)

module _ ⦃x : Ixml⦄ ⦃u : Upnp⦄ ⦃o : OutputModule⦄ where
  abbrev pub entered : TransportState → Abs → Abs
  entered state v = record v { state = state; var = with_state state v.var }

  -- The answer to a request with no InstanceID.
  abbrev pub instance_error : ActionEvent → ActionEvent
  instance_error e =
      refused (codes "Missing InstanceID")
        (refused (missing_message (codes "InstanceID") e.request) e)

  abbrev pub needs_instance : Run Abs ℤ → Run Abs ℤ
  needs_instance body v = elim (request_string (codes "InstanceID") v.event.request) [
    | none ↦ some (negsuc 0, record v { event = instance_error v.event })
    | some _ ↦ body v
  ]

  abbrev pub not_allowed : Bytes → Abs → Abs
  not_allowed what v = record v {
    event =
        refused
          (codes "Transition to "
            ++ what
            ++ codes " not allowed; allowed="
            ++ at cur_transport_actions v.var)
          v.event;
  }

  -- `stop`: any state but STOPPED ends in STOPPED, whatever the output says.
  unfoldable pub stop_in : TransportState → Abs → Abs
  stop_in stopped v = v
  stop_in no_media_present v = not_allowed (codes "STOP") v
  stop_in _ v = entered stopped (record v { out = (output_stop v.out).1 })

  unfoldable pub stop_contract : Run Abs ℤ
  stop_contract = needs_instance (λ v. some (pos 0, stop_in v.state v))

  -- Starting to play: on success the current track is what AVTransportURI names.
  unfoldable pub start_in : Abs → ℤ × Abs
  start_in v =
      let (rc, out) = output_play v.out in
      if succeeded rc
      then (
        pos 0,
        record v {
          state = playing;
          out = out;
          var =
              with_current_uri (at av_uri v.var) (at av_uri_meta v.var) (with_state playing v.var);
        },
      )
      else (negsuc 0, record v { out = out; event = refused (codes "Playing failed") v.event })

  unfoldable pub play_in : TransportState → Abs → ℤ × Abs
  unfolding start_in
  play_in playing v = (pos 0, v)
  play_in stopped v = start_in (record v { var = put rel_time_pos zero_time v.var })
  play_in paused_playback v = start_in v
  play_in _ v = (negsuc 0, not_allowed (codes "PLAY") v)

  unfoldable pub play_contract : Run Abs ℤ
  play_contract = needs_instance (λ v. some (play_in v.state v))

  unfoldable pub pause_in : TransportState → Abs → ℤ × Abs
  pause_in paused_playback v = (pos 0, v)
  pause_in playing v =
      let (rc, out) = output_pause v.out in
      if succeeded rc
      then (pos 0, entered paused_playback (record v { out = out }))
      else (negsuc 0, record v { out = out; event = refused (codes "Pause failed") v.event })
  pause_in _ v = (negsuc 0, not_allowed (codes "PAUSE") v)

  unfoldable pub pause_contract : Run Abs ℤ
  pause_contract = needs_instance (λ v. some (pause_in v.state v))

  -- A new AVTransportURI; while playing it is also the current track.
  unfoldable pub set_uri_in : TransportState → Bytes → Bytes → Abs → Abs
  set_uri_in playing uri meta v = record v {
    var = with_current_uri uri meta (with_transport_uri uri meta v.var);
    out = output_set_uri uri (wants_stream_meta meta) v.out;
  }
  set_uri_in _ uri meta v = record v {
    var = with_transport_uri uri meta v.var;
    out = output_set_uri uri (wants_stream_meta meta) v.out;
  }

  -- `set_avtransport_uri`: without CurrentURI it returns -1, and without CurrentURIMetaData it
  -- faults.
  unfoldable pub set_uri_contract : Run Abs ℤ
  set_uri_contract = needs_instance λ v.
      elim (request_string (codes "CurrentURI") v.event.request) [
        | none ↦ some (negsuc 0, record v { event = asked (codes "CurrentURI") v.event })
        | some uri ↦ elim (request_string (codes "CurrentURIMetaData") v.event.request) [
          | none ↦ none
          | some meta ↦ some (pos 0, set_uri_in v.state uri meta v)
        ]
      ]

  unfoldable pub set_next_uri_contract : Run Abs ℤ
  set_next_uri_contract = needs_instance λ v.
      elim (request_string (codes "NextURI") v.event.request) [
        | none ↦ some (negsuc 0, record v { event = asked (codes "NextURI") v.event })
        | some uri ↦
            let v' = record v {
              out = output_set_next_uri uri v.out;
              var = put next_av_uri uri v.var;
            } in
            elim (request_string (codes "NextURIMetaData") v.event.request) [
              | none ↦
                  some (negsuc 0, record v' { event = asked (codes "NextURIMetaData") v.event })
              | some meta ↦ some (pos 0, record v' { var = put next_av_uri_meta meta v'.var })
            ]
      ]

  unfoldable pub seek_in : Bytes → ℤ → Abs → Abs
  seek_in target nanos v =
      let (rc, out) = output_seek nanos v.out in
      if succeeded rc
      then record v { out = out; var = put rel_time_pos target v.var }
      else record v { out = out }

  -- `seek`: it faults without a Unit, and without a Target or with one that does not fit if the unit
  -- is REL_TIME; any other unit is ignored.
  unfoldable pub seek_contract : Run Abs ℤ
  unfolding seek_in
  seek_contract = needs_instance λ v. elim (request_string (codes "Unit") v.event.request) [
    | none ↦ none
    | some unit ↦
        if str_eq unit (codes "REL_TIME")
        then elim (request_string (codes "Target") v.event.request) [
          | none ↦ none
          | some target ↦ elim (time_named target) [
            | none ↦ none
            | some nanos ↦ some (pos 0, seek_in target nanos v)
          ]
        ]
        else some (pos 0, v)
  ]

  -- The output tells that it stopped, or that it went on to the next stream.
  unfoldable pub feedback_in : PlayFeedback → Abs → Abs
  feedback_in play_stopped v =
      entered stopped (record v { var = with_current_uri [] [] (with_transport_uri [] [] v.var) })
  feedback_in play_started_next_stream v =
      let uri = at next_av_uri v.var in
      let meta = at next_av_uri_meta v.var in
      record v {
        var =
            put next_av_uri_meta []
              (put next_av_uri [] (with_current_uri uri meta (with_transport_uri uri meta v.var)));
      }

  -- An answer that lists variables.
  abbrev pub answered : List (TransportVariable × Bytes) → (ℕ → Bytes) → ActionEvent → ActionEvent
  answered [] f e = e
  answered ((v, name) ∷ rest) f e = answered rest f (with_response name (at v f) e).1

  unfoldable pub answer_contract : List (TransportVariable × Bytes) → Run Abs ℤ
  answer_contract vars =
      needs_instance (λ v. some (pos 0, record v { event = answered vars v.var v.event }))
