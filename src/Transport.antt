-- ===== src/Transport.antt =====
-- src/upnp_transport.c: the AVTransport service. The handlers run on a session whose own state is
-- `transport_state_` and the output module; `transport_mutex` is not modelled (see ActionEvent).
pub mod Variables
pub mod Time
pub mod Feedback
pub mod Table
pub mod Contract
pub mod Handlers
pub mod Actions
pub mod Request
pub mod Clock
pub mod Consistency
pub mod Created
pub mod Promises
pub mod Invariant
use gmrender_resurrect.Prelude.{
  ℕ, Bool, true, false, not, ◌&&◌, ◌||◌, Option, none, some, List, [], ◌∷◌, ltb, leb, if◌then◌else◌,
}
use gmrender_resurrect.Prelude.Text.{Bytes, codes, is_empty, strstr}
use gmrender_resurrect.Prelude.Int.{pos}
use gmrender_resurrect.Prelude.Run.{Run, ◌>>=◌, ◌>>◌, pure, gets, assert, deref}
use gmrender_resurrect.XmlDoc.{Ixml}
use gmrender_resurrect.VariableContainer
use gmrender_resurrect.LastChangeCollector
use gmrender_resurrect.LastChangeCollector.{Service, Collector}
use gmrender_resurrect.ActionEvent.{Upnp, Session}
use gmrender_resurrect.Output.{OutputModule}
use gmrender_resurrect.Transport.Variables.{
  TransportVariable, variable_num, av_uri, av_uri_meta, nr_tracks, cur_track, cur_track_uri,
  cur_track_meta, cur_transport_actions,
}

-- `enum transport_state`
pub data TransportState : Type 0 where
  stopped playing transitioning paused_playback : TransportState
  paused_recording recording no_media_present : TransportState

abbrev pub state_num : TransportState → ℕ
state_num stopped = 0
state_num playing = 1
state_num transitioning = 2
state_num paused_playback = 3
state_num paused_recording = 4
state_num recording = 5
state_num no_media_present = 6

-- `transport_states[state]`
abbrev pub state_name : TransportState → Bytes
state_name stopped = codes "STOPPED"
state_name playing = codes "PLAYING"
state_name transitioning = codes "TRANSITIONING"
state_name paused_playback = codes "PAUSED_PLAYBACK"
state_name paused_recording = codes "PAUSED_RECORDING"
state_name recording = codes "RECORDING"
state_name no_media_present = codes "NO_MEDIA_PRESENT"

-- "1" for a URI that is there and not empty.
abbrev pub track_count : Option Bytes → Bytes
track_count none = codes "0"
track_count (some uri) = if is_empty uri then codes "0" else codes "1"

-- Whether the meta data is likely to be updated from the stream.
unfoldable pub needs_stream_meta : Bytes → Bool
needs_stream_meta meta =
    is_empty meta
    || elim (strstr meta (codes "object.item.audioItem")) [ none ↦ false | some _ ↦ true ]

module _ ⦃x : Ixml⦄ ⦃u : Upnp⦄ ⦃o : OutputModule⦄ where
  -- The variables of the file that are not in the service.
  pub record Own : Type 0 where
    pub transport_state : TransportState
    pub output : o.Out

  abbrev pub Transport : Type 0 → Type 0
  Transport A = Run (Session Own) A

  abbrev pub on_service : {A : Type 0} → Run Service A → Transport A
  on_service m s = elim (m s.service) [
    | none ↦ none
    | some (a, service) ↦ some (a, record s { service = service })
  ]

  abbrev pub set_state : TransportState → Transport (Unit {0})
  set_state state s = some (tt, record s { own = record s.own { transport_state = state } })

  abbrev pub get_state : Transport TransportState
  get_state = gets (λ s. s.own.transport_state)

  -- A call of the output with a return code, and one without.
  abbrev pub on_output : {A : Type 0} → (o.Out → A × o.Out) → Transport A
  on_output f s =
      let (a, out) = f s.own.output in some (a, record s { own = record s.own { output = out } })

  abbrev pub on_output_void : (o.Out → o.Out) → Transport (Unit {0})
  on_output_void f s = some (tt, record s { own = record s.own { output = f s.own.output } })

  -- `service_lock`: opens a transaction if there is a collector.
  unfoldable pub service_lock : Transport (Unit {0})
  unfolding LastChangeCollector.start
  service_lock s =
      let start_if : Option Collector → Option Collector = elim [
        | none ↦ none
        | some c ↦ some (LastChangeCollector.start c)
      ] in
      some (
        tt,
        record s { service = record s.service { last_change = start_if s.service.last_change } },
      )

  -- `service_unlock`: finishes the transaction if there is a collector.
  unfoldable pub service_unlock : Transport (Unit {0})
  unfolding LastChangeCollector.finish
  service_unlock s = elim s.service.last_change [
    | none ↦ some (tt, s)
    | some _ ↦ on_service LastChangeCollector.finish s
  ]

  -- `replace_var`
  unfoldable pub replace_var : TransportVariable → Option Bytes → Transport Bool
  unfolding LastChangeCollector.change
  replace_var varnum new_value =
      on_service (LastChangeCollector.change (variable_num varnum) new_value)

  -- `get_var`
  unfoldable pub get_var : TransportVariable → Transport (Option Bytes)
  unfolding VariableContainer.get
  get_var varnum = gets (λ s. VariableContainer.get s.service.container (pos (variable_num varnum)))

  -- `replace_transport_uri_and_meta`: `strlen(meta)` faults on NULL.
  unfoldable pub replace_transport_uri_and_meta : Option Bytes → Option Bytes → Transport Bool
  unfolding replace_var needs_stream_meta
  replace_transport_uri_and_meta uri meta = do
    replace_var av_uri uri
    replace_var av_uri_meta meta
    replace_var nr_tracks (some (track_count uri))
    text ← deref meta
    pure (needs_stream_meta text)

  -- `replace_current_uri_and_meta`
  unfoldable pub replace_current_uri_and_meta : Option Bytes → Option Bytes → Transport (Unit {0})
  unfolding replace_var
  replace_current_uri_and_meta uri meta = do
    replace_var cur_track (some (track_count uri))
    replace_var cur_track_uri uri
    replace_var cur_track_meta meta
    pure tt

  -- The `switch` of `change_transport_state`: the actions that the new state allows.
  unfoldable pub available_actions : TransportState → Transport (Option Bytes)
  unfolding get_var
  available_actions stopped = do
    uri ← get_var av_uri
    text ← deref uri
    pure (some (if is_empty text then codes "PLAY" else codes "PLAY,SEEK"))
  available_actions playing = pure (some (codes "PAUSE,STOP,SEEK"))
  available_actions paused_playback = pure (some (codes "PLAY,STOP,SEEK"))
  available_actions _ = pure none

  unfoldable pub replace_actions : Option Bytes → Transport (Unit {0})
  unfolding replace_var
  replace_actions none = pure tt
  replace_actions (some actions) = do replace_var cur_transport_actions (some actions); pure tt

  -- `change_transport_state`
  unfoldable pub change_transport_state : TransportState → Transport (Unit {0})
  unfolding replace_var available_actions replace_actions
  change_transport_state new_state = do
    set_state new_state
    assert (ltb (state_num new_state) (state_num no_media_present))
    changed ← replace_var Variables.transport_state (some (state_name new_state))
    if changed then available_actions new_state >>= replace_actions else pure tt
