-- ===== src/Transport/Handlers/Refinement.antt =====
-- Each handler keeps its contract.
use gmrender_resurrect.Transport.Table.{transport_table, read_two}
use gmrender_resurrect.Prelude.{ℕ, ◌≡◌, ◌≢◌, refl, arith, some}
use gmrender_resurrect.Prelude.Text.{Bytes, codes}
use gmrender_resurrect.Prelude.Int.{pos}
use gmrender_resurrect.Prelude.Run.{Run, ◌>>◌, pure}
use gmrender_resurrect.XmlDoc.{Ixml}
use gmrender_resurrect.ActionEvent.{Upnp}
use gmrender_resurrect.Output.{OutputModule, output_stop, output_play, output_pause}
use gmrender_resurrect.Transport.{
  on_output, TransportState, stopped, playing, transitioning, paused_playback, paused_recording,
  recording, no_media_present, change_transport_state, replace_current_uri_and_meta,
}
use gmrender_resurrect.Transport.Variables
use gmrender_resurrect.Transport.Variables.{
  zero_time, rel_time_pos, TransportVariable, variable_num, av_uri, av_uri_meta, nr_tracks,
  cur_transport_actions, cur_track, cur_track_uri, cur_track_meta,
}
use gmrender_resurrect.Abstract.{
  Abs, Refines, Refines-eq, Refines-bind, Refines-pure, Refines-if, Refines-get_state,
  Refines-on_output,
}
use gmrender_resurrect.Abstract.Calls.{Refines-set_error}
use gmrender_resurrect.Transport.Contract.{
  with_current_uri, with_state, entered, not_allowed, stop_in, stop_contract, start_in, play_in,
  play_contract, pause_in, pause_contract,
}
use gmrender_resurrect.Transport.Handlers.{transition_error, ok, failure}
use gmrender_resurrect.Transport.Feedback.{succeeded}
use gmrender_resurrect.Transport.Handlers.Steps.{
  with_instance-Refines, enter_stopped, enter_playing, enter_paused, replace-step,
  current_uri_replaced, transition_refused,
}
use gmrender_resurrect.Abstract.Transactions.{step, IsBlind, transaction}
use gmrender_resurrect.Transport.Handlers.{
  stop_locked, stop, start_playing, play_locked, play, pause_locked, pause_stream,
}

module _ ⦃x : Ixml⦄ ⦃u : Upnp⦄ ⦃o : OutputModule⦄ where
  abbrev after : {A : Type 0} → (Abs → A × Abs) → Run Abs A
  after f v = some (f v)

  stopping :
      Refines
        (on_output output_stop >> change_transport_state stopped)
        (step (λ v. entered stopped (record v { out = (output_stop v.out).1 })))
  stopping = Refines-bind (Refines-on_output output_stop) λ _. enter_stopped

  stop_locked-Refines :
      (state : TransportState) → Refines (stop_locked state) (step (stop_in state))
  unfolding stop_locked stop_in
  stop_locked-Refines stopped = Refines-pure tt
  stop_locked-Refines no_media_present = transition_refused (codes "STOP")
  stop_locked-Refines playing = stopping
  stop_locked-Refines transitioning = stopping
  stop_locked-Refines paused_playback = stopping
  stop_locked-Refines paused_recording = stopping
  stop_locked-Refines recording = stopping

  stop_in-IsBlind : IsBlind (λ v. some (tt, stop_in v.state v))
  unfolding stop_in
  stop_in-IsBlind v d = ground arith

  pub stop-Refines : Refines stop stop_contract
  unfolding stop stop_contract
  stop-Refines = with_instance-Refines (
      transaction (λ _. pos 0)
        (Refines-eq (Refines-bind Refines-get_state stop_locked-Refines) (λ v. refl))
        stop_in-IsBlind)

  with_state-at :
      (state : TransportState) (f : ℕ → Bytes) (n : ℕ)
      → n ≢ variable_num Variables.transport_state
      → n ≢ variable_num cur_transport_actions
      → with_state state f n ≡ f n
  unfolding with_state
  with_state-at state f n p q = ground arith

  start_playing-Refines : Refines start_playing (after start_in)
  unfolding start_playing start_in
  start_playing-Refines =
      Refines-eq
        (Refines-bind (Refines-on_output output_play) λ rc.
          Refines-if (succeeded rc)
            (Refines-bind enter_playing λ _.
              read_two av_uri av_uri_meta (omega arith) (omega arith)
                (λ uri meta. replace_current_uri_and_meta uri meta >> pure ok)
                (λ uri meta v. some (ok, record v { var = with_current_uri uri meta v.var }))
                λ uri meta. Refines-bind (current_uri_replaced uri meta) λ _. Refines-pure ok)
            (Refines-bind (Refines-set_error 704 (codes "Playing failed"))
              λ _. Refines-pure failure))
        λ v. ground (
          arith,
          with_state-at playing v.var (variable_num av_uri) (omega arith) (omega arith),
          with_state-at playing v.var (variable_num av_uri_meta) (omega arith) (omega arith),
        )

  play_refused :
      Refines
        (transition_error (codes "PLAY") >> pure failure)
        (after λ v. (failure, not_allowed (codes "PLAY") v))
  play_refused = Refines-bind (transition_refused (codes "PLAY")) λ _. Refines-pure failure

  play_locked-Refines :
      (state : TransportState) → Refines (play_locked state) (after (play_in state))
  unfolding play_locked play_in
  play_locked-Refines playing = Refines-pure ok
  play_locked-Refines stopped =
      replace-step rel_time_pos zero_time (omega arith) start_playing-Refines
  play_locked-Refines paused_playback = start_playing-Refines
  play_locked-Refines transitioning = play_refused
  play_locked-Refines paused_recording = play_refused
  play_locked-Refines recording = play_refused
  play_locked-Refines no_media_present = play_refused

  play_in-IsBlind : IsBlind (λ v. some (play_in v.state v))
  unfolding play_in start_in
  play_in-IsBlind v d = ground arith

  pub play-Refines : Refines play play_contract
  unfolding play play_contract
  play-Refines = with_instance-Refines (
      transaction (λ rc. rc)
        (Refines-eq (Refines-bind Refines-get_state play_locked-Refines) (λ v. refl))
        play_in-IsBlind)

  pause_refused :
      Refines
        (transition_error (codes "PAUSE") >> pure failure)
        (after λ v. (failure, not_allowed (codes "PAUSE") v))
  pause_refused = Refines-bind (transition_refused (codes "PAUSE")) λ _. Refines-pure failure

  pausing : Refines (pause_locked playing) (after (pause_in playing))
  unfolding pause_locked pause_in
  pausing =
      Refines-eq
        (Refines-bind (Refines-on_output output_pause) λ rc.
          Refines-if (succeeded rc) (Refines-bind enter_paused λ _. Refines-pure ok)
            (Refines-bind (Refines-set_error 704 (codes "Pause failed")) λ _. Refines-pure failure))
        (λ v. ground arith)

  pause_locked-Refines :
      (state : TransportState) → Refines (pause_locked state) (after (pause_in state))
  unfolding pause_locked pause_in
  pause_locked-Refines paused_playback = Refines-pure ok
  pause_locked-Refines playing = pausing
  pause_locked-Refines stopped = pause_refused
  pause_locked-Refines transitioning = pause_refused
  pause_locked-Refines paused_recording = pause_refused
  pause_locked-Refines recording = pause_refused
  pause_locked-Refines no_media_present = pause_refused

  pause_in-IsBlind : IsBlind (λ v. some (pause_in v.state v))
  unfolding pause_in
  pause_in-IsBlind v d = ground arith

  pub pause_stream-Refines : Refines pause_stream pause_contract
  unfolding pause_stream pause_contract
  pause_stream-Refines = with_instance-Refines (
      transaction (λ rc. rc)
        (Refines-eq (Refines-bind Refines-get_state pause_locked-Refines) (λ v. refl))
        pause_in-IsBlind)
