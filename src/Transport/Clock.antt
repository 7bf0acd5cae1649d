-- ===== src/Transport/Clock.antt =====
-- src/upnp_transport.c: the loop of `thread_update_track_time`, and that a turn of it tells the
-- position of the output.
use gmrender_resurrect.Transport.Table.{transport_table}
use gmrender_resurrect.Prelude.{ℕ, suc, ◌/◌, ◌≡◌, refl, arith, some, if◌then◌else◌}
use gmrender_resurrect.Prelude.Int.{ℤ, pos, negsuc, sub_ℕ, same_int}
use gmrender_resurrect.Prelude.Run.{bind_pure, Run, ◌>>=◌, ◌>>◌, pure}
use gmrender_resurrect.XmlDoc.{Ixml}
use gmrender_resurrect.ActionEvent.{Upnp}
use gmrender_resurrect.Output.{OutputModule, output_get_position}
use gmrender_resurrect.Transport.{Transport, on_output, service_lock, service_unlock, replace_var}
use gmrender_resurrect.Transport.Variables.{rel_time_pos, cur_track_dur}
use gmrender_resurrect.Transport.Time.Text.{time_text, print_upnp_time-text}
use gmrender_resurrect.Transport.Time.{print_upnp_time, divide_leave_remainder, one_sec}
use gmrender_resurrect.Transport.Feedback.{succeeded}
use gmrender_resurrect.Abstract.{
  Abs, Refines, Refines-eq, Refines-bind, Refines-pure, Refines-if, Refines-on_output,
}
use gmrender_resurrect.Transport.Contract.{put}
use gmrender_resurrect.Transport.Handlers.Steps.{replace-step}
use gmrender_resurrect.Abstract.Transactions.{transaction, IsBlind}

-- The size of `tbuf`.
abbrev pub tbuf_size : ℕ
tbuf_size = 32

-- `t / one_sec_unit`
unfoldable pub whole_seconds : ℤ → ℤ
whole_seconds t = (divide_leave_remainder t one_sec).0

-- The seconds of nanoseconds, cut towards zero.
unfoldable pub seconds_told : ℤ → ℤ
seconds_told (pos n) = pos (n / 1000000000)
seconds_told (negsuc n) = sub_ℕ 0 (suc n / 1000000000)

seconds_told-eq : (t : ℤ) → whole_seconds t ≡ seconds_told t
unfolding whole_seconds divide_leave_remainder seconds_told
seconds_told-eq (pos n) = refl
seconds_told-eq (negsuc n) = refl

module _ ⦃x : Ixml⦄ ⦃u : Upnp⦄ ⦃o : OutputModule⦄ where
  abbrev pub position_of : o.Out → (ℤ × ℤ × ℤ) × o.Out
  position_of out =
      let (rc, duration, position, out') = output_get_position out in
      ((rc, duration, position), out')

  unfoldable pub update_duration : ℤ → ℤ → Transport ℤ
  update_duration last_duration duration =
      if same_int duration last_duration
      then pure last_duration
      else replace_var cur_track_dur (some (print_upnp_time tbuf_size duration)) >> pure duration

  unfoldable pub update_position : ℤ → ℤ → Transport ℤ
  unfolding whole_seconds
  update_position last_position position =
      if same_int (whole_seconds position) last_position
      then pure last_position
      else replace_var rel_time_pos (some (print_upnp_time tbuf_size position))
        >> pure (whole_seconds position)

  -- One turn of the loop, with `last_duration` and `last_position` before and after it.
  unfoldable pub update_track_time : ℤ → ℤ → Transport (ℤ × ℤ)
  unfolding update_duration update_position
  update_track_time last_duration last_position = do
    service_lock
    last ← (do
      (rc, duration, position) ← on_output position_of
      if succeeded rc
          then (do
            d ← update_duration last_duration duration
            p ← update_position last_position position
            pure (d, p))
          else pure (last_duration, last_position))
    service_unlock
    pure last

  -- The variables show the duration and the position last told.
  unfoldable pub duration_shown : ℤ → ℤ → Abs → Abs
  duration_shown last_duration duration v =
      if same_int duration last_duration
      then v
      else record v { var = put cur_track_dur (time_text duration) v.var }

  unfoldable pub position_shown : ℤ → ℤ → Abs → Abs
  unfolding seconds_told
  position_shown last_position position v =
      if same_int (seconds_told position) last_position
      then v
      else record v { var = put rel_time_pos (time_text position) v.var }

  abbrev shown : {B : Type 0} → B → (Abs → Abs) → Run Abs B
  shown b f v = some (b, f v)

  unfoldable pub latest : ℤ → ℤ → ℤ
  latest last now = if same_int now last then last else now

  update_duration-Refines :
      (last_duration duration : ℤ)
      → Refines
          (update_duration last_duration duration)
          (shown (latest last_duration duration) (duration_shown last_duration duration))
  unfolding update_duration duration_shown latest
  update_duration-Refines last_duration duration =
      Refines-eq
        (Refines-if (same_int duration last_duration) (Refines-pure last_duration) (
          replace-step cur_track_dur (print_upnp_time tbuf_size duration) (omega arith)
            (Refines-pure duration)))
        (λ v. ground (arith, print_upnp_time-text duration))

  update_position-Refines :
      (last_position position : ℤ)
      → Refines (update_position last_position position) (
          shown
            (latest last_position (seconds_told position))
            (position_shown last_position position))
  unfolding update_position position_shown latest
  update_position-Refines last_position position =
      Refines-eq
        (Refines-if (same_int (whole_seconds position) last_position) (Refines-pure last_position) (
          replace-step rel_time_pos (print_upnp_time tbuf_size position) (omega arith)
            (Refines-pure (whole_seconds position))))
        (λ v. ground (arith, print_upnp_time-text position, seconds_told-eq position))

  -- One turn on the abstract state.
  unfoldable pub clock_contract : ℤ → ℤ → Run Abs (ℤ × ℤ)
  unfolding duration_shown position_shown latest seconds_told
  clock_contract last_duration last_position v =
      let (rc, duration, position, out) = output_get_position v.out in
      if succeeded rc
      then some (
        (latest last_duration duration, latest last_position (seconds_told position)),
        position_shown last_position position
            (duration_shown last_duration duration (record v { out = out })),
      )
      else some ((last_duration, last_position), record v { out = out })

  clock_contract-IsBlind : (d p : ℤ) → IsBlind (clock_contract d p)
  unfolding clock_contract duration_shown position_shown
  clock_contract-IsBlind d p v depth = ground arith

  pub update_track_time-Refines :
      (last_duration last_position : ℤ)
      → Refines
          (update_track_time last_duration last_position)
          (clock_contract last_duration last_position)
  unfolding update_track_time clock_contract
  update_track_time-Refines ld lp =
      Refines-eq
        (transaction (λ last. last)
          (Refines-eq
            (Refines-bind (Refines-on_output position_of) λ told.
              Refines-if (succeeded told.0)
                (Refines-bind (update_duration-Refines ld told.1)
                  λ d. Refines-bind (update_position-Refines lp told.2) λ p. Refines-pure (d, p))
                (Refines-pure (ld, lp)))
            (λ v. ground arith))
          (clock_contract-IsBlind ld lp))
        (bind_pure (clock_contract ld lp))
