-- ===== src/Transport/Invariant.antt =====
-- The life of the transport as a sequence of steps, and what holds after each of them.
use gmrender_resurrect.Transport.Table.{transport_table}
use gmrender_resurrect.Prelude.{◌≡◌, refl, some}
use gmrender_resurrect.Prelude.Int.{ℤ}
use gmrender_resurrect.Prelude.Run.{Run}
use gmrender_resurrect.XmlDoc.{Ixml}
use gmrender_resurrect.ActionEvent.{Upnp, ActionEvent, Session}
use gmrender_resurrect.Output.{OutputModule}
use gmrender_resurrect.Transport.{Own, Transport}
use gmrender_resurrect.Transport.Feedback.{PlayFeedback}
use gmrender_resurrect.Abstract.{Abs, abs, IsGood, Refines}
use gmrender_resurrect.Abstract.Ends.{Refines-ends}
use gmrender_resurrect.Transport.Clock.{update_track_time, update_track_time-Refines}
use gmrender_resurrect.Transport.Handlers.{inform_play_transition_from_output}
use gmrender_resurrect.Transport.Handlers.Callbacks.{inform_play_transition-Refines}
use gmrender_resurrect.Transport.Request.{handle_action_request}
use gmrender_resurrect.Transport.Request.Refinement.{handle_action_request-Refines}
use gmrender_resurrect.Transport.Consistency.{IsConsistent, kept, Keeps, feedback_in-IsConsistent}
use gmrender_resurrect.Transport.Consistency.Contracts.{request-Keeps, clock-Keeps}

module _ ⦃x : Ixml⦄ ⦃u : Upnp⦄ ⦃o : OutputModule⦄ where
  -- One event in the life of the service: an action request, a report of the output, a turn of the
  -- clock, or the output going on by itself.
  pub data Step : Session Own → Session Own → Type 0 where
    request :
        {s t : Session Own} {rc : ℤ} (e : ActionEvent)
        → handle_action_request (record s { event = e }) ≡ some (rc, t)
        → Step s t
    report :
        {s t : Session Own} (fb : PlayFeedback)
        → inform_play_transition_from_output fb s ≡ some (tt, t)
        → Step s t
    clock :
        {s t : Session Own} {last : ℤ × ℤ} (d p : ℤ)
        → update_track_time d p s ≡ some (last, t)
        → Step s t
    output :
        {s : Session Own} (out : o.Out) → Step s (record s { own = record s.own { output = out } })

  pub data Reachable (s : Session Own) : Session Own → Type 0 where
    here : Reachable s s
    later : {t w : Session Own} → Reachable s t → Step t w → Reachable s w

  -- What a run that has ended gives.
  pub ends :
      {A : Type 0} {m : Transport A} {f : Run Abs A}
      → Refines m f
      → ((v : Abs) → IsConsistent v → Keeps (f v))
      → (s t : Session Own) (a : A) → IsGood s
      → IsConsistent (abs s)
      → m s ≡ some (a, t)
      → IsGood t × IsConsistent (abs t)
  ends r k s t a good h e = Refines-ends r Keeps s t a good (k (abs s) h) e

  Step-keeps :
      {s t : Session Own}
      → Step s t
      → IsGood s
      → IsConsistent (abs s)
      → IsGood t × IsConsistent (abs t)
  Step-keeps (request {s} {t} {rc} e r) good h =
      ends handle_action_request-Refines request-Keeps (record s { event = e }) t rc good
        (kept _ h refl refl refl refl refl) r
  Step-keeps (report {s} {t} fb r) good h =
      ends (inform_play_transition-Refines fb) (feedback_in-IsConsistent fb) s t tt good h r
  Step-keeps (clock {s} {t} {last} d p r) good h =
      ends (update_track_time-Refines d p) (clock-Keeps d p) s t last good h r
  Step-keeps (output out) good h = (good, kept _ h refl refl refl refl refl)

  -- From a session of a service that is ready and consistent, every sequence of steps leads to such
  -- a session: the transport state is STOPPED, PLAYING or PAUSED_PLAYBACK, the variable
  -- TransportState shows it, NumberOfTracks tells whether AVTransportURI is empty, and
  -- CurrentTransportActions is the list of the state (in STOPPED with or without SEEK).
  pub Reachable-IsConsistent :
      {s t : Session Own}
      → IsGood s
      → IsConsistent (abs s)
      → Reachable s t
      → IsGood t × IsConsistent (abs t)
  Reachable-IsConsistent good h here = (good, h)
  Reachable-IsConsistent good h (later r step) =
      let (g, k) = Reachable-IsConsistent good h r in Step-keeps step g k
