-- ===== src/Transport/Consistency/Contracts.antt =====
-- The contracts of the requests and of the clock keep the variables consistent.
use gmrender_resurrect.Transport.Table.{transport_table}
use gmrender_resurrect.Prelude.{List, refl, Option, none, some}
use gmrender_resurrect.Prelude.Text.{Bytes, codes, str_eq}
use gmrender_resurrect.Prelude.Int.{ℤ, pos, same_int}
use gmrender_resurrect.Prelude.Run.{Run, ◌>>=◌, ◌>>◌, pure}
use gmrender_resurrect.XmlDoc.{Ixml}
use gmrender_resurrect.ActionEvent.{Upnp, request_string}
use gmrender_resurrect.Output.{OutputModule, output_get_position}
use gmrender_resurrect.Transport.Variables.{TransportVariable}
use gmrender_resurrect.Transport.Feedback.{succeeded}
use gmrender_resurrect.Abstract.{Abs}
use gmrender_resurrect.Transport.Time.Named.{time_named}
use gmrender_resurrect.Transport.Contract.{
  needs_instance, stop_contract, play_contract, pause_contract, set_uri_contract,
  set_next_uri_contract, seek_contract, answer_contract, answered,
}
use gmrender_resurrect.Transport.Clock.{
  seconds_told, clock_contract, duration_shown, position_shown,
}
use gmrender_resurrect.Transport.Actions.{
  getcurrenttransportactions, getdevicecapabilities, getmediainfo, getpositioninfo,
  gettransportinfo, gettransportsettings, TransportCmd, pause, play, seek, setavtransporturi, stop,
  setnextavtransporturi,
}
use gmrender_resurrect.Transport.Actions.Answers.{answers}
use gmrender_resurrect.Transport.Request.Refinement.{started, finished, command_named}
use gmrender_resurrect.Transport.Request.Refinement.{
  promised, on_event, request_contract, request_for,
}
use gmrender_resurrect.Transport.Consistency.{
  IsConsistent, kept, by_test, by_option, Keeps, stop_in-IsConsistent, play_in-IsConsistent,
  pause_in-IsConsistent, set_uri_in-IsConsistent, seek_in-IsConsistent,
}

module _ ⦃x : Ixml⦄ ⦃u : Upnp⦄ ⦃o : OutputModule⦄ where
  with_instance-Keeps :
      (f : Run Abs ℤ) (v : Abs) → IsConsistent v → Keeps (f v) → Keeps (needs_instance f v)
  with_instance-Keeps f v h k =
      by_option Keeps (request_string (codes "InstanceID") v.event.request)
        (kept _ h refl refl refl refl refl) (λ _. k)

  answer-Keeps :
      (vars : List (TransportVariable × Bytes)) (v : Abs)
      → IsConsistent v
      → Keeps (answer_contract vars v)
  unfolding answer_contract
  answer-Keeps vars v h =
      with_instance-Keeps (λ w. some (pos 0, record w { event = answered vars w.var w.event })) v h
        (kept _ h refl refl refl refl refl)

  stop_contract-Keeps : (v : Abs) → IsConsistent v → Keeps (stop_contract v)
  unfolding stop_contract
  stop_contract-Keeps v h =
      by_option Keeps (request_string (codes "InstanceID") v.event.request)
        (kept _ h refl refl refl refl refl) λ _. (stop_in-IsConsistent v.state v h)

  play_contract-Keeps : (v : Abs) → IsConsistent v → Keeps (play_contract v)
  unfolding play_contract
  play_contract-Keeps v h =
      by_option Keeps (request_string (codes "InstanceID") v.event.request)
        (kept _ h refl refl refl refl refl) λ _. (play_in-IsConsistent v.state v h)

  pause_contract-Keeps : (v : Abs) → IsConsistent v → Keeps (pause_contract v)
  unfolding pause_contract
  pause_contract-Keeps v h =
      by_option Keeps (request_string (codes "InstanceID") v.event.request)
        (kept _ h refl refl refl refl refl) λ _. (pause_in-IsConsistent v.state v h)

  seek_contract-Keeps : (v : Abs) → IsConsistent v → Keeps (seek_contract v)
  unfolding seek_contract
  seek_contract-Keeps v h =
      by_option Keeps (request_string (codes "InstanceID") v.event.request)
        (kept _ h refl refl refl refl refl)
        λ _.
          (by_option Keeps (request_string (codes "Unit") v.event.request) tt λ unit.
            by_test Keeps (str_eq unit (codes "REL_TIME"))
              (by_option Keeps (request_string (codes "Target") v.event.request) tt λ target.
                by_option Keeps (time_named target) tt
                  λ nanos. seek_in-IsConsistent target nanos v h)
              h)

  set_uri_contract-Keeps : (v : Abs) → IsConsistent v → Keeps (set_uri_contract v)
  unfolding set_uri_contract
  set_uri_contract-Keeps v h =
      by_option Keeps (request_string (codes "InstanceID") v.event.request)
        (kept _ h refl refl refl refl refl)
        λ _.
          (by_option Keeps (request_string (codes "CurrentURI") v.event.request)
            (kept _ h refl refl refl refl refl)
            λ uri.
              by_option Keeps (request_string (codes "CurrentURIMetaData") v.event.request) tt
                λ meta. set_uri_in-IsConsistent v.state uri meta v h)

  set_next_uri_contract-Keeps : (v : Abs) → IsConsistent v → Keeps (set_next_uri_contract v)
  unfolding set_next_uri_contract
  set_next_uri_contract-Keeps v h =
      by_option Keeps (request_string (codes "InstanceID") v.event.request)
        (kept _ h refl refl refl refl refl)
        λ _.
          (by_option Keeps (request_string (codes "NextURI") v.event.request)
            (kept _ h refl refl refl refl refl)
            λ uri.
              by_option Keeps (request_string (codes "NextURIMetaData") v.event.request)
                (kept _ h refl refl refl refl refl) λ meta. kept _ h refl refl refl refl refl)

  promised-Keeps : (cmd : TransportCmd) (v : Abs) → IsConsistent v → Keeps (promised cmd v)
  unfolding promised
  promised-Keeps stop = stop_contract-Keeps
  promised-Keeps play = play_contract-Keeps
  promised-Keeps pause = pause_contract-Keeps
  promised-Keeps seek = seek_contract-Keeps
  promised-Keeps setavtransporturi = set_uri_contract-Keeps
  promised-Keeps setnextavtransporturi = set_next_uri_contract-Keeps
  promised-Keeps getpositioninfo = answer-Keeps (answers getpositioninfo)
  promised-Keeps gettransportinfo = answer-Keeps (answers gettransportinfo)
  promised-Keeps getcurrenttransportactions = answer-Keeps (answers getcurrenttransportactions)
  promised-Keeps getmediainfo = answer-Keeps (answers getmediainfo)
  promised-Keeps gettransportsettings = answer-Keeps (answers gettransportsettings)
  promised-Keeps getdevicecapabilities = answer-Keeps (answers getdevicecapabilities)

  ended :
      (r : Option (ℤ × Abs)) (v : Abs)
      → Keeps r
      → Keeps (((λ _. r) >>= λ rc. on_event (finished rc) >> pure (pos 0)) v)
  ended none v h = tt
  ended (some (rc, w)) v h = kept _ h refl refl refl refl refl

  request_for-Keeps :
      (found : Option TransportCmd) (v : Abs) → IsConsistent v → Keeps (request_for found v)
  unfolding request_for
  request_for-Keeps none v h = kept _ h refl refl refl refl refl
  request_for-Keeps (some cmd) v h = ended (promised cmd (record v { event = started v.event })) v (
      promised-Keeps cmd (record v { event = started v.event }) (kept _ h refl refl refl refl refl))

  pub request-Keeps : (v : Abs) → IsConsistent v → Keeps (request_contract v)
  unfolding request_contract
  request-Keeps v h = request_for-Keeps (command_named v.event.action_name) v h

  duration-IsConsistent :
      (d duration : ℤ) (v : Abs) → IsConsistent v → IsConsistent (duration_shown d duration v)
  unfolding duration_shown
  duration-IsConsistent d duration v h =
      by_test IsConsistent (same_int duration d) h (kept _ h refl refl refl refl refl)

  position-IsConsistent :
      (d position : ℤ) (v : Abs) → IsConsistent v → IsConsistent (position_shown d position v)
  unfolding position_shown
  position-IsConsistent d position v h =
      by_test IsConsistent (same_int (seconds_told position) d) h
        (kept _ h refl refl refl refl refl)

  pub clock-Keeps : (d p : ℤ) (v : Abs) → IsConsistent v → Keeps (clock_contract d p v)
  unfolding clock_contract
  clock-Keeps d p v h =
      by_test Keeps (succeeded (output_get_position v.out).0)
        (position-IsConsistent p (output_get_position v.out).2 _ (
          duration-IsConsistent d (output_get_position v.out).1
            (record v { out = (output_get_position v.out).3 }) (kept _ h refl refl refl refl refl)))
        (kept _ h refl refl refl refl refl)
