-- ===== src/Transport/Handlers/Requests.antt =====
-- The handlers that set a URI, seek or answer with variables, and the callback from the output.
use gmrender_resurrect.Transport.Table.{transport_table, Refines-replace_var}
use gmrender_resurrect.Prelude.{refl, arith, Option, none, some}
use gmrender_resurrect.Prelude.Text.{Bytes, codes}
use gmrender_resurrect.Prelude.Int.{ℤ}
use gmrender_resurrect.Prelude.Run.{Run, ◌>>=◌, ◌>>◌, pure}
use gmrender_resurrect.XmlDoc.{Ixml}
use gmrender_resurrect.ActionEvent.{Upnp, request_string}
use gmrender_resurrect.Output.{OutputModule, output_set_uri}
use gmrender_resurrect.Transport.{
  get_state, on_output_void, TransportState, stopped, playing, transitioning, paused_playback,
  paused_recording, recording, no_media_present, Transport, service_lock, service_unlock,
  replace_transport_uri_and_meta, replace_current_uri_and_meta, needs_stream_meta, track_count,
}
use gmrender_resurrect.Transport.Variables.{av_uri, av_uri_meta, nr_tracks}
use gmrender_resurrect.Abstract.{
  Abs, Refines, Refines-eq, Refines-bind, Refines-pure, Refines-deref, Refines-get_state,
  Refines-on_output_void, fault-bind,
}
use gmrender_resurrect.Abstract.Calls.{asked, Refines-get_string}
use gmrender_resurrect.Transport.Contract.{with_current_uri, set_uri_in, set_uri_contract}
use gmrender_resurrect.Transport.Handlers.{ok, failure}
use gmrender_resurrect.Transport.Handlers.Steps.{
  with_instance-Refines, transport_uri_replaced, current_uri_replaced,
}
use gmrender_resurrect.Abstract.Transactions.{IsBlind, transaction}
use gmrender_resurrect.Transport.Handlers.{set_uri_locked, set_avtransport_uri}

module _ ⦃x : Ixml⦄ ⦃u : Upnp⦄ ⦃o : OutputModule⦄ where
  current_if_playing :
      (uri meta : Bytes) (state : TransportState)
      → Refines {A = Unit {0}}
          (elim state [
            | playing ↦ replace_current_uri_and_meta (some uri) (some meta)
            | _ ↦ pure tt
          ])
          (elim state [
            | playing ↦ λ v. some (tt, record v { var = with_current_uri uri meta v.var })
            | _ ↦ pure tt
          ])
  current_if_playing uri meta playing = current_uri_replaced uri meta
  current_if_playing uri meta stopped = Refines-pure tt
  current_if_playing uri meta transitioning = Refines-pure tt
  current_if_playing uri meta paused_playback = Refines-pure tt
  current_if_playing uri meta paused_recording = Refines-pure tt
  current_if_playing uri meta recording = Refines-pure tt
  current_if_playing uri meta no_media_present = Refines-pure tt

  -- `set_uri_locked` with the meta data that the request has.
  uri_with_meta : Bytes → Option Bytes → Transport (Unit {0})
  uri_with_meta uri meta = do
    requires_meta_update ← replace_transport_uri_and_meta (some uri) meta
    state ← get_state
    elim state [ playing ↦ replace_current_uri_and_meta (some uri) meta | _ ↦ pure tt ]
    on_output_void (output_set_uri uri requires_meta_update)

  abbrev uri_in_request : Bytes → Option Bytes → Run Abs (Unit {0})
  uri_in_request uri none v = none
  uri_in_request uri (some meta) v = some (tt, set_uri_in v.state uri meta v)

  no_meta : (uri : Bytes) → Refines (replace_transport_uri_and_meta (some uri) none) (λ v. none)
  unfolding replace_transport_uri_and_meta
  no_meta uri =
      Refines-eq
        (Refines-bind (Refines-replace_var av_uri (some uri) (omega arith)) λ _.
          Refines-bind (Refines-replace_var av_uri_meta none (omega arith)) λ _.
            Refines-bind
              (Refines-replace_var nr_tracks (some (track_count (some uri))) (omega arith))
              λ _. Refines-bind (Refines-deref none) λ text. Refines-pure (needs_stream_meta text))
        (λ v. refl)

  uri_with_meta-Refines :
      (uri : Bytes) (meta : Option Bytes)
      → Refines (uri_with_meta uri meta) (uri_in_request uri meta)
  unfolding uri_with_meta set_uri_in
  uri_with_meta-Refines uri none = fault-bind _ (no_meta uri)
  uri_with_meta-Refines uri (some meta) =
      Refines-eq
        (Refines-bind (transport_uri_replaced uri meta) λ update_meta.
          Refines-bind Refines-get_state λ state.
            Refines-bind (current_if_playing uri meta state)
              λ _. Refines-on_output_void (output_set_uri uri update_meta))
        (λ v. ground arith)

  uri_in_request-IsBlind : (uri : Bytes) (meta : Option Bytes) → IsBlind (uri_in_request uri meta)
  unfolding set_uri_in
  uri_in_request-IsBlind uri none v d = refl
  uri_in_request-IsBlind uri (some meta) v d = ground arith

  abbrev uri_of_request : Bytes → Run Abs (Unit {0})
  uri_of_request uri v = elim (request_string (codes "CurrentURIMetaData") v.event.request) [
    | none ↦ none
    | some meta ↦ some (tt, set_uri_in v.state uri meta v)
  ]

  set_uri_locked-Refines : (uri : Bytes) → Refines (set_uri_locked uri) (uri_of_request uri)
  unfolding set_uri_locked uri_with_meta asked
  set_uri_locked-Refines uri =
      Refines-eq
        (Refines-bind (Refines-get_string (codes "CurrentURIMetaData")) (uri_with_meta-Refines uri))
        (λ v. ground arith)

  uri_of_request-IsBlind : (uri : Bytes) → IsBlind (uri_of_request uri)
  unfolding set_uri_in
  uri_of_request-IsBlind uri v d = ground arith

  set_uri_answered :
      (value : Option Bytes)
      → Refines {A = ℤ}
          (elim value [
            | none ↦ pure failure
            | some text ↦ service_lock >> (set_uri_locked text >> (service_unlock >> pure ok))
          ])
          (elim value [ none ↦ pure failure | some uri ↦ uri_of_request uri >>= λ _. pure ok ])
  set_uri_answered none = Refines-pure failure
  set_uri_answered (some uri) =
      transaction (λ _. ok) (set_uri_locked-Refines uri) (uri_of_request-IsBlind uri)

  pub set_avtransport_uri-Refines : Refines set_avtransport_uri set_uri_contract
  unfolding set_avtransport_uri set_uri_contract asked
  set_avtransport_uri-Refines = with_instance-Refines (
      Refines-eq (Refines-bind (Refines-get_string (codes "CurrentURI")) set_uri_answered)
        (λ v. ground arith))
