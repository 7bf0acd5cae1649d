-- ===== src/Transport/Handlers/Callbacks.antt =====
-- The next URI, seeking, the answers that list variables, and the callback from the output.
use gmrender_resurrect.Transport.Table.{transport_table, read_two}
use mathlib.Core.Path.{subst}
use gmrender_resurrect.Prelude.{refl, arith, Option, none, some, [], if◌then◌else◌}
use gmrender_resurrect.Transport.Time.Named.{time_named, time_named-eq}
use gmrender_resurrect.Transport.Time.{parse_upnp_time}
use gmrender_resurrect.Prelude.Text.{Bytes, codes, str_eq}
use gmrender_resurrect.Prelude.Int.{ℤ}
use gmrender_resurrect.Prelude.Run.{Run, ◌>>=◌, ◌>>◌, pure, deref}
use gmrender_resurrect.XmlDoc.{Ixml}
use gmrender_resurrect.ActionEvent.{Upnp, upnp_get_string, request_string}
use gmrender_resurrect.Output.{OutputModule, output_seek, output_set_next_uri}
use gmrender_resurrect.Transport.{
  service_lock, service_unlock, replace_var, replace_transport_uri_and_meta,
  replace_current_uri_and_meta,
}
use gmrender_resurrect.Transport.Variables.{next_av_uri, next_av_uri_meta, rel_time_pos}
use gmrender_resurrect.Abstract.{
  Abs, Refines, Refines-eq, Refines-bind, Refines-pure, Refines-if, Refines-on_output,
  Refines-on_output_void, Refines-fault,
}
use gmrender_resurrect.Abstract.Calls.{asked, Refines-get_string}
use gmrender_resurrect.Transport.Contract.{
  put, with_transport_uri, with_current_uri, set_next_uri_contract, seek_in, seek_contract,
  feedback_in,
}
use gmrender_resurrect.Transport.Handlers.{ok, failure}
use gmrender_resurrect.Transport.Feedback.{
  PlayFeedback, play_stopped, play_started_next_stream, succeeded,
}
use gmrender_resurrect.Transport.Handlers.Steps.{
  with_instance-Refines, enter_stopped, replace-step, transport_uri_replaced, current_uri_replaced,
}
use gmrender_resurrect.Abstract.Transactions.{step, IsBlind, transaction, transaction_last}
use gmrender_resurrect.Transport.Handlers.{
  set_next_locked, set_next_avtransport_uri, seek_locked, seek, feedback_locked,
  inform_play_transition_from_output,
}

module _ ⦃x : Ixml⦄ ⦃u : Upnp⦄ ⦃o : OutputModule⦄ where
  next_meta_stored :
      (value : Option Bytes)
      → Refines {A = ℤ}
          (elim value [
            | none ↦ pure failure
            | some meta ↦ replace_var next_av_uri_meta (some meta) >> pure ok
          ])
          (elim value [
            | none ↦ pure failure
            | some meta ↦ λ v. some (ok, record v { var = put next_av_uri_meta meta v.var })
          ])
  next_meta_stored none = Refines-pure failure
  next_meta_stored (some meta) = replace-step next_av_uri_meta meta (omega arith) (Refines-pure ok)

  abbrev next_of_request : Bytes → Run Abs ℤ
  next_of_request uri v =
      let v' = record v { out = output_set_next_uri uri v.out; var = put next_av_uri uri v.var } in
      elim (request_string (codes "NextURIMetaData") v.event.request) [
        | none ↦ some (failure, record v' { event = asked (codes "NextURIMetaData") v.event })
        | some meta ↦ some (ok, record v' { var = put next_av_uri_meta meta v'.var })
      ]

  set_next_locked-Refines : (uri : Bytes) → Refines (set_next_locked uri) (next_of_request uri)
  unfolding set_next_locked asked
  set_next_locked-Refines uri =
      Refines-eq
        (Refines-bind (Refines-on_output_void (output_set_next_uri uri)) λ _.
          replace-step next_av_uri uri (omega arith)
            (Refines-bind (Refines-get_string (codes "NextURIMetaData")) next_meta_stored))
        (λ v. ground arith)

  next_of_request-IsBlind : (uri : Bytes) → IsBlind (next_of_request uri)
  next_of_request-IsBlind uri v d = ground arith

  set_next_answered :
      (value : Option Bytes)
      → Refines {A = ℤ}
          (elim value [
            | none ↦ pure failure
            | some text ↦ service_lock >> (set_next_locked text >>= λ rc. service_unlock >> pure rc)
          ])
          (elim value [ none ↦ pure failure | some uri ↦ next_of_request uri >>= λ rc. pure rc ])
  set_next_answered none = Refines-pure failure
  set_next_answered (some uri) =
      transaction (λ rc. rc) (set_next_locked-Refines uri) (next_of_request-IsBlind uri)

  pub set_next_avtransport_uri-Refines : Refines set_next_avtransport_uri set_next_uri_contract
  unfolding set_next_avtransport_uri set_next_uri_contract asked
  set_next_avtransport_uri-Refines = with_instance-Refines (
      Refines-eq (Refines-bind (Refines-get_string (codes "NextURI")) set_next_answered)
        (λ v. ground arith))

  seek_locked-Refines :
      (target : Bytes) (nanos : ℤ)
      → Refines (seek_locked target nanos) (step (seek_in target nanos))
  unfolding seek_locked seek_in
  seek_locked-Refines target nanos =
      Refines-eq
        (Refines-bind (Refines-on_output (output_seek nanos)) λ rc.
          Refines-if (succeeded rc)
            (replace-step rel_time_pos target (omega arith) (Refines-pure tt)) (Refines-pure tt))
        (λ v. ground arith)

  seek_in-IsBlind : (target : Bytes) (nanos : ℤ) → IsBlind (step (seek_in target nanos))
  unfolding seek_in
  seek_in-IsBlind target nanos v d = ground arith

  seek_after :
      (text : Bytes) (named : Option ℤ)
      → Refines {A = ℤ}
          (deref named >>= λ nanos.
            service_lock >> (seek_locked text nanos >> (service_unlock >> pure ok)))
          (elim named [ none ↦ (λ v. none) | some nanos ↦ (step (seek_in text nanos) >> pure ok) ])
  seek_after text none = Refines-fault (λ v. refl) (λ s. refl)
  seek_after text (some nanos) =
      transaction (λ _. ok) (seek_locked-Refines text nanos) (seek_in-IsBlind text nanos)

  seek_named :
      (text : Bytes)
      → Refines {A = ℤ}
          (deref (parse_upnp_time text) >>= λ nanos.
            service_lock >> (seek_locked text nanos >> (service_unlock >> pure ok)))
          (elim (time_named text) [
            | none ↦ (λ v. none)
            | some nanos ↦ (step (seek_in text nanos) >> pure ok)
          ])
  seek_named text =
      subst
        (λ r.
          Refines {A = ℤ}
            (deref (parse_upnp_time text) >>= λ nanos.
              service_lock >> (seek_locked text nanos >> (service_unlock >> pure ok)))
            (elim r [ none ↦ (λ v. none) | some nanos ↦ (step (seek_in text nanos) >> pure ok) ]))
        (time_named-eq text) (seek_after text (parse_upnp_time text))

  seek_to :
      (target : Option Bytes)
      → Refines {A = ℤ}
          (deref target >>= λ text. deref (parse_upnp_time text) >>= λ nanos.
            service_lock >> (seek_locked text nanos >> (service_unlock >> pure ok)))
          (elim target [
            | none ↦ (λ v. none)
            | some text ↦ elim (time_named text) [
              | none ↦ (λ v. none)
              | some nanos ↦ (step (seek_in text nanos) >> pure ok)
            ]
          ])
  seek_to none = Refines-fault (λ v. refl) (λ s. refl)
  seek_to (some text) = seek_named text

  seek_by :
      (unit : Option Bytes)
      → Refines {A = ℤ}
          (deref unit >>= λ mode.
            if str_eq mode (codes "REL_TIME")
            then (upnp_get_string (codes "Target") >>= λ target. deref target >>= λ text.
                deref (parse_upnp_time text) >>= λ nanos.
                service_lock >> (seek_locked text nanos >> (service_unlock >> pure ok)))
            else pure ok)
          (elim unit [
            | none ↦ (λ v. none)
            | some mode ↦
                if str_eq mode (codes "REL_TIME")
                then (λ v. elim (request_string (codes "Target") v.event.request) [
                  | none ↦ none
                  | some target ↦ elim (time_named target) [
                    | none ↦ none
                    | some nanos ↦ some (ok, seek_in target nanos v)
                  ]
                ])
                else pure ok
          ])
  unfolding asked
  seek_by none = Refines-fault (λ v. refl) (λ s. refl)
  seek_by (some mode) =
      Refines-if (str_eq mode (codes "REL_TIME"))
        (Refines-eq (Refines-bind (Refines-get_string (codes "Target")) seek_to)
          (λ v. ground arith))
        (Refines-pure ok)

  pub seek-Refines : Refines seek seek_contract
  unfolding seek seek_contract asked
  seek-Refines =
      with_instance-Refines
        (Refines-eq (Refines-bind (Refines-get_string (codes "Unit")) seek_by) (λ v. ground arith))

  feedback_locked-Refines :
      (fb : PlayFeedback) → Refines (feedback_locked fb) (step (feedback_in fb))
  unfolding feedback_locked feedback_in
  feedback_locked-Refines play_stopped =
      Refines-bind (transport_uri_replaced [] [])
        λ _. Refines-bind (current_uri_replaced [] []) λ _. enter_stopped
  feedback_locked-Refines play_started_next_stream =
      read_two next_av_uri next_av_uri_meta (omega arith) (omega arith)
        (λ uri meta. do
          replace_transport_uri_and_meta uri meta
          replace_current_uri_and_meta uri meta
          replace_var next_av_uri (some [])
          replace_var next_av_uri_meta (some [])
          pure tt)
        (λ uri meta. step λ v. record v {
          var =
              put next_av_uri_meta [] (
                put next_av_uri [] (with_current_uri uri meta (with_transport_uri uri meta v.var)));
        })
        λ uri meta. Refines-bind (transport_uri_replaced uri meta) λ _.
          Refines-bind (current_uri_replaced uri meta) λ _.
            replace-step next_av_uri [] (omega arith)
              (replace-step next_av_uri_meta [] (omega arith) (Refines-pure tt))

  feedback_in-IsBlind : (fb : PlayFeedback) → IsBlind (step (feedback_in fb))
  unfolding feedback_in
  feedback_in-IsBlind fb v d = ground arith

  pub inform_play_transition-Refines :
      (fb : PlayFeedback)
      → Refines (inform_play_transition_from_output fb) (λ v. some (tt, feedback_in fb v))
  unfolding inform_play_transition_from_output
  inform_play_transition-Refines fb =
      transaction_last (feedback_locked-Refines fb) (feedback_in-IsBlind fb)
