-- ===== src/Transport/Handlers/Steps.antt =====
-- The parts of the handlers on the abstract state: the check of the InstanceID, a change of the
-- transport state, the new URIs, and the transaction around a handler.
use gmrender_resurrect.Transport.Table.{transport_table, Refines-get_var, Refines-replace_var, lc}
use gmrender_resurrect.Prelude.{
  ℕ, ◌∷◌, [], ap, ◌∙◌, ◌≡◌, ◌≢◌, refl, arith, Bool, true, false, Option, none, some, ◌++◌, ltb,
  if◌then◌else◌,
}
use gmrender_resurrect.Prelude.Text.{Bytes, codes, is_empty}
use gmrender_resurrect.Prelude.Int.{ℤ, negsuc}
use gmrender_resurrect.Prelude.Run.{Run, ◌>>◌, pure}
use gmrender_resurrect.XmlDoc.{Ixml}
use gmrender_resurrect.ActionEvent.{Upnp, has_instance_id, upnp_set_error}
use gmrender_resurrect.Output.{OutputModule}
use gmrender_resurrect.Transport.{
  TransportState, stopped, playing, paused_playback, no_media_present, Transport, state_name,
  state_num, replace_actions, available_actions, change_transport_state, replace_var,
  replace_transport_uri_and_meta, replace_current_uri_and_meta, needs_stream_meta, track_count,
}
use gmrender_resurrect.Transport.Variables
use gmrender_resurrect.Transport.Variables.{
  TransportVariable, variable_num, av_uri, av_uri_meta, nr_tracks, cur_transport_actions, cur_track,
  cur_track_uri, cur_track_meta,
}
use gmrender_resurrect.Abstract.{
  Abs, Refines, Refines-eq, Refines-bind, Refines-pure, Refines-deref, Refines-assert, Refines-if,
  Refines-set_state,
}
use gmrender_resurrect.Abstract.Calls.{Refines-set_error, asked, refused, Refines-get_string}
use gmrender_resurrect.Abstract.Transactions.{step}
use gmrender_resurrect.Transport.Contract.{
  allowed_actions, put, at, with_transport_uri, with_current_uri, with_state, entered,
  needs_instance, not_allowed, tracks_of, wants_stream_meta,
}
use gmrender_resurrect.Transport.Handlers.{with_instance, transition_error}

module _ ⦃x : Ixml⦄ ⦃u : Upnp⦄ ⦃o : OutputModule⦄ where
  instance_checked :
      (value : Option Bytes)
      → Refines {A = Bool}
          (elim value [
            | none ↦ upnp_set_error 402 (codes "Missing InstanceID") >> pure false
            | some _ ↦ pure true
          ])
          (elim value [
            | none ↦
                (λ v. some (tt, record v { event = refused (codes "Missing InstanceID") v.event }))
                >> pure false
            | some _ ↦ pure true
          ])
  instance_checked none =
      Refines-bind (Refines-set_error 402 (codes "Missing InstanceID")) (λ _. Refines-pure false)
  instance_checked (some _) = Refines-pure true

  pub with_instance-Refines :
      {m : Transport ℤ} {f : Run Abs ℤ} → Refines m f → Refines (with_instance m) (needs_instance f)
  unfolding with_instance has_instance_id asked
  with_instance-Refines {f = f} r =
      Refines-eq
        (Refines-bind (Refines-bind (Refines-get_string (codes "InstanceID")) instance_checked)
          (λ has. Refines-if has r (Refines-pure (negsuc 0))))
        (λ v. ground arith)

  replace_actions-Refines :
      (actions : Option Bytes)
      → Refines (replace_actions actions) (elim actions [
        | none ↦ pure tt
        | some a ↦ λ v. some (tt, record v { var = put cur_transport_actions a v.var })
      ])
  unfolding replace_actions
  replace_actions-Refines none = Refines-pure tt
  replace_actions-Refines (some a) =
      Refines-bind (Refines-replace_var cur_transport_actions (some a) (omega arith))
        (λ _. Refines-pure tt)

  abbrev read : TransportVariable → Run Abs (Option Bytes)
  read v a = some (some (a.var (variable_num v)), a)

  -- The actions of a state, read off the abstract variables.
  abbrev offered : TransportState → Run Abs (Option Bytes)
  offered state v = some (some (allowed_actions state (at av_uri v.var)), v)

  stopped-offered : Refines (available_actions stopped) (offered stopped)
  unfolding available_actions allowed_actions
  stopped-offered =
      Refines-eq
        (Refines-bind (Refines-get_var av_uri (omega arith)) λ uri.
          Refines-bind (Refines-deref uri)
            λ text. Refines-pure (some (if is_empty text then codes "PLAY" else codes "PLAY,SEEK")))
        (λ v. refl)

  playing-offered : Refines (available_actions playing) (offered playing)
  unfolding available_actions allowed_actions
  playing-offered = Refines-pure (some (codes "PAUSE,STOP,SEEK"))

  paused-offered : Refines (available_actions paused_playback) (offered paused_playback)
  unfolding available_actions allowed_actions
  paused-offered = Refines-pure (some (codes "PLAY,STOP,SEEK"))

  change_transport_state-Refines :
      (state : TransportState)
      → ltb (state_num state) (state_num no_media_present) ≡ true
      → Refines (available_actions state) (offered state)
      → Refines (change_transport_state state) (λ v. some (tt, entered state v))
  unfolding change_transport_state with_state
  change_transport_state-Refines state used r =
      Refines-eq
        (Refines-bind (Refines-set_state state) λ _.
          Refines-bind (Refines-assert (ltb (state_num state) (state_num no_media_present))) λ _.
            Refines-bind
              (Refines-replace_var Variables.transport_state (some (state_name state))
                (omega arith))
              λ changed.
                Refines-if changed (Refines-bind r replace_actions-Refines) (Refines-pure tt))
        (λ v. ground arith)

  pub enter_stopped : Refines (change_transport_state stopped) (λ v. some (tt, entered stopped v))
  enter_stopped = change_transport_state-Refines stopped refl stopped-offered

  pub enter_playing : Refines (change_transport_state playing) (λ v. some (tt, entered playing v))
  enter_playing = change_transport_state-Refines playing refl playing-offered

  pub enter_paused :
      Refines (change_transport_state paused_playback) (λ v. some (tt, entered paused_playback v))
  enter_paused = change_transport_state-Refines paused_playback refl paused-offered

  pub replace-step :
      (var : TransportVariable) (value : Bytes)
      → variable_num var ≢ lc
      → {A : Type 0} {m : Transport A} {f : Run Abs A} → Refines m f
      → Refines
          (replace_var var (some value) >> m)
          (λ v. f (record v { var = put var value v.var }))
  replace-step var value ne r =
      Refines-eq (Refines-bind (Refines-replace_var var (some value) ne) λ _. r) (λ v. refl)

  tracks_of-eq : (uri : Bytes) → track_count (some uri) ≡ tracks_of uri
  tracks_of-eq [] = refl
  tracks_of-eq (c ∷ uri) = refl

  wants_stream_meta-eq : (meta : Bytes) → needs_stream_meta meta ≡ wants_stream_meta meta
  unfolding needs_stream_meta wants_stream_meta
  wants_stream_meta-eq [] = refl
  wants_stream_meta-eq (c ∷ meta) = ground arith

  counted_tracks :
      (uri meta : Bytes) (f : ℕ → Bytes)
      → put nr_tracks (track_count (some uri)) (put av_uri_meta meta (put av_uri uri f))
        ≡ with_transport_uri uri meta f
  counted_tracks uri meta f =
      ap (λ c. put nr_tracks c (put av_uri_meta meta (put av_uri uri f))) (tracks_of-eq uri)

  counted_current :
      (uri meta : Bytes) (f : ℕ → Bytes)
      → put cur_track_meta meta (put cur_track_uri uri (put cur_track (track_count (some uri)) f))
        ≡ with_current_uri uri meta f
  counted_current uri meta f =
      ap (λ c. put cur_track_meta meta (put cur_track_uri uri (put cur_track c f)))
        (tracks_of-eq uri)

  pub transport_uri_replaced :
      (uri meta : Bytes)
      → Refines
          (replace_transport_uri_and_meta (some uri) (some meta))
          (λ v. some (wants_stream_meta meta, record v { var = with_transport_uri uri meta v.var }))
  unfolding replace_transport_uri_and_meta
  transport_uri_replaced uri meta =
      Refines-eq
        (replace-step av_uri uri (omega arith) (
          replace-step av_uri_meta meta (omega arith) (
            replace-step nr_tracks (track_count (some uri)) (omega arith)
              (Refines-pure (needs_stream_meta meta)))))
        (λ v.
          ap
            (λ b. some (
              b,
              record v {
                var =
                    put nr_tracks (track_count (some uri))
                      (put av_uri_meta meta (put av_uri uri v.var));
              },
            ))
            (wants_stream_meta-eq meta)
          ∙ ap (λ f. some (wants_stream_meta meta, record v { var = f }))
              (counted_tracks uri meta v.var))

  pub current_uri_replaced :
      (uri meta : Bytes)
      → Refines
          (replace_current_uri_and_meta (some uri) (some meta))
          (λ v. some (tt, record v { var = with_current_uri uri meta v.var }))
  unfolding replace_current_uri_and_meta
  current_uri_replaced uri meta =
      Refines-eq
        (replace-step cur_track (track_count (some uri)) (omega arith) (
          replace-step cur_track_uri uri (omega arith)
            (replace-step cur_track_meta meta (omega arith) (Refines-pure tt))))
        (λ v. ap (λ f. some (tt, record v { var = f })) (counted_current uri meta v.var))

  pub transition_refused :
      (what : Bytes) → Refines (transition_error what) (step (not_allowed what))
  unfolding transition_error
  transition_refused what =
      Refines-eq
        (Refines-bind (Refines-get_var cur_transport_actions (omega arith)) λ allowed.
          Refines-bind (Refines-deref allowed) λ text.
            Refines-set_error 701
              (codes "Transition to " ++ what ++ codes " not allowed; allowed=" ++ text))
        (λ v. refl)
