-- ===== src/Transport/Consistency.antt =====
-- A condition on the variables of the transport that each contract keeps.
pub mod Contracts
use mathlib.Core.Path.{subst}
use gmrender_resurrect.Transport.Table.{transport_table}
use gmrender_resurrect.Prelude.{
  inl, inr, ◌≡◌, ◌⊎◌, refl, sym, ap, ◌∙◌, arith, Bool, true, false, [], Option, none, some,
  if◌then◌else◌,
}
use gmrender_resurrect.Prelude.Text.{Bytes, codes, str_eq, str_eq-eq, is_empty}
use gmrender_resurrect.Prelude.Int.{ℤ}
use gmrender_resurrect.XmlDoc.{Ixml}
use gmrender_resurrect.ActionEvent.{Upnp}
use gmrender_resurrect.Output.{OutputModule, output_stop, output_play, output_pause, output_seek}
use gmrender_resurrect.Transport.{
  TransportState, stopped, playing, transitioning, paused_playback, paused_recording, recording,
  no_media_present, state_name,
}
use gmrender_resurrect.Transport.Variables
use gmrender_resurrect.Transport.Variables.{
  rel_time_pos, zero_time, next_av_uri, cur_transport_actions, av_uri, nr_tracks,
}
use gmrender_resurrect.Transport.Feedback.{
  PlayFeedback, play_stopped, play_started_next_stream, succeeded,
}
use gmrender_resurrect.Abstract.{Abs}
use gmrender_resurrect.Transport.Contract.{
  tracks_of, allowed_actions, put, at, with_state, with_transport_uri, with_current_uri, entered,
  stop_in, start_in, play_in, pause_in, set_uri_in, seek_in, feedback_in,
}

-- The states that the renderer takes.
abbrev pub IsUsed : TransportState → Type 0
IsUsed stopped = Unit
IsUsed playing = Unit
IsUsed paused_playback = Unit
IsUsed _ = ⊥

-- What CurrentTransportActions may say in a state.
abbrev pub Offers : TransportState → Bytes → Type 0
Offers stopped actions = (actions ≡ codes "PLAY") ⊎ (actions ≡ codes "PLAY,SEEK")
Offers playing actions = actions ≡ codes "PAUSE,STOP,SEEK"
Offers paused_playback actions = actions ≡ codes "PLAY,STOP,SEEK"
Offers _ actions = ⊥

same_offer : {a b : TransportState} {s t : Bytes} → a ≡ b → s ≡ t → Offers b t → Offers a s
same_offer {a = a} {t = t} p q h = subst (Offers a) (sym q) (subst (λ c. Offers c t) (sym p) h)

-- The state with a name.
state_named : Bytes → TransportState
state_named text =
    if str_eq text (codes "STOPPED")
    then stopped
    else if str_eq text (codes "PLAYING")
    then playing
    else if str_eq text (codes "TRANSITIONING")
    then transitioning
    else if str_eq text (codes "PAUSED_PLAYBACK")
    then paused_playback
    else if str_eq text (codes "PAUSED_RECORDING")
    then paused_recording
    else if str_eq text (codes "RECORDING")
    then recording
    else no_media_present

state_named-state_name : (state : TransportState) → state_named (state_name state) ≡ state
unfolding state_named str_eq
state_named-state_name stopped = refl
state_named-state_name playing = refl
state_named-state_name transitioning = refl
state_named-state_name paused_playback = refl
state_named-state_name paused_recording = refl
state_named-state_name recording = refl
state_named-state_name no_media_present = refl

state_name_inj : (a b : TransportState) → state_name a ≡ state_name b → a ≡ b
state_name_inj a b e = sym (state_named-state_name a) ∙ ap state_named e ∙ state_named-state_name b

either_play :
    (b : Bool)
    → ((if b then codes "PLAY" else codes "PLAY,SEEK") ≡ codes "PLAY")
      ⊎ ((if b then codes "PLAY" else codes "PLAY,SEEK") ≡ codes "PLAY,SEEK")
either_play true = inl refl
either_play false = inr refl

allowed-Offers :
    (state : TransportState) (uri : Bytes) → IsUsed state → Offers state (allowed_actions state uri)
unfolding allowed_actions
allowed-Offers stopped uri used = either_play (is_empty uri)
allowed-Offers playing uri used = refl
allowed-Offers paused_playback uri used = refl
allowed-Offers transitioning uri used = absurd used
allowed-Offers paused_recording uri used = absurd used
allowed-Offers recording uri used = absurd used
allowed-Offers no_media_present uri used = absurd used

module _ ⦃x : Ixml⦄ ⦃u : Upnp⦄ ⦃o : OutputModule⦄ where
  -- TransportState shows the state, NumberOfTracks tells whether there is a URI, and
  -- CurrentTransportActions fits the state.
  pub record IsConsistent (v : Abs) : Type 0 where
    pub used : IsUsed v.state
    pub state_shown : at Variables.transport_state v.var ≡ state_name v.state
    pub tracks_shown : at nr_tracks v.var ≡ tracks_of (at av_uri v.var)
    pub actions_shown : Offers v.state (at cur_transport_actions v.var)

  entered-Offers :
      (state : TransportState) (v : Abs)
      → IsUsed state
      → IsConsistent v
      → Offers state (at cur_transport_actions (with_state state v.var))
  unfolding with_state
  entered-Offers state v used h =
      go (str_eq (state_name state) (at Variables.transport_state v.var)) refl
    where
      go :
          (b : Bool)
          → str_eq (state_name state) (at Variables.transport_state v.var) ≡ b
          → Offers state (
              at cur_transport_actions (
                if b
                then put Variables.transport_state (state_name state) v.var
                else put cur_transport_actions
                    (allowed_actions state (at av_uri v.var))
                    (put Variables.transport_state (state_name state) v.var)))
      go true e =
          same_offer (state_name_inj state v.state (str_eq-eq _ _ e ∙ h.state_shown)) refl
            h.actions_shown
      go false e = allowed-Offers state (at av_uri v.var) used

  entered-IsConsistent :
      (state : TransportState) (v : Abs)
      → IsUsed state
      → IsConsistent v
      → IsConsistent (entered state v)
  unfolding with_state
  entered-IsConsistent state v used h = record {
    used = used;
    state_shown = ground arith;
    tracks_shown = ground (arith, h.tracks_shown);
    actions_shown = entered-Offers state v used h;
  }

  -- The invariant reads the state and four of the variables.
  pub kept :
      {v : Abs} (w : Abs)
      → IsConsistent v
      → w.state ≡ v.state
      → at Variables.transport_state w.var ≡ at Variables.transport_state v.var
      → at nr_tracks w.var ≡ at nr_tracks v.var
      → at av_uri w.var ≡ at av_uri v.var
      → at cur_transport_actions w.var ≡ at cur_transport_actions v.var
      → IsConsistent w
  kept w h s a b c d = record {
    used = subst IsUsed (sym s) h.used;
    state_shown = a ∙ h.state_shown ∙ ap state_name (sym s);
    tracks_shown = b ∙ h.tracks_shown ∙ ap tracks_of (sym c);
    actions_shown = same_offer s d h.actions_shown;
  }

  -- A result whose state is consistent, if there is one.
  abbrev pub Keeps : {A : Type 0} → Option (A × Abs) → Type 0
  Keeps none = Unit
  Keeps (some (a, w)) = IsConsistent w

  stopping :
      (v : Abs)
      → IsConsistent v
      → IsConsistent (entered stopped (record v { out = (output_stop v.out).1 }))
  stopping v h =
      entered-IsConsistent stopped (record v { out = (output_stop v.out).1 }) tt
        (kept _ h refl refl refl refl refl)

  pub stop_in-IsConsistent :
      (state : TransportState) (v : Abs) → IsConsistent v → IsConsistent (stop_in state v)
  unfolding stop_in
  stop_in-IsConsistent stopped v h = h
  stop_in-IsConsistent no_media_present v h = kept _ h refl refl refl refl refl
  stop_in-IsConsistent playing v h = stopping v h
  stop_in-IsConsistent transitioning v h = stopping v h
  stop_in-IsConsistent paused_playback v h = stopping v h
  stop_in-IsConsistent paused_recording v h = stopping v h
  stop_in-IsConsistent recording v h = stopping v h

  pub by_test :
      {A : Type 0} (P : A → Type 0) (b : Bool) {p q : A} → P p → P q → P (if b then p else q)
  by_test P true h k = h
  by_test P false h k = k

  pub by_option :
      {A B : Type 0} (P : B → Type 0) (r : Option A) {n : B} {f : A → B}
      → P n
      → ((a : A) → P (f a))
      → P (elim r [ none ↦ n | some a ↦ f a ])
  by_option P none h k = h
  by_option P (some a) h k = k a

  abbrev pub After : ℤ × Abs → Type 0
  After (rc, w) = IsConsistent w

  start_in-IsConsistent : (v : Abs) → IsConsistent v → After (start_in v)
  unfolding start_in
  start_in-IsConsistent v h =
      by_test After (succeeded (output_play v.out).0)
        (kept _ (entered-IsConsistent playing v tt h) refl refl refl refl refl)
        (kept _ h refl refl refl refl refl)

  pub play_in-IsConsistent :
      (state : TransportState) (v : Abs) → IsConsistent v → After (play_in state v)
  unfolding play_in
  play_in-IsConsistent playing v h = h
  play_in-IsConsistent stopped v h =
      start_in-IsConsistent (record v { var = put rel_time_pos zero_time v.var })
        (kept _ h refl refl refl refl refl)
  play_in-IsConsistent paused_playback v h = start_in-IsConsistent v h
  play_in-IsConsistent transitioning v h = kept _ h refl refl refl refl refl
  play_in-IsConsistent paused_recording v h = kept _ h refl refl refl refl refl
  play_in-IsConsistent recording v h = kept _ h refl refl refl refl refl
  play_in-IsConsistent no_media_present v h = kept _ h refl refl refl refl refl

  pub pause_in-IsConsistent :
      (state : TransportState) (v : Abs) → IsConsistent v → After (pause_in state v)
  unfolding pause_in
  pause_in-IsConsistent paused_playback v h = h
  pause_in-IsConsistent playing v h =
      by_test After (succeeded (output_pause v.out).0)
        (entered-IsConsistent paused_playback (record v { out = (output_pause v.out).1 }) tt
          (kept _ h refl refl refl refl refl))
        (kept _ h refl refl refl refl refl)
  pause_in-IsConsistent stopped v h = kept _ h refl refl refl refl refl
  pause_in-IsConsistent transitioning v h = kept _ h refl refl refl refl refl
  pause_in-IsConsistent paused_recording v h = kept _ h refl refl refl refl refl
  pause_in-IsConsistent recording v h = kept _ h refl refl refl refl refl
  pause_in-IsConsistent no_media_present v h = kept _ h refl refl refl refl refl

  -- A new URI comes with its number of tracks.
  new_uri :
      {v : Abs} (w : Abs) (uri : Bytes)
      → IsConsistent v
      → w.state ≡ v.state
      → at Variables.transport_state w.var ≡ at Variables.transport_state v.var
      → at nr_tracks w.var ≡ tracks_of uri
      → at av_uri w.var ≡ uri
      → at cur_transport_actions w.var ≡ at cur_transport_actions v.var
      → IsConsistent w
  new_uri w uri h s a b c d = record {
    used = subst IsUsed (sym s) h.used;
    state_shown = a ∙ h.state_shown ∙ ap state_name (sym s);
    tracks_shown = b ∙ ap tracks_of (sym c);
    actions_shown = same_offer s d h.actions_shown;
  }

  pub set_uri_in-IsConsistent :
      (state : TransportState) (uri meta : Bytes) (v : Abs)
      → IsConsistent v
      → IsConsistent (set_uri_in state uri meta v)
  unfolding set_uri_in
  set_uri_in-IsConsistent stopped uri meta v h = new_uri _ uri h refl refl refl refl refl
  set_uri_in-IsConsistent playing uri meta v h = new_uri _ uri h refl refl refl refl refl
  set_uri_in-IsConsistent transitioning uri meta v h = new_uri _ uri h refl refl refl refl refl
  set_uri_in-IsConsistent paused_playback uri meta v h = new_uri _ uri h refl refl refl refl refl
  set_uri_in-IsConsistent paused_recording uri meta v h = new_uri _ uri h refl refl refl refl refl
  set_uri_in-IsConsistent recording uri meta v h = new_uri _ uri h refl refl refl refl refl
  set_uri_in-IsConsistent no_media_present uri meta v h = new_uri _ uri h refl refl refl refl refl

  pub seek_in-IsConsistent :
      (target : Bytes) (nanos : ℤ) (v : Abs)
      → IsConsistent v
      → IsConsistent (seek_in target nanos v)
  unfolding seek_in
  seek_in-IsConsistent target nanos v h =
      by_test IsConsistent (succeeded (output_seek nanos v.out).0)
        (kept _ h refl refl refl refl refl) (kept _ h refl refl refl refl refl)

  pub feedback_in-IsConsistent :
      (fb : PlayFeedback) (v : Abs) → IsConsistent v → IsConsistent (feedback_in fb v)
  unfolding feedback_in
  feedback_in-IsConsistent play_stopped v h =
      entered-IsConsistent stopped
        (record v { var = with_current_uri [] [] (with_transport_uri [] [] v.var) }) tt
        (new_uri _ [] h refl refl refl refl refl)
  feedback_in-IsConsistent play_started_next_stream v h =
      new_uri _ (at next_av_uri v.var) h refl refl refl refl refl
