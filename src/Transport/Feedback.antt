-- ===== src/Transport/Feedback.antt =====
-- src/output_module.h and src/upnp_transport.c: how the output reports back.
use gmrender_resurrect.Prelude.{Bool, false, ◌==◌}
use gmrender_resurrect.Prelude.Int.{ℤ, pos, negsuc}

-- `enum PlayFeedback`
pub data PlayFeedback : Type 0 where
  play_stopped play_started_next_stream : PlayFeedback

-- A return code of 0.
abbrev pub succeeded : ℤ → Bool
succeeded (pos n) = n == 0
succeeded (negsuc n) = false
