-- ===== src/Stream/Shutdown.antt =====
-- stream.c: the end of the table, and a decoding thread's look at its queue.
use myworkspace.Prelude.{
  ℕ, zero, suc, ◌+◌, ◌≤◌, ◌<◌, ◌≡◌, List, Option, none, some, Bool, true, false, ◌==◌,
  if◌then◌else◌, if-holds, arith, refl, length, Bool-cases, inl, inr,
}
use myworkspace.Stream.{StreamManager, StreamContext, StressQueue}
use myworkspace.Stream.Env.{StreamEnv}
use myworkspace.Stream.Decoder.{stream_close_decoder}
use myworkspace.Stream.Table.{put_stream}
use myworkspace.Stream.Stress.{stop_stress_test}

module _ {W : Type 0} (env : StreamEnv W) where
  -- The loop over the streams from `i` on, `rounds` of them.
  unfoldable pub close_streams : ℕ → ℕ → StreamManager → W → StreamManager × W
  close_streams zero i mgr w = (mgr, w)
  close_streams (suc rounds) i mgr w =
      let (s, w1) = stream_close_decoder env (mgr.streams (i + 1)) w in
      close_streams rounds (i + 1) (put_stream mgr (i + 1) s) w1

  unfoldable pub stream_manager_destroy : StreamManager → W → StreamManager × W
  stream_manager_destroy mgr w =
      let (mgr1, w1) = stop_stress_test env mgr w in
      if mgr.stress_test.enabled
      then close_streams mgr1.max_streams 0 mgr1 w1
      else close_streams mgr.max_streams 0 mgr w

  taken : StressQueue → Bool × W → Option (List ℕ) × (StressQueue × W)
  taken q (true, w) = (some q.queue_data, (record q { ready = false }, w))
  taken q (false, w) = (none, (record q { ready = false }, w))

  -- What a thread takes when it has been woken with data ready; without memory the frame is dropped.
  unfoldable pub fetch_queue : StressQueue → W → Option (List ℕ) × (StressQueue × W)
  unfolding taken
  fetch_queue q w =
      if q.ready then taken q (env.realloc (length q.queue_data) w) else (none, (q, w))

  -- A slot of the table has no decoder.
  abbrev IsClosed : StreamContext → Type 0
  IsClosed s = (s.decoder_ctx ≡ none) × (s.decoder_initialized ≡ false)

  close_streams-keeps :
      (rounds i id : ℕ) (mgr : StreamManager) (w : W)
      → IsClosed (mgr.streams id)
      → IsClosed ((close_streams rounds i mgr w).0.streams id)
  unfolding close_streams stream_close_decoder
  close_streams-keeps zero i id mgr w closed = closed
  close_streams-keeps (suc rounds) i id mgr w closed =
      let (s, w1) = stream_close_decoder env (mgr.streams (i + 1)) w in
      close_streams-keeps rounds (i + 1) id (put_stream mgr (i + 1) s) w1
        (if-holds IsClosed (i + 1 == id) s (mgr.streams id) (λ e. (refl, refl)) (λ e. closed))

  -- Every slot that the loop passes is left without a decoder.
  pub close_streams-IsClosed :
      (rounds i id : ℕ) (mgr : StreamManager) (w : W)
      → i < id
      → id ≤ i + rounds
      → IsClosed ((close_streams rounds i mgr w).0.streams id)
  unfolding close_streams stream_close_decoder
  close_streams-IsClosed zero i id mgr w above below = absurd (omega arith)
  close_streams-IsClosed (suc rounds) i id mgr w above below =
      let (s, w1) = stream_close_decoder env (mgr.streams (i + 1)) w in
      elim (Bool-cases (i + 1 == id)) [
        | inl e ↦ close_streams-keeps rounds (i + 1) id (put_stream mgr (i + 1) s) w1 (
            if-holds IsClosed (i + 1 == id) s (mgr.streams id) (λ here. (refl, refl))
              (λ other. absurd (ground arith)))
        | inr e ↦
            close_streams-IsClosed rounds (i + 1) id (put_stream mgr (i + 1) s) w1 (ground arith)
              (omega arith)
      ]
