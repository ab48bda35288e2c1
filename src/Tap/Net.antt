-- ===== src/Tap/Net.antt =====
-- What h264_tap.c calls and does not implement. `W` is the state of all that.
use myworkspace.Prelude.{ℕ, Bool, List, Option}

-- The result of `send`: the bytes taken, 0 when the peer is gone; that it would block; or any other
-- error.
pub data TapSend : Type 0 where
  took : ℕ → TapSend
  would_block broken : TapSend

-- The result of peeking with `recv`: bytes, the end of the stream, nothing yet (also for EINTR), or an
-- error.
pub data Peek : Type 0 where
  bytes_wait end_of_stream nothing_yet peek_failed : Peek

-- `send` stands for the call and its repetition while it fails with EINTR.
pub record TapNet (W : Type 0) : Type 0 where
  pub realloc : ℕ → W → Bool × W
  pub monotonic_ns : W → ℕ × W
  pub send : Option ℕ → List ℕ → W → TapSend × W
  pub peek : Option ℕ → W → Peek × W
  pub close : Option ℕ → W → W
