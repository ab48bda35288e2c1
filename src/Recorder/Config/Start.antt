-- ===== src/Recorder/Config/Start.antt =====
-- compressed_recorder.c, `compressed_recorder_start`: the state that a start establishes, and what a
-- failed one leaves.
use myworkspace.Prelude.{ℕ, ◌^◌, ◌≤◌, ◌<◌, ◌≡◌, ◌⊎◌, List, Bool, true, false, arith, length}
use myworkspace.Recorder.{Recorder, zero_recorder}
use myworkspace.Recorder.Os.{Os}
use myworkspace.Recorder.Config.{RecorderConfig, Scan, configured_recorder, start_fresh}
use myworkspace.Recorder.Queue.Bounded.{QueueInv}

-- What the writer thread and the network threads rely on.
pub record IsReady (r : Recorder) : Type 0 where
  pub accepts : (r.configured ≡ true) × (r.running ≡ true) × (r.accepting ≡ true)
  pub some_stream : 1 ≤ r.max_streams
  pub streams_fit : r.max_streams ≤ 256
  pub segments : 0 < r.segment_sec
  pub room : 0 < r.queue_limit_bytes
  pub short_dir : length r.raw_dir < 512
  pub queue_ok : QueueInv r

-- A start from a configuration with a queue of at most 2 ^ 63 bytes either succeeds, with the flags
-- set, 1 to 256 streams, positive segment and queue limits, a directory name below 512 bytes and an
-- empty queue, or fails and leaves the cleared recorder.
pub start_fresh-IsReady :
    (scan : List ℕ → Scan) {W : Type 0} (os : Os W) (cfg : RecorderConfig) (cb thread : Bool)
    (w : W)
    → cfg.queue_bytes ≤ 2 ^ 63
    → let out = start_fresh scan os cfg cb thread w in
      ((out.0 ≡ true) × IsReady out.1.1) ⊎ ((out.0 ≡ false) × (out.1.1 ≡ zero_recorder))
unfolding start_fresh configured_recorder
start_fresh-IsReady scan os cfg cb thread w fits = ground arith
