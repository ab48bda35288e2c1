-- ===== src/Recorder/Os.antt =====
-- What compressed_recorder.c calls and does not implement: the C library, the file system, the
-- clock, and the callback that asks the sender for a keyframe. `W` is the state of all that; an
-- operation returns its result and the next state. No law is assumed of any of them.
use myworkspace.Prelude.{ℕ, Bool, List, Option}
use myworkspace.Recorder.{Recorder, RecorderStream}

-- The `reason` argument of the callback.
pub data Reason : Type 0 where
  record_start record_wait_keyframe record_wait_params record_rollover : Reason
  record_wait_rollover_keyframe record_wait_rollover_params : Reason
  record_write_error record_periodic : Reason

-- The two fields of `struct mntent` that the code reads.
pub record Mount : Type 0 where
  pub mnt_type : List ℕ
  pub mnt_dir : List ℕ

-- `true` means success: for `mkdir` also EEXIST, for `fwrite` that every byte was taken.
-- `stamp` is `localtime_r` with `strftime("%Y%m%d_%H%M%S")`.
pub record Os (W : Type 0) : Type 0 where
  pub malloc : ℕ → W → Bool × W
  pub now_monotonic_ns : W → ℕ × W
  pub mounts : W → Option (List Mount) × W
  pub mkdir : List ℕ → W → Bool × W
  pub stamp : ℕ → List ℕ
  pub fopen : List ℕ → W → Option ℕ × W
  pub fwrite : ℕ → List ℕ → W → Bool × W
  pub fclose : ℕ → W → Bool × W
  pub rename : List ℕ → List ℕ → W → Bool × W
  pub unlink : List ℕ → W → W
  pub request_idr : ℕ → Reason → W → W

-- What a function that takes `CompressedRecorder* r` and `RecorderStream* s` works on. The functions
-- never reach a stream through `r` while they hold `s`, so the two are separate.
pub record Ctx (W : Type 0) : Type 0 where
  pub w : W
  pub r : Recorder
  pub s : RecorderStream
