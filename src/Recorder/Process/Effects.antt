-- ===== src/Recorder/Process/Effects.antt =====
-- compressed_recorder.c: what each helper of `process_video` leaves alone in the stream.
use myworkspace.Prelude.{ℕ, List, none, Bool, true, false, ◌≡◌, ◌⊎◌, arith, is_some}
use myworkspace.Recorder.{RecorderStream}
use myworkspace.Recorder.Os.{Os, Ctx, Reason}
use myworkspace.Recorder.Storage.{
  storage_available, note_write_error, note_segment_closed, recheck_mount_after_error,
}
use myworkspace.Recorder.Paths.{name_files, format_segment_paths}
use myworkspace.Recorder.Idr.{request_idr, maybe_request_periodic_idr, periodic_due}
use myworkspace.Recorder.Segment.{
  close_segment, open_segment, write_param_sets, write_segment_packet, settle_file, fail_now,
}

-- What the writer's decisions about files rest on.
pub record Keeps (s t : RecorderStream) : Type 0 where
  pub active : t.active ≡ s.active
  pub waiting : t.waiting_keyframe ≡ s.waiting_keyframe
  pub file : t.fp ≡ s.fp

module _ {W : Type 0} (os : Os W) where
  pub request_idr-Keeps :
      (c : Ctx W) (reason : Reason) (now_ns : ℕ) (force : Bool)
      → Keeps c.s (request_idr os c reason now_ns force).s
  unfolding request_idr
  request_idr-Keeps c reason now_ns force = ground arith

  pub storage_available-s : (c : Ctx W) (now : ℕ) → (storage_available os c now).1.s ≡ c.s
  unfolding storage_available
  storage_available-s c now = ground arith

  pub maybe_request_periodic_idr-Keeps :
      (c : Ctx W) (now : ℕ) → Keeps c.s (maybe_request_periodic_idr os c now).s
  unfolding maybe_request_periodic_idr periodic_due request_idr
  maybe_request_periodic_idr-Keeps c now = ground arith

  pub recheck-s : (c : Ctx W) (now : ℕ) → (recheck_mount_after_error os c now).s ≡ c.s
  unfolding recheck_mount_after_error
  recheck-s c now = ground arith

  pub fail_now-s : (c : Ctx W) → (fail_now os c).s ≡ c.s
  unfolding fail_now note_write_error recheck_mount_after_error
  fail_now-s c = ground arith

  -- Closing a segment leaves no open file and touches neither flag.
  pub close_segment-closed :
      (c : Ctx W) (finalize : Bool)
      → let t = (close_segment os c finalize).1.s in
        (t.fp ≡ none) × (t.active ≡ c.s.active) × (t.waiting_keyframe ≡ c.s.waiting_keyframe)
  unfolding close_segment settle_file note_segment_closed fail_now note_write_error
      recheck_mount_after_error
  close_segment-closed c finalize = ground arith

  pub format_segment_paths-Keeps :
      (c : Ctx W) (wall : ℕ) → Keeps c.s (format_segment_paths os c wall).1.s
  unfolding format_segment_paths name_files
  format_segment_paths-Keeps c wall = ground arith

  -- Opening a segment either gives an open file and ends the wait, or leaves the wait as it was.
  pub open_segment-opened :
      (c : Ctx W) (wall mono : ℕ)
      → let (opened, d) = open_segment os c wall mono in
        (d.s.active ≡ c.s.active)
        × (((opened ≡ true) × (is_some d.s.fp ≡ true) × (d.s.waiting_keyframe ≡ false))
            ⊎ ((opened ≡ false) × (d.s.waiting_keyframe ≡ c.s.waiting_keyframe)))
  unfolding open_segment note_write_error recheck_mount_after_error
  open_segment-opened c wall mono = ground (arith, format_segment_paths-Keeps c wall)

  pub write_param_sets-s : (c : Ctx W) → (write_param_sets os c).1.s ≡ c.s
  unfolding write_param_sets
  write_param_sets-s c = ground arith

  pub write_segment_packet-Keeps :
      (c : Ctx W) (d : List ℕ) → Keeps c.s (write_segment_packet os c d).1.s
  unfolding write_segment_packet fail_now note_write_error recheck_mount_after_error
  write_segment_packet-Keeps c d = ground arith
