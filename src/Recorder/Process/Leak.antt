-- ===== src/Recorder/Process/Leak.antt =====
-- compressed_recorder.c: a stream that has an open segment when the mount goes away. The packet is
-- skipped and the stream waits for a keyframe, but `recorder_skip_unmounted` leaves the file open,
-- and the branch that waits opens the next one over it.
use myworkspace.Prelude.{ℕ, Bool, true, List, some, ◌≡◌, ◌≢◌, arith}
use myworkspace.Recorder.Os.{Os, Ctx}
use myworkspace.Recorder.Storage.{
  skip_unmounted, note_mount_skip, recheck_mount_after_error, path_has_nfs_mount,
}
use myworkspace.Recorder.Paths.{format_segment_paths}
use myworkspace.Recorder.Paths.Frame.{with_files, format_segment_paths-files}
use myworkspace.Recorder.Segment.{open_segment}

module _ {W : Type 0} (os : Os W) where
  skip_unmounted-holds :
      (c : Ctx W) (now : ℕ)
      → ((skip_unmounted c now).s.fp ≡ c.s.fp) × ((skip_unmounted c now).s.waiting_keyframe ≡ true)
  unfolding skip_unmounted note_mount_skip
  skip_unmounted-holds c now = ground arith

  open_segment-other :
      (c : Ctx W) (f wall mono : ℕ)
      → ((path : List ℕ) (w : W) → (os.fopen path w).0 ≢ some f)
      → (open_segment os c wall mono).0 ≡ true
      → (open_segment os c wall mono).1.s.fp ≢ some f
  unfolding open_segment
  open_segment-other c f wall mono fresh opened e =
      let named = (format_segment_paths os c wall).1 in
      ground (arith, fresh named.s.tmp_path named.w)

  open_segment-files :
      (c : Ctx W) (wall mono : ℕ) (close : ℕ → W → Bool × W) (move : List ℕ → List ℕ → W → Bool × W)
      (delete : List ℕ → W → W)
      → open_segment (with_files os close move delete) c wall mono ≡ open_segment os c wall mono
  unfolding open_segment recheck_mount_after_error path_has_nfs_mount
  open_segment-files c wall mono close move delete =
      rw (format_segment_paths-files os close move delete c wall)

  -- If a stream with open file `f` is skipped for a missing mount and its next segment is opened,
  -- then, for an `fopen` that never returns a file still open, the stream has lost `f`: until the
  -- segment is opened it holds `f`, then another file, and the opening neither closes, renames nor
  -- deletes anything, since its result is the same whatever those operations do.
  pub skip_unmounted_loses_file :
      (c : Ctx W) (f now wall mono : ℕ) (close : ℕ → W → Bool × W)
      (move : List ℕ → List ℕ → W → Bool × W) (delete : List ℕ → W → W)
      → c.s.fp ≡ some f
      → ((path : List ℕ) (w : W) → (os.fopen path w).0 ≢ some f)
      → (open_segment os (skip_unmounted c now) wall mono).0 ≡ true
      → ((skip_unmounted c now).s.fp ≡ some f)
        × ((skip_unmounted c now).s.waiting_keyframe ≡ true)
        × ((open_segment os (skip_unmounted c now) wall mono).1.s.fp ≢ some f)
        × (open_segment (with_files os close move delete) (skip_unmounted c now) wall mono
            ≡ open_segment os (skip_unmounted c now) wall mono)
  skip_unmounted_loses_file c f now wall mono close move delete held fresh opened =
      let c1 = skip_unmounted c now in
      let skipped = skip_unmounted-holds c now in
      (
        ground (arith, skipped),
        ground (arith, skipped),
        open_segment-other c1 f wall mono fresh opened,
        open_segment-files c1 wall mono close move delete,
      )
