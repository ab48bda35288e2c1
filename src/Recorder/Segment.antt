-- ===== src/Recorder/Segment.antt =====
-- compressed_recorder.c: opening, writing and closing a segment file. `true` is the C code's 0.
pub mod Files
use myworkspace.Prelude.{
  ℕ, ◌+◌, List, [], ◌∷◌, ◌++◌, Option, none, some, Bool, true, false, not, ◌&&◌, ◌==◌,
  if◌then◌else◌, length, add64,
}
use myworkspace.Recorder.{Recorder, RecorderStream, start_code4, no_params}
use myworkspace.Recorder.Os.{Os, Ctx}
use myworkspace.Recorder.Nal.{payload_has_start_code}
use myworkspace.Recorder.Params.{is_empty}
use myworkspace.Recorder.Storage.{note_write_error, note_segment_closed, recheck_mount_after_error}
use myworkspace.Recorder.Paths.{format_segment_paths}
use myworkspace.Recorder.Idr.{next_periodic}

unfoldable pub free_param_sets : RecorderStream → RecorderStream
free_param_sets s = record s { params = no_params }

unfoldable pub reset_stream_file_state : RecorderStream → RecorderStream
reset_stream_file_state s = record s {
  fp = none;
  tmp_path = [];
  final_path = [];
  segment_start_wall_ms = 0;
  segment_start_mono_ns = 0;
  bytes_written = 0;
  packets_written = 0;
  waiting_keyframe = true;
  rollover_pending = false;
  last_idr_request_ns = 0;
  next_periodic_idr_ns = 0;
  idr_request_count = 0;
}

-- The assignments at the end of `close_segment`.
abbrev pub forget_segment : RecorderStream → RecorderStream
forget_segment s = record s {
  tmp_path = [];
  final_path = [];
  segment_start_wall_ms = 0;
  segment_start_mono_ns = 0;
  next_periodic_idr_ns = 0;
  bytes_written = 0;
  packets_written = 0;
}

-- The sets that `write_param_sets` writes, in order.
abbrev pub sets_of : RecorderStream → List (List ℕ)
sets_of s =
    if s.codec == 1
    then s.params.first ∷ s.params.second ∷ s.params.third ∷ []
    else s.params.first ∷ s.params.second ∷ []

module _ {W : Type 0} (os : Os W) where
  -- An error of an operation: count it, read the clock, look at the mount table.
  unfoldable pub fail_now : Ctx W → Ctx W
  fail_now c =
      let c1 = note_write_error c in
      let (now, w) = os.now_monotonic_ns c1.w in
      recheck_mount_after_error os (record c1 { w = w }) now

  after_rename : Ctx W → Bool → Bool × W → Bool × Ctx W
  after_rename c rc (true, w) = (rc, note_segment_closed (record c { w = w }))
  after_rename c rc (false, w) = (false, fail_now (record c { w = w }))

  -- The file is renamed if the segment is kept, and deleted if it is not.
  unfoldable pub settle_file : Ctx W → Bool → Bool → Bool × Ctx W
  unfolding after_rename
  settle_file c rc finalize =
      if finalize && (not (is_empty c.s.tmp_path) && not (is_empty c.s.final_path))
      then after_rename c rc (os.rename c.s.tmp_path c.s.final_path c.w)
      else if not finalize && not (is_empty c.s.tmp_path)
      then (rc, record c { w = os.unlink c.s.tmp_path c.w })
      else (rc, c)

  close_open : Ctx W → Bool → Bool × W → Bool × Ctx W
  close_open c finalize (closed, w) =
      let (rc, c') =
        settle_file (record c { w = w; s = record c.s { fp = none } }) closed finalize in
      (rc, record c' { s = forget_segment c'.s })

  close_handle : Ctx W → Bool → Option ℕ → Bool × Ctx W
  unfolding close_open
  close_handle c finalize none = (true, c)
  close_handle c finalize (some f) = close_open c finalize (os.fclose f c.w)

  unfoldable pub close_segment : Ctx W → Bool → Bool × Ctx W
  unfolding close_handle
  close_segment c finalize = close_handle c finalize c.s.fp

  after_fopen : Ctx W → ℕ → ℕ → Option ℕ × W → Bool × Ctx W
  after_fopen c wall_ms mono_ns (none, w) = (
    false,
    recheck_mount_after_error os
        (note_write_error (record c { w = w; s = record c.s { fp = none } })) mono_ns,
  )
  after_fopen c wall_ms mono_ns (some f, w) = (
    true,
    record c {
      w = w;
      s = record c.s {
        fp = some f;
        segment_start_wall_ms = wall_ms;
        segment_start_mono_ns = mono_ns;
        bytes_written = 0;
        packets_written = 0;
        waiting_keyframe = false;
        rollover_pending = false;
        next_periodic_idr_ns = next_periodic c.r c.s mono_ns;
        idr_request_count = 0;
      };
    },
  )

  unfoldable pub open_segment : Ctx W → ℕ → ℕ → Bool × Ctx W
  unfolding after_fopen
  open_segment c wall_ms mono_ns =
      let (named, c') = format_segment_paths os c wall_ms in
      if named
      then after_fopen c' wall_ms mono_ns (os.fopen c'.s.tmp_path c'.w)
      else (false, recheck_mount_after_error os (note_write_error c') mono_ns)

  unfoldable pub write_all : ℕ → List ℕ → W → Bool × W
  write_all fp d w = if is_empty d then (true, w) else os.fwrite fp d w

  unfoldable pub write_payload_annexb : ℕ → List ℕ → W → Bool × W
  write_payload_annexb fp d w =
      if is_empty d
      then (true, w)
      else if payload_has_start_code d
      then write_all fp d w
      else (let (done, w') = write_all fp start_code4 w in
          if done then write_all fp d w' else (false, w'))

  -- One round for each set of the codec.
  unfoldable pub write_sets : ℕ → List (List ℕ) → W → Bool × W
  write_sets fp [] w = (true, w)
  write_sets fp (p ∷ ps) w =
      let (done, w') = write_all fp p w in
      let rest = write_sets fp ps w' in if done then rest else (false, w')

  write_sets_to : Ctx W → Option ℕ → Bool × Ctx W
  write_sets_to c none = (false, c)
  write_sets_to c (some f) =
      let (done, w) = write_sets f (sets_of c.s) c.w in (done, record c { w = w })

  unfoldable pub write_param_sets : Ctx W → Bool × Ctx W
  unfolding write_sets_to
  write_param_sets c = write_sets_to c c.s.fp

  after_write : Ctx W → List ℕ → Bool × W → Bool × Ctx W
  after_write c d (false, w) = (false, fail_now (record c { w = w }))
  after_write c d (true, w) = (
    true,
    record c {
      w = w;
      s = record c.s {
        bytes_written =
            (if payload_has_start_code d
              then add64 c.s.bytes_written (length d)
              else add64 (add64 c.s.bytes_written (length d)) 4);
        packets_written = add64 c.s.packets_written 1;
      };
    },
  )

  write_packet_to : Ctx W → List ℕ → Option ℕ → Bool × Ctx W
  unfolding after_write
  write_packet_to c d none = (false, c)
  write_packet_to c d (some f) = after_write c d (write_payload_annexb f d c.w)

  unfoldable pub write_segment_packet : Ctx W → List ℕ → Bool × Ctx W
  unfolding write_packet_to
  write_segment_packet c d = write_packet_to c d c.s.fp
