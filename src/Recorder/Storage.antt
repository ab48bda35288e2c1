-- ===== src/Recorder/Storage.antt =====
-- compressed_recorder.c: whether the record directory lies on an NFS mount, and what happens to
-- recording while it does not. The counters of `recorder_note_*` are here as well.
pub mod Mounted
use myworkspace.Prelude.{
  ℕ, zero, suc, List, [], ◌∷◌, Option, none, some, Bool, true, false, not, ◌&&◌, ◌||◌, leb, ltb,
  ◌==◌, if◌then◌else◌, length, take, bytes_eq, add64, sub64,
}
use myworkspace.Protocol.{byte_at}
use myworkspace.Recorder.{
  Recorder, RecorderStream, nfs_mount_check_interval_ns, nfs_mount_log_interval_ns,
}
use myworkspace.Recorder.Os.{Os, Ctx, Mount}
use myworkspace.Recorder.Params.{is_empty}

-- `while (len > 1 && path[len - 1] == '/') len--;`
unfoldable pub strip_len : List ℕ → ℕ → ℕ
strip_len path zero = zero
strip_len path (suc zero) = 1
strip_len path (suc (suc n)) =
    let rest = strip_len path (suc n) in if byte_at path (suc n) == b'/' then rest else suc (suc n)

abbrev pub stripped : List ℕ → ℕ
stripped path = strip_len path (length path)

unfoldable pub path_is_under_mountpoint : List ℕ → List ℕ → Bool
path_is_under_mountpoint path mountpoint =
    if is_empty path || is_empty mountpoint
    then false
    else if stripped mountpoint == 1 && byte_at mountpoint 0 == b'/'
    then byte_at path 0 == b'/'
    else if ltb (stripped path) (stripped mountpoint)
    then false
    else if not (bytes_eq (take (stripped mountpoint) path) (take (stripped mountpoint) mountpoint))
    then false
    else stripped path == stripped mountpoint || byte_at path (stripped mountpoint) == b'/'

abbrev pub is_nfs : List ℕ → Bool
is_nfs t = bytes_eq t (b'n' ∷ b'f' ∷ b's' ∷ []) || bytes_eq t (b'n' ∷ b'f' ∷ b's' ∷ b'4' ∷ [])

-- The loop over `getmntent`.
unfoldable pub mount_found : List ℕ → List Mount → Bool
mount_found path [] = false
mount_found path (m ∷ ms) =
    let rest = mount_found path ms in
    if not (is_nfs m.mnt_type)
    then rest
    else if path_is_under_mountpoint path m.mnt_dir
    then true
    else rest

mount_table : List ℕ → Option (List Mount) → Bool
mount_table path none = false
mount_table path (some ms) = mount_found path ms

module _ {W : Type 0} (os : Os W) where
  unfoldable pub path_has_nfs_mount : List ℕ → W → Bool × W
  unfolding mount_table
  path_has_nfs_mount path w =
      if is_empty path
      then (false, w)
      else (let (table, w') = os.mounts w in (mount_table path table, w'))

module _ {W : Type 0} where
  unfoldable pub note_write_error : Ctx W → Ctx W
  note_write_error c =
      if c.r.configured
      then record c { r = record c.r { write_errors = add64 c.r.write_errors 1 } }
      else c

  unfoldable pub note_mount_skip : Ctx W → Ctx W
  note_mount_skip c =
      if c.r.configured
      then record c { r = record c.r { mount_skipped_packets = add64 c.r.mount_skipped_packets 1 } }
      else c

  unfoldable pub note_segment_closed : Ctx W → Ctx W
  note_segment_closed c =
      if c.r.configured
      then record c { r = record c.r { segments_closed = add64 c.r.segments_closed 1 } }
      else c

  abbrev stop_waiting : Ctx W → Ctx W
  stop_waiting c = record c { s = record c.s { waiting_keyframe = true; rollover_pending = false } }

  unfoldable pub skip_unmounted : Ctx W → ℕ → Ctx W
  skip_unmounted c now_ns =
      let c1 = stop_waiting (note_mount_skip c) in
      if not c1.r.require_nfs_mount
      then c1
      else if c1.r.last_mount_log_ns == 0
          || leb nfs_mount_log_interval_ns (sub64 now_ns c1.r.last_mount_log_ns)
      then record c1 { r = record c1.r { last_mount_log_ns = now_ns } }
      else c1

module _ {W : Type 0} (os : Os W) where
  abbrev checked : Ctx W → ℕ → Bool × W → Ctx W
  checked c now_ns (mounted, w) = record c {
    w = w;
    r = record c.r { last_mount_check_ns = now_ns; nfs_mounted = mounted };
  }

  unfoldable pub storage_available : Ctx W → ℕ → Bool × Ctx W
  storage_available c now_ns =
      if not c.r.require_nfs_mount
      then (true, c)
      else if c.r.nfs_mounted
      then (true, c)
      else if c.r.last_mount_check_ns == 0
          || leb nfs_mount_check_interval_ns (sub64 now_ns c.r.last_mount_check_ns)
      then (let c' = checked c now_ns (path_has_nfs_mount os c.r.record_dir c.w) in
          (c'.r.nfs_mounted, c'))
      else (c.r.nfs_mounted, c)

  -- The mount table is read for the log line only: `nfs_mounted` is cleared either way.
  unfoldable pub recheck_mount_after_error : Ctx W → ℕ → Ctx W
  recheck_mount_after_error c now_ns =
      if not c.r.require_nfs_mount
      then c
      else checked c now_ns (false, (path_has_nfs_mount os c.r.record_dir c.w).1)
