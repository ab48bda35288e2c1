-- ===== src/Decode/Device.antt =====
-- stream_server/src/decoder.c: the CUDA device that all decoders share. A handle is a device context that
-- FFmpeg made, and `refs` counts for each the references that the program has to it: those it was given
-- by `av_hwdevice_ctx_create` and `av_buffer_ref`, less those that it gave to `av_buffer_unref`; the one more of
-- a codec context, which FFmpeg drops with the context, is not counted.
pub mod Counts
pub mod Users
use myworkspace.Prelude.{
  ℕ, ◌+◌, ◌-◌, Option, none, some, Bool, true, false, not, ◌&&◌, ◌||◌, ◌==◌, if◌then◌else◌,
}
use myworkspace.Recorder.{update}

-- The numbers of devices are not negative; `device_id` is -1 in the source where there is none; `made` is the number of handles so far; `dropped_twice` is that a reference to a handle without one was given back, which frees its memory again.
pub record Devices : Type 0 where
  pub master : Option ℕ
  pub device_id : Option ℕ
  pub users : ℕ
  pub refs : ℕ → ℕ
  pub made : ℕ
  pub dropped_twice : Bool

-- How an acquisition ends: with a handle, or with EINVAL or ENOMEM.
pub data Acquired : Type 0 where
  device : ℕ → Acquired
  wrong_device : Acquired
  no_memory : Acquired
  not_created : Acquired

-- `av_buffer_unref`.
unfoldable pub unref : ℕ → Devices → Devices
unref h s = record s {
  refs = update s.refs h (s.refs h - 1);
  dropped_twice = s.dropped_twice || s.refs h == 0;
}

unfoldable pub is_device : Option ℕ → ℕ → Bool
is_device none dev = false
is_device (some d) dev = d == dev

-- A reference to the master for one user more, where `av_buffer_ref` gives one.
unfoldable pub use_master : ℕ → Devices → Devices
use_master h s = record s { users = s.users + 1; refs = update s.refs h (s.refs h + 1) }

-- The first critical section; `none` where there is no device and one is to be created.
unfoldable pub acquire_existing : ℕ → Bool → Devices → Option Acquired × Devices
unfolding is_device use_master
acquire_existing dev has_ref s = elim s.master [
  | none ↦ (none, s)
  | some h ↦
      if not (is_device s.device_id dev)
      then (some wrong_device, s)
      else if has_ref
      then (some (device h), use_master h s)
      else (some no_memory, s)
]

-- The master goes with its last user.
unfoldable pub drop_unused : Devices → Devices
unfolding unref
drop_unused s = elim s.master [
  | none ↦ s
  | some h ↦ if s.users == 0 then record (unref h s) { master = none; device_id = none } else s
]

unfoldable pub take_master : Bool → Devices → Acquired × Devices
unfolding use_master drop_unused
take_master has_ref s = elim s.master [
  | none ↦ (no_memory, s)
  | some h ↦ if has_ref then (device h, use_master h s) else (no_memory, drop_unused s)
]

-- The second critical section, with a handle that was created outside of it.
unfoldable pub acquire_created : ℕ → ℕ → Bool → Devices → Acquired × Devices
unfolding unref is_device take_master
acquire_created h dev has_ref s = elim s.master [
  | none ↦ take_master has_ref (record s { master = some h; device_id = some dev })
  | some _ ↦
      if not (is_device s.device_id dev)
      then (wrong_device, unref h s)
      else take_master has_ref (unref h s)
]

-- `av_hwdevice_ctx_create` where it succeeds: the new handle is `s.made`.
unfoldable pub create : Devices → Devices
create s = record s { refs = update s.refs s.made 1; made = s.made + 1 }

unfoldable pub release_shared_cuda_device : Devices → Devices
unfolding drop_unused
release_shared_cuda_device s = drop_unused (record s { users = s.users - 1 })

-- `decoder_destroy` of a decoder that has a handle: its reference, and the device.
unfoldable pub give_back : ℕ → Devices → Devices
unfolding unref release_shared_cuda_device
give_back h s = release_shared_cuda_device (unref h s)
