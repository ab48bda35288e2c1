-- ===== src/Decode/Device/Users.antt =====
-- stream_server/src/decoder.c: the threads of any number of decoders acquire and release the device, in
-- any order of their critical sections.
use myworkspace.Prelude.{
  ℕ, ◌+◌, ◌-◌, ◌≤◌, ◌≡◌, ◌↔◌, refl, none, some, Bool, false, arith, if◌then◌else◌, Option-cases,
  inl, inr,
}
use myworkspace.Recorder.{update}
use myworkspace.Decode.Device.{
  Devices, Acquired, is_device, acquire_existing, acquire_created, create,
  release_shared_cuda_device, give_back,
}
use myworkspace.Decode.Device.Counts.{
  one, is_master, taken_by, IsCounted, IsNeeded, create-IsCounted, drop_unused-IsCounted,
  give-IsCounted, acquire_created-IsTaken, acquire_existing-IsTaken,
}

-- The device with what its threads have: `pending` counts, for each handle, the threads that created
-- it and have not entered the second section, `held` the decoders that have it.
pub record Threads : Type 0 where
  pub shared : Devices
  pub pending : ℕ → ℕ
  pub held : ℕ → ℕ

pub data Move : Threads → Threads → Type 0 where
  existing :
      (t : Threads) (dev : ℕ) (has_ref : Bool) (r : Acquired)
      → (acquire_existing dev has_ref t.shared).0 ≡ some r
      → Move t (record t {
        shared = (acquire_existing dev has_ref t.shared).1;
        held = taken_by r t.held;
      })
  created :
      (t : Threads)
      → Move t (record t {
        shared = create t.shared;
        pending = update t.pending t.shared.made (t.pending t.shared.made + 1);
      })
  second :
      (t : Threads) (h dev : ℕ) (has_ref : Bool)
      → 1 ≤ t.pending h
      → Move t (record {
        shared = (acquire_created h dev has_ref t.shared).1;
        pending = update t.pending h (t.pending h - 1);
        held = taken_by (acquire_created h dev has_ref t.shared).0 t.held;
      })
  destroyed :
      (t : Threads) (h : ℕ)
      → 1 ≤ t.held h
      → Move t (record t { shared = give_back h t.shared; held = update t.held h (t.held h - 1) })

abbrev pub IsGood : Threads → Type 0
IsGood t = IsCounted t.shared t.pending t.held × IsNeeded t.shared

Move-IsGood : {t u : Threads} → Move t u → IsGood t → IsGood u
Move-IsGood (existing t dev has_ref r e) (v, needed) =
    acquire_existing-IsTaken v dev has_ref r needed e
Move-IsGood (created t) (v, needed) = (create-IsCounted v, λ h e. unfold create in needed h e)
Move-IsGood (second t h dev has_ref lt) (v, needed) =
    acquire_created-IsTaken v h dev has_ref needed lt
Move-IsGood (destroyed t h lt) (v, needed) =
    unfold give_back release_shared_cuda_device in drop_unused-IsCounted (give-IsCounted v h lt)

pub data Moves : Threads → Threads → Type 0 where
  still : (t : Threads) → Moves t t
  onward : {t u w : Threads} → Moves t u → Move u w → Moves t w

-- The variables as the program starts.
abbrev pub no_device : Threads
no_device = record {
  shared = record {
    master = none;
    device_id = none;
    users = 0;
    refs = λ _. 0;
    made = 0;
    dropped_twice = false;
  };
  pending = λ _. 0;
  held = λ _. 0;
}

Moves-IsGood : {t u : Threads} → Moves t u → IsGood t → IsGood u
Moves-IsGood (still t) v = v
Moves-IsGood (onward r m) v = Move-IsGood m (Moves-IsGood r v)

no_device-IsGood : IsGood no_device
unfolding is_device
no_device-IsGood = (
  record {
    counts = λ h. refl;
    users = λ h e. cc;
    alone = λ h e. refl;
    unused = λ _. (refl, refl);
    fresh = λ h le. refl;
    sound = refl;
  },
  λ h e. cc,
)

-- However the threads of any number of decoders interleave their acquisitions and releases, and whichever
-- calls of FFmpeg fail: a handle has one reference for each decoder that has it, one for each thread that
-- has just created it and one as the master, so that none is lost, and none was dropped twice; the
-- decoders have no handle but the master, are counted, and the master is there exactly as long as one
-- has it.
pub device_users :
    {t : Threads}
    → Moves no_device t
    → (t.shared.dropped_twice ≡ false)
      × ((h : ℕ) → t.shared.refs h ≡ one (is_master t.shared h) + t.pending h + t.held h)
      × ((h : ℕ) → t.held h ≡ (if is_master t.shared h then t.shared.users else 0))
      × ((t.shared.master ≡ none) ↔ (t.shared.users ≡ 0))
device_users {t} r =
    let (v, needed) = Moves-IsGood r no_device-IsGood in
    (
      v.sound,
      v.counts,
      λ h. ground (arith, v.users h, v.alone h),
      (
        λ e. (v.unused e).0,
        λ e. elim (Option-cases t.shared.master) [
          | inl f ↦ f
          | inr (h, f) ↦ absurd (omega (arith, needed h f))
        ],
      ),
    )
