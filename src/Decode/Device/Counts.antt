-- ===== src/Decode/Device/Counts.antt =====
-- stream_server/src/decoder.c: what each critical section does to the counts of the shared CUDA device.
use myworkspace.Prelude.{
  ℕ, ◌+◌, ◌-◌, ◌≤◌, ◌≡◌, refl, Option, none, some, Bool, true, false, arith, ◌==◌, if◌then◌else◌,
  Option-cases, inl, inr, if-holds, not, subst, sym, ==_iff,
}
use myworkspace.Recorder.{update}
use myworkspace.Decode.Device.{
  Devices, Acquired, device, wrong_device, no_memory, unref, is_device, use_master,
  acquire_existing, drop_unused, take_master, acquire_created, create,
}

abbrev pub one : Bool → ℕ
one true = 1
one false = 0

abbrev pub is_master : Devices → ℕ → Bool
is_master s h = is_device s.master h

-- The count of `held` after an acquisition.
abbrev pub taken_by : Acquired → (ℕ → ℕ) → ℕ → ℕ
taken_by (device h) held = update held h (held h + 1)
taken_by _ held = held

-- Each handle has a reference for the master, one for each thread that created it and one for each
-- decoder that has it. The decoders have the master and no other handle, and they are counted.
pub record IsCounted (s : Devices) (pending held : ℕ → ℕ) : Type 0 where
  pub counts : (h : ℕ) → s.refs h ≡ one (is_master s h) + pending h + held h
  pub users : (h : ℕ) → is_master s h ≡ true → held h ≡ s.users
  pub alone : (h : ℕ) → is_master s h ≡ false → held h ≡ 0
  pub unused : s.master ≡ none → (s.users ≡ 0) × (s.device_id ≡ none)
  pub fresh : (h : ℕ) → s.made ≤ h → s.refs h ≡ 0
  pub sound : s.dropped_twice ≡ false

-- The master is there only as long as it has users.
abbrev pub IsNeeded : Devices → Type 0
IsNeeded s = (h : ℕ) → s.master ≡ some h → 1 ≤ s.users

module _ {s : Devices} {pending held : ℕ → ℕ} (v : IsCounted s pending held) (h : ℕ) where
  use_master-IsCounted :
      s.master ≡ some h → IsCounted (use_master h s) pending (update held h (held h + 1))
  unfolding use_master is_device
  use_master-IsCounted e = record {
    counts = λ j. ground (arith, v.counts j);
    users = λ j m. ground (arith, v.users j, v.users h);
    alone = λ j m. ground (arith, v.alone j);
    unused = λ f. cc;
    fresh = λ j le. ground (arith, v.fresh j le, v.counts h, v.fresh h);
    sound = v.sound;
  }

  place-IsCounted :
      (dev : ℕ)
      → s.master ≡ none
      → 1 ≤ pending h
      → IsCounted
          (record s { master = some h; device_id = some dev })
          (update pending h (pending h - 1))
          held
  unfolding is_device
  place-IsCounted dev e lt = record {
    counts = λ j. ground (arith, v.counts j);
    users = λ j m. ground (arith, v.alone j, v.unused e);
    alone = λ j m. ground (arith, v.alone j);
    unused = λ f. cc;
    fresh = v.fresh;
    sound = v.sound;
  }

  unref-IsCounted : 1 ≤ pending h → IsCounted (unref h s) (update pending h (pending h - 1)) held
  unfolding unref
  unref-IsCounted lt = record {
    counts = λ j. ground (arith, v.counts j);
    users = v.users;
    alone = v.alone;
    unused = v.unused;
    fresh = λ j le. ground (arith, v.fresh j le);
    sound = ground (arith, v.sound, v.counts h);
  }

  pub give-IsCounted :
      1 ≤ held h
      → IsCounted (record (unref h s) { users = s.users - 1 }) pending (update held h (held h - 1))
  unfolding unref is_device
  give-IsCounted lt = record {
    counts = λ j. ground (arith, v.counts j, v.counts h);
    users = λ j m. ground (arith, v.users j, v.users h, v.alone h);
    alone = λ j m. ground (arith, v.alone j);
    unused = λ f. ground (arith, v.unused f);
    fresh = λ j le. ground (arith, v.fresh j le);
    sound = ground (arith, v.sound, v.counts h);
  }

is_master_self : (s : Devices) (h : ℕ) → s.master ≡ some h → is_master s h ≡ true
unfolding is_device
is_master_self s h e = ground arith

drop_unused-none : (s : Devices) → s.master ≡ none → drop_unused s ≡ s
unfolding drop_unused
drop_unused-none s e = ground arith

drop_unused-some :
    (s : Devices) (h : ℕ)
    → s.master ≡ some h
    → drop_unused s
      ≡ (if s.users == 0 then record (unref h s) { master = none; device_id = none } else s)
unfolding drop_unused
drop_unused-some s h e = ground arith

module _ {s : Devices} {pending held : ℕ → ℕ} (v : IsCounted s pending held) where
  pub create-IsCounted : IsCounted (create s) (update pending s.made (pending s.made + 1)) held
  unfolding create
  create-IsCounted = record {
    counts = λ j. ground (arith, v.counts j, v.fresh s.made (omega arith));
    users = v.users;
    alone = v.alone;
    unused = v.unused;
    fresh = λ j le. ground (arith, v.fresh j);
    sound = v.sound;
  }

  abbrev Kept : Devices → Type 0
  Kept u = IsCounted u pending held × IsNeeded u

  vanish-IsCounted :
      (h : ℕ)
      → s.master ≡ some h
      → s.users ≡ 0
      → IsCounted (record (unref h s) { master = none; device_id = none }) pending held
  unfolding unref is_device
  vanish-IsCounted h e f = record {
    counts = λ j. ground (arith, v.counts j);
    users = λ j m. cc;
    alone = λ j m. ground (arith, v.alone j, v.users j);
    unused = λ _. (f, refl);
    fresh = λ j le. ground (arith, v.fresh j le);
    sound = ground (arith, v.sound, v.counts h, is_master_self s h e);
  }

  pub drop_unused-IsCounted : IsCounted (drop_unused s) pending held × IsNeeded (drop_unused s)
  drop_unused-IsCounted = elim (Option-cases s.master) [
    | inl e ↦ subst Kept (sym (drop_unused-none s e)) (v, λ h f. cc)
    | inr (h, e) ↦ subst Kept (sym (drop_unused-some s h e)) (
        if-holds Kept (s.users == 0) _ _
          (λ f. (vanish-IsCounted h e ((==_iff s.users 0).0 f), λ j g. cc))
          (λ f. (v, λ j g. ground arith)))
  ]

take_master-none :
    (has_ref : Bool) (s : Devices) → s.master ≡ none → take_master has_ref s ≡ (no_memory, s)
unfolding take_master
take_master-none has_ref s e = ground arith

take_master-some :
    (has_ref : Bool) (s : Devices) (h : ℕ)
    → s.master ≡ some h
    → take_master has_ref s
      ≡ (if has_ref then (device h, use_master h s) else (no_memory, drop_unused s))
unfolding take_master
take_master-some has_ref s h e = ground arith

acquire_created-none :
    (h dev : ℕ) (has_ref : Bool) (s : Devices)
    → s.master ≡ none
    → acquire_created h dev has_ref s
      ≡ take_master has_ref (record s { master = some h; device_id = some dev })
unfolding acquire_created
acquire_created-none h dev has_ref s e = ground arith

acquire_created-some :
    (h dev : ℕ) (has_ref : Bool) (s : Devices) (m : ℕ)
    → s.master ≡ some m
    → acquire_created h dev has_ref s ≡ (
        if not (is_device s.device_id dev)
        then (wrong_device, unref h s)
        else take_master has_ref (unref h s))
unfolding acquire_created
acquire_created-some h dev has_ref s m e = ground arith

acquire_existing-none :
    (dev : ℕ) (has_ref : Bool) (s : Devices)
    → s.master ≡ none
    → acquire_existing dev has_ref s ≡ (none, s)
unfolding acquire_existing
acquire_existing-none dev has_ref s e = ground arith

acquire_existing-some :
    (dev : ℕ) (has_ref : Bool) (s : Devices) (h : ℕ)
    → s.master ≡ some h
    → acquire_existing dev has_ref s ≡ (
        if not (is_device s.device_id dev)
        then (some wrong_device, s)
        else if has_ref
        then (some (device h), use_master h s)
        else (some no_memory, s))
unfolding acquire_existing
acquire_existing-some dev has_ref s h e = ground arith

-- A thread's acquisition, with the handle that it gets counted as a decoder's.
abbrev pub IsTaken : (ℕ → ℕ) → (ℕ → ℕ) → Acquired × Devices → Type 0
IsTaken pending held (r, u) = IsCounted u pending (taken_by r held) × IsNeeded u

abbrev IsExisting : (ℕ → ℕ) → (ℕ → ℕ) → Option Acquired × Devices → Type 0
IsExisting pending held (none, u) = Unit
IsExisting pending held (some r, u) = IsTaken pending held (r, u)

module _ {s : Devices} {pending held : ℕ → ℕ} (v : IsCounted s pending held) where
  take_master-IsTaken : (has_ref : Bool) → IsTaken pending held (take_master has_ref s)
  take_master-IsTaken has_ref = elim (Option-cases s.master) [
    | inl e ↦ subst (IsTaken pending held) (sym (take_master-none has_ref s e)) (v, λ h f. cc)
    | inr (h, e) ↦ subst (IsTaken pending held) (sym (take_master-some has_ref s h e)) (
        if-holds (IsTaken pending held) has_ref _ _
          (λ _. (use_master-IsCounted v h e, λ j f. unfold use_master in omega arith))
          (λ _. drop_unused-IsCounted v))
  ]

module _ {s : Devices} {pending held : ℕ → ℕ} (v : IsCounted s pending held) where
  pub acquire_created-IsTaken :
      (h dev : ℕ) (has_ref : Bool)
      → IsNeeded s
      → 1 ≤ pending h
      → IsTaken (update pending h (pending h - 1)) held (acquire_created h dev has_ref s)
  acquire_created-IsTaken h dev has_ref needed lt = elim (Option-cases s.master) [
    | inl e ↦
        subst (IsTaken (update pending h (pending h - 1)) held)
          (sym (acquire_created-none h dev has_ref s e))
          (take_master-IsTaken (place-IsCounted v h dev e lt) has_ref)
    | inr (m, e) ↦
        subst (IsTaken (update pending h (pending h - 1)) held)
          (sym (acquire_created-some h dev has_ref s m e))
          (if-holds (IsTaken (update pending h (pending h - 1)) held)
            (not (is_device s.device_id dev)) _ _
            (λ _. (unref-IsCounted v h lt, λ j f. unfold unref in needed j f))
            (λ _. take_master-IsTaken (unref-IsCounted v h lt) has_ref))
  ]

  found :
      (dev : ℕ) (has_ref : Bool)
      → IsNeeded s
      → IsExisting pending held (acquire_existing dev has_ref s)
  found dev has_ref needed = elim (Option-cases s.master) [
    | inl e ↦ subst (IsExisting pending held) (sym (acquire_existing-none dev has_ref s e)) tt
    | inr (h, e) ↦ subst (IsExisting pending held) (sym (acquire_existing-some dev has_ref s h e)) (
        if-holds (IsExisting pending held) (not (is_device s.device_id dev)) _ _ (λ _. (v, needed))
          (λ _.
            if-holds (IsExisting pending held) has_ref _ _
              (λ _. (use_master-IsCounted v h e, λ j f. unfold use_master in omega arith))
              (λ _. (v, needed))))
  ]

  pub acquire_existing-IsTaken :
      (dev : ℕ) (has_ref : Bool) (r : Acquired)
      → IsNeeded s
      → (acquire_existing dev has_ref s).0 ≡ some r
      → IsTaken pending held (r, (acquire_existing dev has_ref s).1)
  acquire_existing-IsTaken dev has_ref r needed e =
      existing_taken (acquire_existing dev has_ref s) (found dev has_ref needed) e
    where
      existing_taken :
          (q : Option Acquired × Devices)
          → IsExisting pending held q
          → q.0 ≡ some r
          → IsTaken pending held (r, q.1)
      existing_taken (none, u) h f = cc
      existing_taken (some r1, u) h f = subst (λ (a : Acquired). IsTaken pending held (a, u)) (cc) h
