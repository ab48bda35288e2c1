-- ===== src/Decode/Tests.antt =====
-- Decoders that share a CUDA device, run.
use myworkspace.Prelude.{
  ℕ, ◌+◌, ◌-◌, ◌≡◌, ◌↔◌, refl, [], ◌∷◌, none, true, false, arith, if◌then◌else◌,
}
use myworkspace.Recorder.{update}
use myworkspace.Decode.Device.{acquire_created, create, give_back}
use myworkspace.Decode.Device.Counts.{one, is_master, taken_by}
use myworkspace.Decode.Device.Users.{
  Threads, Moves, still, onward, created, second, destroyed, no_device, device_users,
}

-- Two threads create a device each before either enters the second section; the later one drops its own.
abbrev t1 : Threads
t1 = record no_device { shared = create no_device.shared; pending = update no_device.pending 0 1 }

abbrev t2 : Threads
t2 = record t1 { shared = create t1.shared; pending = update t1.pending 1 1 }

abbrev enter : Threads → ℕ → Threads
enter t h =
    let q = acquire_created h 3 true t.shared in
    record {
      shared = q.1;
      pending = update t.pending h (t.pending h - 1);
      held = taken_by q.0 t.held;
    }

-- One of the two decoders is destroyed.
abbrev left_one : Threads
left_one =
    let t = enter (enter t2 1) 0 in
    record t { shared = give_back 1 t.shared; held = update t.held 1 (t.held 1 - 1) }

moves : Moves no_device left_one
unfolding create
moves =
    onward
      (onward
        (onward (onward (onward (still no_device) (created no_device)) (created t1))
          (second t2 1 3 true (omega arith)))
        (second (enter t2 1) 0 3 true (omega arith)))
      (destroyed (enter (enter t2 1) 0) 1 (unfold create acquire_created in omega arith))

device_users_example :
    (left_one.shared.dropped_twice ≡ false)
    × ((h : ℕ)
        → left_one.shared.refs h
          ≡ one (is_master left_one.shared h) + left_one.pending h + left_one.held h)
    × ((h : ℕ)
        → left_one.held h ≡ (if is_master left_one.shared h then left_one.shared.users else 0))
    × ((left_one.shared.master ≡ none) ↔ (left_one.shared.users ≡ 0))
device_users_example = device_users moves

-- The decoder that is left has the device, and the other handle is gone.
refs_left :
    left_one.shared.users ∷ left_one.shared.refs 0 ∷ left_one.shared.refs 1 ∷ [] ≡ 1 ∷ 0 ∷ 2 ∷ []
unfolding create acquire_created give_back
refs_left = refl
