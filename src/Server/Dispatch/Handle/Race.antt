-- ===== src/Server/Dispatch/Handle/Race.antt =====
-- server.c: two handler threads that start the stress test at the same time.
use myworkspace.Prelude.{
  ℕ, ◌≡◌, ◌∙◌, sym, ap, refl, List, Option, none, some, Bool, true, false, not, ◌&&◌, if-holds,
  arith, subst,
}
use myworkspace.Stream.{StreamManager, DecodeBackend}
use myworkspace.Stream.Stress.{StressStart, started, refused, deadlocked, start_stress_test}
use myworkspace.Stream.Stress.Twice.{
  IsUnderWay, start_stress_test-IsUnderWay, start_stress_test-deadlocked,
}
use myworkspace.Server.Dispatch.{ServerEnv, Live, stress_variable, copies_variable}
use myworkspace.Server.Dispatch.Handle.{copies_of, stress_wanted, with_stress, maybe_stress}

-- The server as a thread goes on with it that has read `g_stress_test_enabled` while it was 0.
abbrev pub flag_read_before : {W : Type 0} → Live W → Live W
flag_read_before l = record l { server = record l.server { stress_test_enabled = false } }

module _ {W : Type 0} (env : ServerEnv W) where
  -- The same variable gives the same number of copies.
  copies_of-again :
      (old : ℕ) (o : Option (List ℕ)) → copies_of env (copies_of env old o) o ≡ copies_of env old o
  unfolding copies_of
  copies_of-again old none = refl
  copies_of-again old (some value) = refl

  -- What a start leaves that has set the flag and let the thread go on.
  IsStarted : ℕ → ℕ → Live W → Type 0
  IsStarted max_streams copies l =
      IsUnderWay max_streams copies l.server.stream_mgr × (l.server.stress_test_copies ≡ copies)

  with_stress-IsStarted :
      (l : Live W) (max_streams copies : ℕ) (r : StressStart × (StreamManager × W))
      → (r.0 ≡ started → IsUnderWay max_streams copies r.1.0)
      → (with_stress env l copies r).server.stress_test_enabled ≡ true
      → (with_stress env l copies r).hung ≡ false
      → IsStarted max_streams copies (with_stress env l copies r)
  unfolding with_stress IsStarted
  with_stress-IsStarted l max_streams copies (started, (mgr, w)) on flag runs = (on refl, refl)
  with_stress-IsStarted l max_streams copies (refused, (mgr, w)) on flag runs =
      absurd (ground arith)
  with_stress-IsStarted l max_streams copies (deadlocked, (mgr, w)) on flag runs =
      absurd (ground arith)

  abbrev wanted : Bool
  wanted = stress_wanted env (env.stream.getenv stress_variable)

  abbrev copies_at : Live W → ℕ
  copies_at l = copies_of env l.server.stress_test_copies (env.stream.getenv copies_variable)

  maybe_stress-IsStarted :
      (l : Live W) (id : ℕ) (backend : DecodeBackend)
      → l.server.stress_test_enabled ≡ false
      → (maybe_stress env l id backend).server.stress_test_enabled ≡ true
      → (maybe_stress env l id backend).hung ≡ false
      → (wanted ≡ true)
        × IsStarted l.server.stream_mgr.max_streams (copies_at l) (maybe_stress env l id backend)
  unfolding maybe_stress
  maybe_stress-IsStarted l id backend off =
      let mgr = l.server.stream_mgr in
      if-holds
        (λ (t : Live W).
          t.server.stress_test_enabled ≡ true
          → t.hung ≡ false
          → (wanted ≡ true) × IsStarted mgr.max_streams (copies_at l) t)
        (not l.server.stress_test_enabled && wanted) _ _
        (λ e flag runs. (
          ground (arith, e),
          with_stress-IsStarted l mgr.max_streams (copies_at l)
              (start_stress_test env.stream mgr id (copies_at l) backend l.w)
              (start_stress_test-IsUnderWay env.stream mgr id (copies_at l) backend l.w) flag runs,
        ))
        (λ e flag runs. absurd (ground (arith, off, flag)))

  with_stress-hung :
      (l : Live W) (copies : ℕ) (r : StressStart × (StreamManager × W))
      → r.0 ≡ deadlocked
      → (with_stress env l copies r).hung ≡ true
  unfolding with_stress
  with_stress-hung l copies (started, (mgr, w)) e = absurd (ground arith)
  with_stress-hung l copies (refused, (mgr, w)) e = absurd (ground arith)
  with_stress-hung l copies (deadlocked, (mgr, w)) e = refl

  maybe_stress-hung :
      (l : Live W) (id max_streams copies : ℕ) (backend : DecodeBackend)
      → l.server.stress_test_enabled ≡ false
      → wanted ≡ true
      → copies_at l ≡ copies
      → IsUnderWay max_streams copies l.server.stream_mgr
      → (maybe_stress env l id backend).hung ≡ true
  unfolding maybe_stress
  maybe_stress-hung l id max_streams copies backend off want same on =
      if-holds (λ (t : Live W). t.hung ≡ true) (not l.server.stress_test_enabled && wanted) _ _
        (λ e.
          with_stress-hung l (copies_at l)
            (start_stress_test env.stream l.server.stream_mgr id (copies_at l) backend l.w)
            (ap (λ r. r.0)
              (start_stress_test-deadlocked env.stream max_streams (copies_at l) id
                l.server.stream_mgr backend l.w
                (subst (λ n. IsUnderWay max_streams n l.server.stream_mgr) (sym same) on))))
        (λ e. absurd (ground (arith, off, want, e)))

  -- `handle_packet` tests and sets the flag of the stress test without a lock: where two threads start a
  -- stream each and both have read the flag while it was 0, and the start of the first succeeds, the second
  -- one waits for a lock that it holds itself, whatever the two streams and backends are.
  pub maybe_stress-twice :
      (l : Live W) (id id2 : ℕ) (backend backend2 : DecodeBackend)
      → let l1 = maybe_stress env l id backend in
        l.server.stress_test_enabled ≡ false
        → l1.server.stress_test_enabled ≡ true
        → l1.hung ≡ false
        → (maybe_stress env (flag_read_before l1) id2 backend2).hung ≡ true
  unfolding IsStarted
  maybe_stress-twice l id id2 backend backend2 off flag runs =
      let l1 = maybe_stress env l id backend in
      let (want, (on, copies)) = maybe_stress-IsStarted l id backend off flag runs in
      let variable = env.stream.getenv copies_variable in
      maybe_stress-hung (flag_read_before l1) id2 l.server.stream_mgr.max_streams (copies_at l)
        backend2 refl want
        (ap (λ n. copies_of env n variable) copies
          ∙ copies_of-again l.server.stress_test_copies variable)
        on
