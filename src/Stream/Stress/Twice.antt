-- ===== src/Stream/Stress/Twice.antt =====
-- stream.c: a stress test is started while one is under way.
use myworkspace.Prelude.{
  ℕ, zero, suc, ◌+◌, ◌*◌, ◌≤◌, ◌≡◌, List, [], ◌∷◌, true, not, ◌||◌, ltb, if-holds, refl, arith,
}
use myworkspace.Stream.{StreamManager, DecodeBackend}
use myworkspace.Stream.Env.{StreamEnv}
use myworkspace.Stream.Table.{has_stream}
use myworkspace.Stream.Stress.{
  StressStart, started, deadlocked, virtual_id, start_copy, start_copies, run_copies,
  start_stress_test,
}

-- A start that succeeds: its numbers were in order, and the test is under way.
pub record IsUnderWay (max_streams copies : ℕ) (mgr : StreamManager) : Type 0 where
  pub from : 1 ≤ copies
  pub to : copies ≤ max_streams
  pub limit : mgr.max_streams ≡ max_streams
  pub enabled : mgr.stress_test.enabled ≡ true

module _ {W : Type 0} (env : StreamEnv W) where
  start_copies-max_streams :
      (rounds i : ℕ) (mgr : StreamManager) (source : ℕ) (backend : DecodeBackend) (w : W)
      → (start_copies env rounds i mgr source backend w).1.0.max_streams ≡ mgr.max_streams
  unfolding start_copies start_copy
  start_copies-max_streams zero i mgr source backend w = refl
  start_copies-max_streams (suc rounds) i mgr source backend w =
      let id = virtual_id source i in
      let (mgr1, w1) = (start_copy env mgr source id backend w).1 in
      if-holds (λ (r : List ℕ × (StreamManager × W)). r.1.0.max_streams ≡ mgr.max_streams)
        (ltb mgr.max_streams id) _ _ (λ _. refl)
        (λ _. start_copies-max_streams rounds (i + 1) mgr1 source backend w1)

  run_copies-IsUnderWay :
      (max_streams copies source : ℕ) (backend : DecodeBackend) (r : List ℕ × (StreamManager × W))
      → 1 ≤ copies
      → copies ≤ max_streams
      → r.1.0.max_streams ≡ max_streams
      → (run_copies env source backend r).0 ≡ started
      → IsUnderWay max_streams copies (run_copies env source backend r).1.0
  unfolding run_copies
  run_copies-IsUnderWay max_streams copies source backend ([], (mgr, w)) from to limit e =
      absurd (ground (arith, e))
  run_copies-IsUnderWay max_streams copies source backend (id ∷ ids, (mgr, w)) from to limit e =
      record { from = from; to = to; limit = limit; enabled = refl }

  pub start_stress_test-IsUnderWay :
      (mgr : StreamManager) (source copies : ℕ) (backend : DecodeBackend) (w : W)
      → (start_stress_test env mgr source copies backend w).0 ≡ started
      → IsUnderWay mgr.max_streams copies (start_stress_test env mgr source copies backend w).1.0
  unfolding start_stress_test
  start_stress_test-IsUnderWay mgr source copies backend w =
      let P = λ (r : StressStart × (StreamManager × W)).
        r.0 ≡ started → IsUnderWay mgr.max_streams copies r.1.0 in
      let (got, w1) = env.malloc (copies * 4) w in
      if-holds P (ltb copies 1 || ltb mgr.max_streams copies) _ _
        (λ _ e. absurd (ground (arith, e)))
        (λ fits.
          if-holds P mgr.stress_test.enabled _ _ (λ _ e. absurd (ground (arith, e)))
            (λ _.
              if-holds P (not (has_stream mgr source) || not (mgr.streams source).info_received) _ _
                (λ _ e. absurd (ground (arith, e)))
                (λ _.
                  if-holds P got _ _
                    (λ _.
                      run_copies-IsUnderWay mgr.max_streams copies source backend
                        (start_copies env copies 0 mgr source backend w1) (ground (arith, fits))
                        (ground (arith, fits))
                        (start_copies-max_streams copies 0 mgr source backend w1))
                    (λ _ e. absurd (ground (arith, e))))))

  -- The thread waits for `mgr->lock`, which it holds.
  pub start_stress_test-deadlocked :
      (max_streams copies source : ℕ) (mgr : StreamManager) (backend : DecodeBackend) (w : W)
      → IsUnderWay max_streams copies mgr
      → start_stress_test env mgr source copies backend w ≡ (deadlocked, (mgr, w))
  unfolding start_stress_test
  start_stress_test-deadlocked max_streams copies source mgr backend w on =
      ground (arith, on.from, on.to, on.limit, on.enabled)
