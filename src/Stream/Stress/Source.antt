-- ===== src/Stream/Stress/Source.antt =====
-- stream.c: what the start of a stress test leaves alone.
use myworkspace.Prelude.{
  ℕ, zero, suc, ◌+◌, ◌*◌, List, [], ◌∷◌, Bool, true, false, not, ◌||◌, ltb, if-holds, ◌≡◌, ◌≢◌,
  arith, refl, ◌∙◌,
}
use myworkspace.Stream.{StreamManager, DecodeBackend}
use myworkspace.Stream.Env.{StreamEnv}
use myworkspace.Stream.Table.{has_stream}
use myworkspace.Stream.Stress.{
  StressStart, virtual_id, start_copy, start_copies, run_copies, start_stress_test,
}

-- The copies are told apart from the source.
virtual_id_lem : (source i : ℕ) → virtual_id source i ≢ source
unfolding virtual_id
virtual_id_lem source i = ground arith

-- The source's slot and the test's record are those of `before`.
abbrev Untouched : ℕ → StreamManager → StreamManager → Type 0
Untouched source before after =
    (after.streams source ≡ before.streams source) × (after.stress_test ≡ before.stress_test)

abbrev pub is_deadlocked : StressStart → Bool
is_deadlocked StressStart.started = false
is_deadlocked StressStart.refused = false
is_deadlocked StressStart.deadlocked = true

abbrev pub is_started : StressStart → Bool
is_started StressStart.started = true
is_started StressStart.refused = false
is_started StressStart.deadlocked = false

module _ {W : Type 0} (env : StreamEnv W) where
  start_copy-Untouched :
      (mgr : StreamManager) (source id : ℕ) (backend : DecodeBackend) (w : W)
      → id ≢ source
      → Untouched source mgr (start_copy env mgr source id backend w).1.0
  unfolding start_copy
  start_copy-Untouched mgr source id backend w other = (ground arith, refl)

  start_copies-Untouched :
      (rounds i : ℕ) (mgr : StreamManager) (source : ℕ) (backend : DecodeBackend) (w : W)
      → Untouched source mgr (start_copies env rounds i mgr source backend w).1.0
  unfolding start_copies
  start_copies-Untouched zero i mgr source backend w = (refl, refl)
  start_copies-Untouched (suc rounds) i mgr source backend w =
      let id = virtual_id source i in
      let (mgr1, w1) = (start_copy env mgr source id backend w).1 in
      let (slot, test) = start_copy-Untouched mgr source id backend w (virtual_id_lem source i) in
      let (slot1, test1) = start_copies-Untouched rounds (i + 1) mgr1 source backend w1 in
      if-holds (λ (r : List ℕ × (StreamManager × W)). Untouched source mgr r.1.0)
        (ltb mgr.max_streams id) _ _ (λ e. (refl, refl)) (λ e. (slot1 ∙ slot, test1 ∙ test))

  -- The source keeps its slot; the thread does not hang; the test is under way only if it was started.
  pub record Starts (source : ℕ) (mgr : StreamManager) (r : StressStart × (StreamManager × W))
      : Type 0 where
    pub slot : r.1.0.streams source ≡ mgr.streams source
    pub runs : is_deadlocked r.0 ≡ false
    pub under_way : r.1.0.stress_test.enabled ≡ true → is_started r.0 ≡ true

  run_copies-Starts :
      (source : ℕ) (mgr : StreamManager) (backend : DecodeBackend)
      (r : List ℕ × (StreamManager × W))
      → mgr.stress_test.enabled ≡ false
      → Untouched source mgr r.1.0
      → Starts source mgr (run_copies env source backend r)
  unfolding run_copies
  run_copies-Starts source mgr backend ([], (mgr1, w)) off (slot, test) = record {
    slot = slot;
    runs = refl;
    under_way = λ e. absurd (ground (arith, test));
  }
  run_copies-Starts source mgr backend (id ∷ ids, (mgr1, w)) off (slot, test) = record {
    slot = slot;
    runs = refl;
    under_way = λ e. refl;
  }

  pub start_stress_test-Starts :
      (mgr : StreamManager) (source n : ℕ) (backend : DecodeBackend) (w : W)
      → mgr.stress_test.enabled ≡ false
      → Starts source mgr (start_stress_test env mgr source n backend w)
  unfolding start_stress_test
  start_stress_test-Starts mgr source n backend w off =
      let refused : (w : W) → Starts source mgr (StressStart.refused, (mgr, w)) =
        λ w. record { slot = refl; runs = refl; under_way = λ e. absurd (ground arith) } in
      if-holds (Starts source mgr) (ltb n 1 || ltb mgr.max_streams n) _ _ (λ e. refused w)
        (λ e.
          if-holds (Starts source mgr) mgr.stress_test.enabled _ _ (λ e. absurd (ground arith))
            (λ e.
              if-holds (Starts source mgr)
                (not (has_stream mgr source) || not (mgr.streams source).info_received) _ _
                (λ e. refused w)
                (λ e.
                  let (got, w1) = env.malloc (n * 4) w in
                  if-holds (Starts source mgr) got _ _
                    (λ e.
                      run_copies-Starts source mgr backend
                        (start_copies env n 0 mgr source backend w1) off
                        (start_copies-Untouched n 0 mgr source backend w1))
                    (λ e. refused w1))))
