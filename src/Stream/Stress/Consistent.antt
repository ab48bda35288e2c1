-- ===== src/Stream/Stress/Consistent.antt =====
-- stream.c: the streams of the table stay consistent while a stress test starts.
use myworkspace.Prelude.{
  ℕ, zero, suc, ◌+◌, ◌*◌, List, [], ◌∷◌, Bool, not, ◌||◌, ◌==◌, ltb, if-holds, refl,
}
use myworkspace.Stream.{StreamContext, StreamManager, StreamState, DecodeBackend}
use myworkspace.Stream.Env.{StreamEnv}
use myworkspace.Stream.Table.{put_stream, has_stream}
use myworkspace.Stream.Decoder.{stream_set_info, stream_init_decoder}
use myworkspace.Stream.Decoder.Consistent.{IsConsistent, stream_init_decoder-IsConsistent}
use myworkspace.Stream.Stress.{
  StressStart, virtual_id, start_copy, start_copies, run_copies, start_stress_test,
  stress_test_decode,
}

abbrev pub AllConsistent : StreamManager → Type 0
AllConsistent mgr = (id : ℕ) → IsConsistent (mgr.streams id)

pub put_stream-AllConsistent :
    (mgr : StreamManager) (id : ℕ) (s : StreamContext)
    → AllConsistent mgr
    → IsConsistent s
    → AllConsistent (put_stream mgr id s)
put_stream-AllConsistent mgr id s all v i =
    if-holds IsConsistent (id == i) s (mgr.streams i) (λ e. v) (λ e. all i)

module _ {W : Type 0} (env : StreamEnv W) where
  start_copy-AllConsistent :
      (mgr : StreamManager) (source id : ℕ) (backend : DecodeBackend) (w : W)
      → AllConsistent mgr
      → AllConsistent (start_copy env mgr source id backend w).1.0
  unfolding start_copy stream_set_info
  start_copy-AllConsistent mgr source id backend w all =
      let s = record (stream_set_info (mgr.streams id) (mgr.streams source).info) {
        state = StreamState.active;
      } in
      put_stream-AllConsistent mgr id (stream_init_decoder env s backend w).1.0 all (
        stream_init_decoder-IsConsistent env s backend w
          (record { decoder = (all id).decoder; informed = λ e. refl }))

  start_copies-AllConsistent :
      (rounds i : ℕ) (mgr : StreamManager) (source : ℕ) (backend : DecodeBackend) (w : W)
      → AllConsistent mgr
      → AllConsistent (start_copies env rounds i mgr source backend w).1.0
  unfolding start_copies
  start_copies-AllConsistent zero i mgr source backend w all = all
  start_copies-AllConsistent (suc rounds) i mgr source backend w all =
      let id = virtual_id source i in
      let (mgr1, w1) = (start_copy env mgr source id backend w).1 in
      if-holds (λ (r : List ℕ × (StreamManager × W)). AllConsistent r.1.0) (ltb mgr.max_streams id)
        _ _ (λ e. all)
        (λ e.
          start_copies-AllConsistent rounds (i + 1) mgr1 source backend w1
            (start_copy-AllConsistent mgr source id backend w all))

  run_copies-AllConsistent :
      (source : ℕ) (backend : DecodeBackend) (r : List ℕ × (StreamManager × W))
      → AllConsistent r.1.0
      → AllConsistent (run_copies env source backend r).1.0
  unfolding run_copies
  run_copies-AllConsistent source backend ([], (mgr, w)) all = all
  run_copies-AllConsistent source backend (id ∷ ids, (mgr, w)) all = all

  pub start_stress_test-AllConsistent :
      (mgr : StreamManager) (source n : ℕ) (backend : DecodeBackend) (w : W)
      → AllConsistent mgr
      → AllConsistent (start_stress_test env mgr source n backend w).1.0
  unfolding start_stress_test
  start_stress_test-AllConsistent mgr source n backend w all =
      let Holds = λ (r : StressStart × (StreamManager × W)). AllConsistent r.1.0 in
      if-holds Holds (ltb n 1 || ltb mgr.max_streams n) _ _ (λ e. all)
        (λ e.
          if-holds Holds mgr.stress_test.enabled _ _ (λ e. all)
            (λ e.
              if-holds Holds (not (has_stream mgr source) || not (mgr.streams source).info_received)
                _ _ (λ e. all)
                (λ e.
                  let (got, w1) = env.malloc (n * 4) w in
                  if-holds Holds got _ _
                    (λ e.
                      run_copies-AllConsistent source backend
                        (start_copies env n 0 mgr source backend w1)
                        (start_copies-AllConsistent n 0 mgr source backend w1 all))
                    (λ e. all))))

  pub stress_test_decode-AllConsistent :
      (mgr : StreamManager) (source : ℕ) (d : List ℕ) (w : W)
      → AllConsistent mgr
      → AllConsistent (stress_test_decode env mgr source d w).1.0
  unfolding stress_test_decode
  stress_test_decode-AllConsistent mgr source d w all id =
      let Holds = λ (r : Bool × (StreamManager × W)). IsConsistent (r.1.0.streams id) in
      if-holds Holds (not mgr.stress_test.enabled) _ _ (λ e. all id)
        (λ e.
          if-holds Holds (not (source == mgr.stress_test.source_stream_id)) _ _ (λ e. all id)
            (λ e. all id))
