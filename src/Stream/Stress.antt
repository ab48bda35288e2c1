-- ===== src/Stream/Stress.antt =====
-- stream.c: the stress test, which copies the packets of one stream to decoders of others. The arrays of
-- a decoding thread are one `StressQueue`. The small allocations that the code does not check are taken
-- to succeed; a buffer of 256 KiB that could not be had has capacity 0.
pub mod Consistent
pub mod Source
pub mod Twice
use myworkspace.Prelude.{
  ℕ, zero, suc, ◌+◌, ◌*◌, List, [], ◌∷◌, length, Bool, true, false, not, ◌&&◌, ◌||◌, ◌==◌, ltb, leb,
  if◌then◌else◌,
}
use myworkspace.Stream.{
  StreamManager, StreamContext, StreamState, DecodeBackend, StressQueue, StressTestConfig,
}
use myworkspace.Stream.Env.{StreamEnv, DecodeRet}
use myworkspace.Stream.Decoder.{
  stream_set_info, stream_set_state, stream_init_decoder, stream_close_decoder, stream_decode_video,
}
use myworkspace.Stream.Table.{has_stream, put_stream}

abbrev pub queue_capacity : ℕ
queue_capacity = 256 * 1024

-- 0, -1, or that the thread waits for `mgr->lock`, which it holds itself.
pub data StressStart : Type 0 where
  started refused deadlocked : StressStart

-- The `i`-th slot, with the source left out.
unfoldable pub virtual_id : ℕ → ℕ → ℕ
virtual_id source i = if leb source (i + 1) then i + 2 else i + 1

module _ {W : Type 0} (env : StreamEnv W) where
  -- A slot takes the source's information and gets a decoder.
  unfoldable pub start_copy : StreamManager → ℕ → ℕ → DecodeBackend → W → Bool × (StreamManager × W)
  start_copy mgr source id backend w =
      let s = record (stream_set_info (mgr.streams id) (mgr.streams source).info) {
        state = StreamState.active;
      } in
      let (ok, (s1, w1)) = stream_init_decoder env s backend w in (ok, (put_stream mgr id s1, w1))

  -- The loop over the copies from `i` on, `rounds` of them; the ids that got a decoder.
  unfoldable pub start_copies :
      ℕ → ℕ → StreamManager → ℕ → DecodeBackend → W → List ℕ × (StreamManager × W)
  start_copies zero i mgr source backend w = ([], (mgr, w))
  start_copies (suc rounds) i mgr source backend w =
      let id = virtual_id source i in
      let (ok, (mgr1, w1)) = start_copy mgr source id backend w in
      let rest = start_copies rounds (i + 1) mgr1 source backend w1 in
      if ltb mgr.max_streams id
      then ([], (mgr, w))
      else ((if ok then id ∷ rest.0 else rest.0), rest.1)

  -- One thread's queue for each id.
  unfoldable pub new_queues : List ℕ → W → List StressQueue × W
  new_queues [] w = ([], w)
  new_queues (id ∷ ids) w =
      let (got, w1) = env.malloc queue_capacity w in
      let (rest, w2) = new_queues ids w1 in
      (
        record {
          stream_id = id;
          queue_data = [];
          capacity = (if got then queue_capacity else 0);
          ready = false;
        }
            ∷ rest,
        w2,
      )

  run_copies : ℕ → DecodeBackend → List ℕ × (StreamManager × W) → StressStart × (StreamManager × W)
  run_copies source backend ([], (mgr, w)) = (StressStart.refused, (mgr, w))
  run_copies source backend (id ∷ ids, (mgr, w)) =
      let (now, w1) = env.time w in
      let (queues, w2) = new_queues (id ∷ ids) w1 in
      (
        StressStart.started,
        (
          record mgr {
            stress_test = record {
              enabled = true;
              source_stream_id = source;
              queues = queues;
              backend = backend;
              start_time = now;
              end_time = 0;
              threads_running = true;
            };
          },
          w2,
        ),
      )

  -- With a test under way the code calls `stream_manager_stop_stress_test`, which takes the lock again.
  unfoldable pub start_stress_test :
      StreamManager → ℕ → ℕ → DecodeBackend → W → StressStart × (StreamManager × W)
  unfolding run_copies
  start_stress_test mgr source num_copies backend w =
      if ltb num_copies 1 || ltb mgr.max_streams num_copies
      then (StressStart.refused, (mgr, w))
      else if mgr.stress_test.enabled
      then (StressStart.deadlocked, (mgr, w))
      else if not (has_stream mgr source) || not (mgr.streams source).info_received
      then (StressStart.refused, (mgr, w))
      else (let (got, w1) = env.malloc (num_copies * 4) w in
          if got
          then run_copies source backend (start_copies num_copies 0 mgr source backend w1)
          else (StressStart.refused, (mgr, w1)))

  unfoldable pub close_copies : List StressQueue → StreamManager → W → StreamManager × W
  close_copies [] mgr w = (mgr, w)
  close_copies (q ∷ queues) mgr w =
      let (s1, w1) = stream_close_decoder env (mgr.streams q.stream_id) w in
      let (s2, w2) = stream_set_state env s1 StreamState.idle w1 in
      let (mgr1, w3) =
        if has_stream mgr q.stream_id then (put_stream mgr q.stream_id s2, w2) else (mgr, w) in
      close_copies queues mgr1 w3

  -- The threads have been joined where the decoders are closed.
  unfoldable pub stop_stress_test : StreamManager → W → StreamManager × W
  stop_stress_test mgr w =
      if not mgr.stress_test.enabled
      then (mgr, w)
      else (let (now, w1) = env.time w in
          let (mgr1, w2) = close_copies mgr.stress_test.queues mgr w1 in
          (
            record mgr1 {
              stress_test = record mgr1.stress_test {
                enabled = false;
                end_time = now;
                queues = [];
                threads_running = false;
              };
            },
            w2,
          ))

  -- A packet takes the place of what a thread has not fetched yet.
  fill_queue : StressQueue → List ℕ → Bool × W → StressQueue × W
  fill_queue q d (true, w) = (record q { capacity = length d; queue_data = d; ready = true }, w)
  fill_queue q d (false, w) = (q, w)

  unfoldable pub fill_queues : List StressQueue → List ℕ → W → List StressQueue × W
  unfolding fill_queue
  fill_queues [] d w = ([], w)
  fill_queues (q ∷ queues) d w =
      let (q1, w1) =
        if ltb queue_capacity (length d)
        then fill_queue q d (env.realloc (length d) w)
        else (record q { queue_data = d; ready = true }, w) in
      let (rest, w2) = fill_queues queues d w1 in (q1 ∷ rest, w2)

  -- The result of `stream_stress_test_decode` is -1 where no test runs.
  unfoldable pub stress_test_decode : StreamManager → ℕ → List ℕ → W → Bool × (StreamManager × W)
  stress_test_decode mgr source d w =
      if not mgr.stress_test.enabled
      then (false, (mgr, w))
      else if not (source == mgr.stress_test.source_stream_id)
      then (true, (mgr, w))
      else (let (queues, w1) = fill_queues mgr.stress_test.queues d w in
          (true, (record mgr { stress_test = record mgr.stress_test { queues = queues } }, w1)))

  -- What a thread does with a packet that it has fetched.
  unfoldable pub stress_decode : StreamManager → StressQueue → W → StreamManager × W
  stress_decode mgr q w =
      if has_stream mgr q.stream_id && (mgr.streams q.stream_id).decoder_initialized
      then (let (s1, w1) = (stream_decode_video env (mgr.streams q.stream_id) q.queue_data w).1 in
          (put_stream mgr q.stream_id s1, w1))
      else (mgr, w)
