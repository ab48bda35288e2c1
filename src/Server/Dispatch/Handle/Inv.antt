-- ===== src/Server/Dispatch/Handle/Inv.antt =====
-- server.c: what is in order before and after a packet, and the start of a stream.
use myworkspace.Prelude.{ℕ, Bool, true, false, not, ◌&&◌, if-holds, ◌≡◌, arith, refl}
use myworkspace.Protocol.{StreamInfo}
use myworkspace.Recorder.Queue.Bounded.{QueueInv}
use myworkspace.Stream.{StreamContext, StreamManager, StreamState, DecodeBackend}
use myworkspace.Stream.Decoder.{stream_set_info, stream_set_state}
use myworkspace.Stream.Decoder.Consistent.{
  IsConsistent, stream_set_info-IsConsistent, stream_set_state-IsConsistent,
  stream_init_decoder-IsConsistent,
}
use myworkspace.Stream.Stress.{StressStart, started, refused, deadlocked, start_stress_test}
use myworkspace.Stream.Stress.Consistent.{
  AllConsistent, put_stream-AllConsistent, start_stress_test-AllConsistent,
}
use myworkspace.Stream.Stress.Source.{Starts, start_stress_test-Starts}
use myworkspace.Watchdog.{StreamWatch}
use myworkspace.Server.Dispatch.{
  ServerEnv, TcpServer, Live, put_watch, run_watch, get_decode_backend, stress_variable,
  copies_variable,
}
use myworkspace.Server.Dispatch.Recording.{record_start-QueueInv}
use myworkspace.Server.Dispatch.Handle.{
  reset_watch, put, stream_at, copies_of, stress_wanted, with_stress, maybe_stress, begin_stream,
  tell_recorder_start, watch_stream, ask_now, start_with,
}

-- Each stream's flags tell what it holds, the recorder's counters tell its queue, and a stress test is
-- under way only where the flag for it is set.
pub record ServerInv (server : TcpServer) : Type 0 where
  pub streams : AllConsistent server.stream_mgr
  pub queue : QueueInv server.recorder
  pub stress : server.stream_mgr.stress_test.enabled ≡ true → server.stress_test_enabled ≡ true

pub record LiveInv {W : Type 0} (l : Live W) : Type 0 where
  pub server : ServerInv l.server
  pub runs : l.hung ≡ false

pub put-LiveInv :
    {W : Type 0} (l : Live W) (id : ℕ) (x : StreamContext × W)
    → LiveInv l
    → IsConsistent x.0
    → LiveInv (put l id x)
put-LiveInv l id (s, w) v ok = record {
  server = record {
    streams = put_stream-AllConsistent l.server.stream_mgr id s v.server.streams ok;
    queue = v.server.queue;
    stress = v.server.stress;
  };
  runs = v.runs;
}

-- A test that is under way has its flag, so a clear flag says that none is.
pub off_lem :
    (enabled flag wanted : Bool)
    → (enabled ≡ true → flag ≡ true)
    → not flag && wanted ≡ true
    → enabled ≡ false
off_lem false flag wanted h e = refl
off_lem true flag wanted h e = absurd (ground (arith, h refl))

module _ {W : Type 0} (env : ServerEnv W) where
  pub stream_at-IsConsistent : (l : Live W) (id : ℕ) → LiveInv l → IsConsistent (stream_at l id)
  stream_at-IsConsistent l id v = v.server.streams id

  pub watch_stream-LiveInv :
      (watch : StreamWatch → ℕ → ℕ → Bool × StreamWatch) (l : Live W) (id : ℕ)
      → LiveInv l
      → LiveInv (watch_stream env watch l id)
  unfolding watch_stream run_watch put_watch
  watch_stream-LiveInv watch l id v =
      let ok = stream_at-IsConsistent l id v in
      put-LiveInv l id (run_watch env watch l.server (stream_at l id) l.w) v
        (record { decoder = ok.decoder; informed = ok.informed })

  pub begin_stream-IsConsistent :
      (s : StreamContext) (info : StreamInfo) (w : W)
      → IsConsistent s
      → IsConsistent (begin_stream env s info w).0
  unfolding begin_stream reset_watch stream_set_info
  begin_stream-IsConsistent s info w v =
      let s0 = stream_set_info s info in
      let (s1, w1) = stream_set_state env.stream s0 StreamState.active w in
      let (now, w2) = env.monotonic_ns w1 in
      let ok =
        stream_set_state-IsConsistent env.stream s0 StreamState.active w
          (stream_set_info-IsConsistent s info v) (λ e. refl) in
      stream_init_decoder-IsConsistent env.stream (reset_watch s1 now) (get_decode_backend env) w2
        (record { decoder = ok.decoder; informed = ok.informed })

  pub tell_recorder_start-LiveInv :
      (l : Live W) (id : ℕ) (info : StreamInfo)
      → LiveInv l
      → LiveInv (tell_recorder_start env l id info)
  unfolding tell_recorder_start
  tell_recorder_start-LiveInv l id info v = record {
    server = record {
      streams = v.server.streams;
      queue = record_start-QueueInv env l.server.recorder id info l.w v.server.queue;
      stress = v.server.stress;
    };
    runs = v.runs;
  }

  with_stress-LiveInv :
      (l : Live W) (copies source : ℕ) (r : StressStart × (StreamManager × W))
      → LiveInv l
      → AllConsistent r.1.0
      → Starts env.stream source l.server.stream_mgr r
      → LiveInv (with_stress env l copies r)
  unfolding with_stress
  with_stress-LiveInv l copies source (started, (mgr, w)) v all h = record {
    server = record { streams = all; queue = v.server.queue; stress = λ e. refl };
    runs = v.runs;
  }
  with_stress-LiveInv l copies source (refused, (mgr, w)) v all h = record {
    server = record { streams = all; queue = v.server.queue; stress = h.under_way };
    runs = v.runs;
  }
  with_stress-LiveInv l copies source (deadlocked, (mgr, w)) v all h =
      absurd (ground (arith, h.runs))

  maybe_stress-LiveInv :
      (l : Live W) (id : ℕ) (backend : DecodeBackend)
      → LiveInv l
      → LiveInv (maybe_stress env l id backend)
  unfolding maybe_stress
  maybe_stress-LiveInv l id backend v =
      let copies = copies_of env l.server.stress_test_copies (env.stream.getenv copies_variable) in
      let mgr = l.server.stream_mgr in
      if-holds LiveInv
        (not l.server.stress_test_enabled && stress_wanted env (env.stream.getenv stress_variable))
        _ _
        (λ e.
          with_stress-LiveInv l copies id (start_stress_test env.stream mgr id copies backend l.w) v
            (start_stress_test-AllConsistent env.stream mgr id copies backend l.w v.server.streams)
            (start_stress_test-Starts env.stream mgr id copies backend l.w
              (off_lem mgr.stress_test.enabled l.server.stress_test_enabled _ v.server.stress e)))
        (λ e. v)

  -- Before the stress test is looked at.
  abbrev pub begun : Live W → ℕ → StreamInfo → Live W
  begun l id info =
      let l1 = record (put l id (begin_stream env (stream_at l id) info l.w)) {
        current_stream_id = id;
      } in
      watch_stream env (ask_now env) (tell_recorder_start env l1 id info) id

  pub begun-LiveInv :
      (l : Live W) (id : ℕ) (info : StreamInfo) → LiveInv l → LiveInv (begun l id info)
  begun-LiveInv l id info v =
      let l1 = record (put l id (begin_stream env (stream_at l id) info l.w)) {
        current_stream_id = id;
      } in
      let v0 =
        put-LiveInv l id (begin_stream env (stream_at l id) info l.w) v
          (begin_stream-IsConsistent (stream_at l id) info l.w (stream_at-IsConsistent l id v)) in
      let v1 : LiveInv l1 = record { server = v0.server; runs = v0.runs } in
      watch_stream-LiveInv (ask_now env) (tell_recorder_start env l1 id info) id
        (tell_recorder_start-LiveInv l1 id info v1)

  pub start_with-LiveInv :
      (l : Live W) (id : ℕ) (info : StreamInfo) → LiveInv l → LiveInv (start_with env l id info)
  unfolding start_with
  start_with-LiveInv l id info v =
      maybe_stress-LiveInv (begun l id info) id (get_decode_backend env) (begun-LiveInv l id info v)
