-- ===== src/Server/Dispatch/Handle.antt =====
-- server.c: `handle_packet`, as one handler thread runs it where no other one changes the server in between.
-- What two threads make of the flag of the stress test, which has no lock, is in Race.
pub mod Inv
pub mod Keeps
pub mod Race
pub mod Restart
use myworkspace.Prelude.{
  ℕ, ◌+◌, ◌-◌, List, [], ◌∷◌, Option, none, some, Bool, true, false, not, ◌&&◌, ◌||◌, leb, ltb,
  ◌==◌, if◌then◌else◌, add64,
}
use myworkspace.Protocol.{
  PacketHeader, StreamInfo, parse_stream_info, tcp_header_size, default_max_streams, video_data,
  heartbeat, stream_start, stream_stop,
}
use myworkspace.Tap.Publish.{publish}
use myworkspace.Stream.{StreamManager, StreamContext, StreamState, DecodeBackend}
use myworkspace.Stream.Decoder.{
  stream_set_info, stream_set_state, stream_update_stats, stream_init_decoder, stream_close_decoder,
  stream_decode_video,
}
use myworkspace.Stream.Table.{has_stream, put_stream}
use myworkspace.Stream.Stress.{
  StressStart, started, refused, deadlocked, start_stress_test, stress_test_decode,
}
use myworkspace.Watchdog.{
  StreamWatch, request_idr_for_stream, request_idr_for_no_decode, request_idr_for_decode_stall,
}
use myworkspace.Server.Dispatch.{
  ServerEnv, TcpServer, Live, stress_variable, copies_variable, server_runtime_max_streams,
  run_watch, get_decode_backend, maybe_start_h264_tap, request_idr_best_effort, record_start,
  record_stop, record_video,
}

-- A new session of the watchdogs.
unfoldable pub reset_watch : StreamContext → ℕ → StreamContext
reset_watch s now = record s {
  last_idr_request_ns = 0;
  watchdog_last_received = 0;
  watchdog_last_decoded = 0;
  watchdog_last_decoded_change_ns = now;
  decode_stall_last_idr_ns = 0;
  decode_stall_count = 0;
}

-- A stream of the server changed.
abbrev pub put : {W : Type 0} → Live W → ℕ → StreamContext × W → Live W
put l id (s, w) = record l {
  w = w;
  server = record l.server { stream_mgr = put_stream l.server.stream_mgr id s };
}

abbrev pub stream_at : {W : Type 0} → Live W → ℕ → StreamContext
stream_at l id = l.server.stream_mgr.streams id

module _ {W : Type 0} (env : ServerEnv W) where
  copies_of : ℕ → Option (List ℕ) → ℕ
  copies_of old none = old
  copies_of old (some value) =
      let n = env.atoi value in
      let m = if n == 0 then default_max_streams else n in
      if ltb (server_runtime_max_streams env) m then server_runtime_max_streams env else m

  stress_wanted : Option (List ℕ) → Bool
  stress_wanted none = false
  stress_wanted (some value) = leb 1 (env.atoi value)

  -- The flag is set before the test is started and cleared where that fails.
  with_stress : Live W → ℕ → StressStart × (StreamManager × W) → Live W
  with_stress l copies (result, (mgr, w)) = record l {
    w = w;
    server = record l.server {
      stream_mgr = mgr;
      stress_test_enabled = elim result [ started ↦ true | refused ↦ false | deadlocked ↦ true ];
      stress_test_copies = copies;
    };
    hung = elim result [ started ↦ l.hung | refused ↦ l.hung | deadlocked ↦ true ];
  }

  unfoldable pub maybe_stress : Live W → ℕ → DecodeBackend → Live W
  unfolding copies_of stress_wanted with_stress
  maybe_stress l id backend =
      let copies = copies_of l.server.stress_test_copies (env.stream.getenv copies_variable) in
      if not l.server.stress_test_enabled && stress_wanted (env.stream.getenv stress_variable)
      then with_stress l copies
          (start_stress_test env.stream l.server.stream_mgr id copies backend l.w)
      else l

  -- The stream's part of a start: information, state, a new watch, a decoder where it has none.
  unfoldable pub begin_stream : StreamContext → StreamInfo → W → StreamContext × W
  begin_stream s info w =
      let (s1, w1) = stream_set_state env.stream (stream_set_info s info) StreamState.active w in
      let (now, w2) = env.monotonic_ns w1 in
      (stream_init_decoder env.stream (reset_watch s1 now) (get_decode_backend env) w2).1

  unfoldable pub tell_recorder_start : Live W → ℕ → StreamInfo → Live W
  tell_recorder_start l id info =
      let (r, w) = record_start env l.server.recorder id info l.w in
      record l { w = w; server = record l.server { recorder = r } }

  unfoldable pub watch_stream : (StreamWatch → ℕ → ℕ → Bool × StreamWatch) → Live W → ℕ → Live W
  watch_stream watch l id = put l id (run_watch env watch l.server (stream_at l id) l.w)

  -- `request_idr_for_stream` reads the clock once.
  abbrev pub ask_now : StreamWatch → ℕ → ℕ → Bool × StreamWatch
  ask_now v now later = request_idr_for_stream v now

  -- STREAM_START with information that can be read.
  unfoldable pub start_with : Live W → ℕ → StreamInfo → Live W
  start_with l id info =
      let l1 = record (put l id (begin_stream (stream_at l id) info l.w)) {
        current_stream_id = id;
      } in
      maybe_stress (watch_stream ask_now (tell_recorder_start l1 id info) id) id
        (get_decode_backend env)

  on_info : Live W → ℕ → Option StreamInfo → Live W
  on_info l id none = l
  on_info l id (some info) = start_with l id info

  unfoldable pub on_start : Live W → PacketHeader → Option (List ℕ) → Live W
  unfolding on_info
  on_start l h payload =
      if leb (tcp_header_size + 16) h.length
      then on_info l h.stream_id (parse_stream_info payload (h.length - tcp_header_size))
      else l

  -- The tap runs exactly while its flag is set.
  unfoldable pub to_tap : Live W → ℕ → List ℕ → Live W
  to_tap l id d =
      let (runs, w1) = maybe_start_h264_tap env l.server.h264_tap_started l.w in
      let (clients, w2) =
        if runs
        then publish env.tap l.server.tap_config true id d l.server.tap_clients w1
        else (l.server.tap_clients, w1) in
      record l {
        w = w2;
        server = record l.server { h264_tap_started = runs; tap_clients = clients };
      }

  unfoldable pub to_recorder : Live W → ℕ → List ℕ → Live W
  to_recorder l id d =
      let (r, w) = record_video env l.server.recorder id d l.w in
      record l { w = w; server = record l.server { recorder = r } }

  unfoldable pub to_copies : Live W → ℕ → List ℕ → Live W
  to_copies l id d =
      if l.server.stress_test_enabled
      then (let (mgr, w) = (stress_test_decode env.stream l.server.stream_mgr id d l.w).1 in
          record l { w = w; server = record l.server { stream_mgr = mgr } })
      else l

  -- The packet's bytes: to the tap, the recorder, the decoder, the watchdogs, the copies.
  unfoldable pub video_with : Live W → ℕ → List ℕ → Live W
  video_with l id d =
      let l1 = to_recorder (to_tap l id d) id d in
      let l2 = put l1 id (stream_decode_video env.stream (stream_at l1 id) d l1.w).1 in
      to_copies
        (watch_stream request_idr_for_decode_stall (watch_stream request_idr_for_no_decode l2 id)
          id)
        id d

  on_bytes : Live W → PacketHeader → Option (List ℕ) → Live W
  on_bytes l h none = l
  on_bytes l h (some d) = if ltb tcp_header_size h.length then video_with l h.stream_id d else l

  unfoldable pub count_on : Live W → PacketHeader → Bool → Live W
  count_on l h is_frame =
      put l h.stream_id
        (stream_update_stats env.stream (stream_at l h.stream_id) h.length is_frame l.w)

  unfoldable pub on_video_data : Live W → PacketHeader → Option (List ℕ) → Live W
  unfolding on_bytes
  on_video_data l h payload = on_bytes (count_on l h true) h payload

  unfoldable pub on_stop : Live W → PacketHeader → Live W
  on_stop l h =
      let (r, w) = record_stop env l.server.recorder h.stream_id l.w in
      let (s1, w1) = stream_close_decoder env.stream (stream_at l h.stream_id) w in
      put (record l { server = record l.server { recorder = r } }) h.stream_id
        (stream_set_state env.stream s1 StreamState.idle w1)

  unfoldable pub on_type : Live W → PacketHeader → Option (List ℕ) → Live W
  on_type l h payload =
      if h.type == stream_start
      then on_start l h payload
      else if h.type == video_data
      then on_video_data l h payload
      else if h.type == stream_stop
      then on_stop l h
      else if h.type == heartbeat
      then count_on l h false
      else l

  unfoldable pub count_packet : Live W → PacketHeader → Live W
  count_packet l h = record l {
    server = record l.server {
      total_packets = add64 l.server.total_packets 1;
      total_bytes = add64 l.server.total_bytes h.length;
    };
  }

  -- A thread that hangs does nothing any more.
  unfoldable pub handle_packet : PacketHeader → Option (List ℕ) → Live W → Live W
  handle_packet h payload l =
      if l.hung || not (has_stream l.server.stream_mgr h.stream_id)
      then l
      else (let l1 = on_type l h payload in if l1.hung then l1 else count_packet l1 h)

  -- What the recorder calls for a keyframe.
  unfoldable pub request_idr_for_stream_id : Live W → ℕ → Live W
  request_idr_for_stream_id l id =
      if has_stream l.server.stream_mgr id
      then watch_stream ask_now l id
      else record l { w = request_idr_best_effort env l.server id l.w }
