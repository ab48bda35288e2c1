-- ===== src/Server/Dispatch.antt =====
-- server.c: what `handle_packet` calls, its state and its settings. The state is one server's; the globals
-- of the file (the flags of the tap and of the stress test, the control map) are fields of it.
pub mod Handle
pub mod Recording
use myworkspace.Prelude.{
  ℕ, length, List, [], ◌∷◌, Option, none, some, Bool, true, false, not, ◌&&◌, ◌||◌, leb, ltb, ◌==◌,
  if◌then◌else◌,
}
use myworkspace.Protocol.{max_streams, default_max_streams, StreamInfo}
use myworkspace.Recorder.{Recorder}
use myworkspace.Recorder.Queue.{is_enabled, on_stream_start, on_video, on_stream_stop}
use myworkspace.Tap.{TapClient, TapConfig}
use myworkspace.Tap.Net.{TapNet}
use myworkspace.Stream.{StreamManager, StreamContext, DecodeBackend}
use myworkspace.Stream.Env.{StreamEnv}
use myworkspace.Stream.Route.{is_unset, parse_int_env_clamped}
use myworkspace.Stream.Decoder.{is_active}
use myworkspace.Watchdog.{StreamWatch}

-- `atoi` is C's, with 0 for a negative number: the code treats the two alike. `send_req_idr` is
-- `send_req_idr_to_endpoint`, one datagram; its result is only logged.
pub record ServerEnv (W : Type 0) : Type 0 where
  pub stream : StreamEnv W
  pub tap : TapNet W
  pub atoi : List ℕ → ℕ
  pub monotonic_ns : W → ℕ × W
  pub wall_ms : W → ℕ × W
  pub calloc : W → Bool × W
  pub malloc : ℕ → W → Bool × W
  pub h264_tap_start : List ℕ → ℕ → W → Bool × W
  pub send_req_idr : List ℕ → ℕ → W → W

-- `valid` is that there is one.
pub record WorkerCtrlEndpoint : Type 0 where
  pub ip : List ℕ
  pub port : ℕ

pub record TcpServer : Type 0 where
  pub stream_mgr : StreamManager
  pub recorder : Recorder
  pub tap_clients : List TapClient
  pub tap_config : TapConfig
  pub h264_tap_started : Bool
  pub worker_ctrl_map : ℕ → Option WorkerCtrlEndpoint
  pub stress_test_enabled : Bool
  pub stress_test_copies : ℕ
  pub total_packets : ℕ
  pub total_bytes : ℕ

-- What one handler thread works on. `hung` is that it waits for a lock that it holds itself.
pub record Live (W : Type 0) : Type 0 where
  pub w : W
  pub server : TcpServer
  pub current_stream_id : ℕ
  pub hung : Bool

abbrev pub backend_variable : List ℕ
backend_variable =
    b'D' ∷ b'E' ∷ b'C' ∷ b'O' ∷ b'D' ∷ b'E' ∷ b'_' ∷ b'B' ∷ b'A' ∷ b'C' ∷ b'K' ∷ b'E' ∷ b'N' ∷ b'D'
    ∷ []

abbrev pub tap_port_variable : List ℕ
tap_port_variable =
    b'H' ∷ b'2' ∷ b'6' ∷ b'4' ∷ b'_' ∷ b'T' ∷ b'A' ∷ b'P' ∷ b'_' ∷ b'P' ∷ b'O' ∷ b'R' ∷ b'T' ∷ []

abbrev pub tap_bind_variable : List ℕ
tap_bind_variable =
    b'H' ∷ b'2' ∷ b'6' ∷ b'4' ∷ b'_' ∷ b'T' ∷ b'A' ∷ b'P' ∷ b'_' ∷ b'B' ∷ b'I' ∷ b'N' ∷ b'D' ∷ []

abbrev pub stress_variable : List ℕ
stress_variable = b'S' ∷ b'T' ∷ b'R' ∷ b'E' ∷ b'S' ∷ b'S' ∷ b'_' ∷ b'T' ∷ b'E' ∷ b'S' ∷ b'T' ∷ []

abbrev pub copies_variable : List ℕ
copies_variable =
    b'S' ∷ b'T' ∷ b'R' ∷ b'E' ∷ b'S' ∷ b'S' ∷ b'_' ∷ b'C' ∷ b'O' ∷ b'P' ∷ b'I' ∷ b'E' ∷ b'S' ∷ []

abbrev pub max_streams_variable : List ℕ
max_streams_variable =
    b'S' ∷ b'T' ∷ b'R' ∷ b'E' ∷ b'A' ∷ b'M' ∷ b'_' ∷ b'M' ∷ b'A' ∷ b'X' ∷ b'_' ∷ b'S' ∷ b'T' ∷ b'R'
    ∷ b'E' ∷ b'A' ∷ b'M' ∷ b'S' ∷ []

abbrev pub loopback : List ℕ
loopback = b'1' ∷ b'2' ∷ b'7' ∷ b'.' ∷ b'0' ∷ b'.' ∷ b'0' ∷ b'.' ∷ b'1' ∷ []

-- The watchdogs' view of a stream, and what they change.
unfoldable pub watch_of : StreamContext → StreamWatch
watch_of s = record {
  active = is_active s.state;
  decoder_initialized = s.decoder_initialized;
  frames_received = s.frames_received;
  frames_decoded = s.decode_stats.frames_decoded;
  last_idr_request_ns = s.last_idr_request_ns;
  watchdog_last_received = s.watchdog_last_received;
  watchdog_last_decoded = s.watchdog_last_decoded;
  watchdog_last_decoded_change_ns = s.watchdog_last_decoded_change_ns;
  decode_stall_count = s.decode_stall_count;
  decode_stall_last_idr_ns = s.decode_stall_last_idr_ns;
}

unfoldable pub put_watch : StreamContext → StreamWatch → StreamContext
put_watch s v = record s {
  last_idr_request_ns = v.last_idr_request_ns;
  watchdog_last_received = v.watchdog_last_received;
  watchdog_last_decoded = v.watchdog_last_decoded;
  watchdog_last_decoded_change_ns = v.watchdog_last_decoded_change_ns;
  decode_stall_count = v.decode_stall_count;
  decode_stall_last_idr_ns = v.decode_stall_last_idr_ns;
}

module _ {W : Type 0} (env : ServerEnv W) where
  unfoldable pub server_runtime_max_streams : ℕ
  server_runtime_max_streams =
      parse_int_env_clamped env.stream max_streams_variable default_max_streams 1 max_streams

  -- `request_idr_best_effort_main_path`.
  to_endpoint : Option WorkerCtrlEndpoint → W → W
  to_endpoint none w = w
  to_endpoint (some e) w = env.send_req_idr e.ip e.port w

  unfoldable pub request_idr_best_effort : TcpServer → ℕ → W → W
  unfolding to_endpoint
  request_idr_best_effort server stream_id w =
      if leb 1 stream_id && leb stream_id server_runtime_max_streams
      then to_endpoint (server.worker_ctrl_map stream_id) w
      else w

  -- A watchdog on a stream: the clock, the decision, the clock again, the request. The second reading
  -- has no effect where the watchdog does not use it.
  unfoldable pub run_watch :
      (StreamWatch → ℕ → ℕ → Bool × StreamWatch) → TcpServer → StreamContext → W → StreamContext × W
  run_watch watch server s w =
      let (now, w1) = env.monotonic_ns w in
      let (later, w2) = env.monotonic_ns w1 in
      let (asks, v) = watch (watch_of s) now later in
      (put_watch s v, if asks then request_idr_best_effort server s.stream_id w2 else w2)

  backend_of : Option (List ℕ) → DecodeBackend
  backend_of none = DecodeBackend.auto
  backend_of (some value) =
      let same = env.stream.strcasecmp value in
      if is_unset value
      then DecodeBackend.auto
      else if same (b'a' ∷ b'u' ∷ b't' ∷ b'o' ∷ [])
      then DecodeBackend.auto
      else if same (b'n' ∷ b'v' ∷ b'i' ∷ b'd' ∷ b'i' ∷ b'a' ∷ [])
          || (same (b'c' ∷ b'u' ∷ b'v' ∷ b'i' ∷ b'd' ∷ []))
      then DecodeBackend.nvidia
      else if same (b'i' ∷ b'n' ∷ b't' ∷ b'e' ∷ b'l' ∷ [])
          || (same (b'i' ∷ b'n' ∷ b't' ∷ b'e' ∷ b'l' ∷ b'_' ∷ b'v' ∷ b'a' ∷ [])
              || (same (b'v' ∷ b'a' ∷ b'a' ∷ b'p' ∷ b'i' ∷ []) || (same (b'q' ∷ b's' ∷ b'v' ∷ []))))
      then DecodeBackend.intel_va
      else if same (b'c' ∷ b'p' ∷ b'u' ∷ [])
      then DecodeBackend.cpu
      else DecodeBackend.auto

  unfoldable pub get_decode_backend : DecodeBackend
  unfolding backend_of
  get_decode_backend = backend_of (env.stream.getenv backend_variable)

  bind_of : Option (List ℕ) → List ℕ
  bind_of none = loopback
  bind_of (some value) = value

  tap_on_port : Option (List ℕ) → W → Bool × W
  tap_on_port none w = (false, w)
  tap_on_port (some value) w =
      let port = env.atoi value in
      if port == 0 || ltb 65535 port
      then (false, w)
      else env.h264_tap_start (bind_of (env.stream.getenv tap_bind_variable)) port w

  unfoldable pub maybe_start_h264_tap : Bool → W → Bool × W
  unfolding bind_of tap_on_port
  maybe_start_h264_tap started w =
      if started then (true, w) else tap_on_port (env.stream.getenv tap_port_variable) w

  -- An event of the recorder: `make` takes the allocation and the two clocks.
  with_clocks : (Bool → ℕ → ℕ → Recorder) → Bool × W → Recorder × W
  with_clocks make (false, w) = (make false 0 0, w)
  with_clocks make (true, w) =
      let (wall, w1) = env.wall_ms w in
      let (mono, w2) = env.monotonic_ns w1 in (make true wall mono, w2)

  unfoldable pub record_start : Recorder → ℕ → StreamInfo → W → Recorder × W
  unfolding with_clocks
  record_start r id info w =
      if is_enabled r
      then with_clocks (λ got wall mono. on_stream_start r got id (some info) wall mono)
          (env.calloc w)
      else (r, w)

  unfoldable pub record_stop : Recorder → ℕ → W → Recorder × W
  unfolding with_clocks
  record_stop r id w =
      if is_enabled r
      then with_clocks (λ got wall mono. on_stream_stop r got id wall mono) (env.calloc w)
      else (r, w)

  video_copy : Recorder → ℕ → List ℕ → Bool × W → Recorder × W
  video_copy r id d (false, w) = (r, w)
  video_copy r id d (true, w) =
      let (wall, w1) = env.wall_ms w in
      let (mono, w2) = env.monotonic_ns w1 in
      let (copied, w3) = env.malloc (length d) w2 in
      (on_video r true copied id (some d) wall mono, w3)

  unfoldable pub record_video : Recorder → ℕ → List ℕ → W → Recorder × W
  unfolding video_copy
  record_video r id d w =
      if is_enabled r && not (is_unset d) then video_copy r id d (env.calloc w) else (r, w)
