-- ===== src/Server/Tests.antt =====
-- Runs of the server over a connection that gives a byte at a time, and its theorems at concrete states.
use myworkspace.Prelude.{
  ℕ, zero, suc, ◌+◌, ◌≤◌, ◌≡◌, refl, List, [], ◌∷◌, ◌++◌, Option, some, none, true, false, ◌==◌,
  if◌then◌else◌, if-holds, arith, length, map,
}
use mathlib.Core.List.{flatten}
use myworkspace.Protocol.{PacketHeader, StreamInfo, parse_stream_info, be32}
use myworkspace.Recorder.{zero_recorder}
use myworkspace.Stream.{StreamContext, StreamState, DecodeBackend, new_stream, zero_stress_test}
use myworkspace.Stream.Env.{StreamEnv, no_number, number, decode_ok}
use myworkspace.Stream.Route.{
  parse_int_env_clamped, adjust_backend_for_stream, attempted_backends, first_route,
  route_rule_matches,
}
use myworkspace.Stream.Decoder.{stream_init_decoder, stream_set_info, try_backends, try_backend}
use myworkspace.Stream.Stress.{start_stress_test, start_copies, start_copy, virtual_id, new_queues}
use myworkspace.Stream.Decoder.Consistent.{IsConsistent}
use myworkspace.Tap.Net.{TapNet, TapSend, Peek}
use myworkspace.Server.Receive.{ConnNet, Recv, got, closed, client_loop}
use myworkspace.Server.Receive.Exact.{DeliversAll}
use myworkspace.Server.Receive.Packet.{Packet, IsSendable, encode}
use myworkspace.Server.Receive.Session.{handle_all, client_loop-handle_all}
use myworkspace.Server.Dispatch.{ServerEnv, Live, server_runtime_max_streams}
use myworkspace.Server.Dispatch.Handle.{handle_packet, stream_at, maybe_stress}
use myworkspace.Server.Dispatch.Handle.Race.{flag_read_before, maybe_stress-twice}
use myworkspace.Server.Dispatch.Handle.Inv.{LiveInv}
use myworkspace.Server.Dispatch.Handle.Restart.{Restarted, handle_packet-Restarted}
use myworkspace.Server.Session.{client_loop-LiveInv}
use myworkspace.Server.Clients.{
  Conns, started_conns, admitted, ended, link, spawn, enter_handler, close_clients, is_full, fd_of,
}
use myworkspace.Server.Clients.Limit.{Steps-Limit}
use myworkspace.Server.Clients.Steps.{
  Steps, done, further, admit, insert, spawned, accept_ends, enter, close_each, times, links,
}
use myworkspace.Server.Clients.Lost.{enter_handler-Lost}

-- The state is what is still to come.
abbrev pub trickle : ℕ → ℕ → List ℕ → Recv × List ℕ
trickle fd n [] = (closed, [])
trickle fd zero (x ∷ xs) = (got [], x ∷ xs)
trickle fd (suc n) (x ∷ xs) = (got (x ∷ []), xs)

abbrev pub net : ConnNet (List ℕ)
net = record { recv = trickle; realloc = λ n w. (true, w); is_running = λ w. true }

abbrev pub first : List ℕ → List ℕ
first [] = []
first (x ∷ xs) = x ∷ []

pub net-DeliversAll : DeliversAll net (λ fd w. w)
net-DeliversAll = record {
  bytes = λ fd n w. first w;
  delivers = trickle_lem;
  ends = λ fd n w e. ground (arith, e);
  memory = λ n w. refl;
  quiet = λ fd n w. refl;
  running = λ w. refl;
}
  where
    trickle_lem :
        (fd n : ℕ) (w : List ℕ)
        → 1 ≤ n
        → 1 ≤ length w
        → ((trickle fd n w).0 ≡ got (first w))
          × (1 ≤ length (first w))
          × (length (first w) ≤ n)
          × (w ≡ first w ++ (trickle fd n w).1)
    trickle_lem fd n [] some_room some_left = absurd (omega arith)
    trickle_lem fd zero (x ∷ xs) some_room some_left = absurd (omega arith)
    trickle_lem fd (suc n) (x ∷ xs) some_room some_left = (refl, omega arith, omega arith, refl)

-- A heartbeat and a frame of two bytes.
abbrev beat : Packet
beat = record { type = 2; stream_id = 1; payload = [] }

abbrev frame : Packet
frame = record { type = 1; stream_id = 256; payload = 7 ∷ 8 ∷ [] }

beat-IsSendable : IsSendable beat
beat-IsSendable = record {
  type_from = omega arith;
  type_to = omega arith;
  stream_from = omega arith;
  stream_to = omega arith;
  length_to = omega arith;
}

frame-IsSendable : IsSendable frame
frame-IsSendable = record {
  type_from = omega arith;
  type_to = omega arith;
  stream_from = omega arith;
  stream_to = omega arith;
  length_to = omega arith;
}

-- The handler writes down the streams.
abbrev pub note : PacketHeader → Option (List ℕ) → List ℕ → List ℕ
note h payload s = s ++ (h.stream_id ∷ [])

client_loop-handle_all_example :
    let (over, (w, s)) =
      client_loop net note 3 4 64 (flatten (map encode (beat ∷ frame ∷ []))) [] in
    (over ≡ true) × (s ≡ handle_all note (beat ∷ frame ∷ []) [])
client_loop-handle_all_example =
    client_loop-handle_all net-DeliversAll note (beat ∷ frame ∷ []) 3 4 64
      (flatten (map encode (beat ∷ frame ∷ []))) [] (beat-IsSendable, (frame-IsSendable, tt)) refl
      (omega arith)

-- Decoders always come up, as context 7, and nothing is set in the environment.
abbrev streams : StreamEnv ℕ
streams = record {
  getenv = λ name. none;
  strcasecmp = λ a b. false;
  strtol = λ text. no_number;
  time = λ w. (w, w + 1);
  malloc = λ n w. (true, w);
  realloc = λ n w. (true, w);
  decoder_create = λ config w. (some 7, w);
  decoder_init = λ ctx w. (true, w);
  decoder_destroy = λ ctx w. w;
  decoder_decode = λ ctx d w. ((decode_ok, none), w);
  decoder_free_frame = λ f w. w;
}

abbrev tap : TapNet ℕ
tap = record {
  realloc = λ n w. (true, w);
  monotonic_ns = λ w. (w, w + 1);
  send = λ fd d w. (TapSend.took (length d), w);
  peek = λ fd w. (Peek.nothing_yet, w);
  close = λ fd w. w;
}

abbrev env : ServerEnv ℕ
env = record {
  stream = streams;
  tap = tap;
  atoi = λ text. 0;
  monotonic_ns = λ w. (w, w + 1);
  wall_ms = λ w. (w, w + 1);
  calloc = λ w. (true, w);
  malloc = λ n w. (true, w);
  h264_tap_start = λ ip port w. (true, w);
  send_req_idr = λ ip port w. w;
}

-- Stream 1 runs H.264 on decoder 7.
abbrev running_stream : StreamContext
running_stream = record (new_stream 1) {
  state = StreamState.active;
  info_received = true;
  decoder_ctx = some 7;
  decoder_initialized = true;
}

abbrev live : Live ℕ
live = record {
  w = 5;
  server = record {
    stream_mgr = record {
      streams = λ id. if id == 1 then running_stream else new_stream id;
      max_streams = 20;
      stress_test = zero_stress_test;
    };
    recorder = zero_recorder;
    tap_clients = [];
    tap_config = record { stall_ms = 0; drop_to_idr = false };
    h264_tap_started = false;
    worker_ctrl_map = λ id. none;
    stress_test_enabled = false;
    stress_test_copies = 20;
    total_packets = 0;
    total_bytes = 0;
  };
  current_stream_id = 1;
  hung = false;
}

live-streams : (id : ℕ) → IsConsistent (live.server.stream_mgr.streams id)
live-streams id =
    if-holds IsConsistent (id == 1) running_stream (new_stream id)
      (λ e. record { decoder = refl; informed = λ e. refl })
      (λ e. record { decoder = refl; informed = λ e. absurd (ground (arith, e)) })

live-LiveInv : LiveInv live
live-LiveInv = record {
  server = record {
    streams = live-streams;
    queue = record { bytes = refl; within = omega arith; limit = omega arith; events = refl };
    stress = λ e. absurd (ground (arith, e));
  };
  runs = refl;
}

-- 1920 by 1080, 60 frames, 20000 kbit/s, HEVC.
abbrev hevc : List ℕ
hevc =
    0 ∷ 0 ∷ 7 ∷ 128 ∷ 0 ∷ 0 ∷ 4 ∷ 56 ∷ 0 ∷ 0 ∷ 0 ∷ 60 ∷ 0 ∷ 0 ∷ 78 ∷ 32 ∷ 0 ∷ 0 ∷ 0 ∷ 1 ∷ 0 ∷ 0 ∷ 0
    ∷ 0 ∷ 0 ∷ 0 ∷ 0 ∷ 10 ∷ 0 ∷ 0 ∷ 2 ∷ 0 ∷ 0 ∷ 0 ∷ 0 ∷ 1 ∷ 0 ∷ 0 ∷ 0 ∷ 0 ∷ []

abbrev hevc_info : StreamInfo
hevc_info = record {
  width = 1920;
  height = 1080;
  fps = 60;
  bitrate = 20000;
  codec = 1;
  chroma = 0;
  bitdepth = 10;
  video_format = 512;
  color_space = 1;
  color_range = 0;
}

hevc_read : parse_stream_info (some hevc) 40 ≡ some hevc_info
unfolding parse_stream_info be32
hevc_read = refl

handle_packet-Restarted_example : Restarted hevc_info (some 7) (
    stream_at
      (handle_packet env (record { length = 47; type = 3; stream_id = 1 }) (some hevc) live)
      1)
handle_packet-Restarted_example =
    handle_packet-Restarted env (record { length = 47; type = 3; stream_id = 1 }) (some hevc) live
      hevc_info live-LiveInv refl refl (omega arith) hevc_read refl

-- The environment asks for a stress test with one copy.
abbrev stress_env : ServerEnv ℕ
stress_env = record env {
  stream = record streams { getenv = λ name. some (b'1' ∷ []); strtol = λ text. number 1 };
  atoi = λ text. 1;
}

maybe_stress-twice_example :
    (maybe_stress stress_env
      (flag_read_before (maybe_stress stress_env live 1 DecodeBackend.auto))
      1
      DecodeBackend.auto).hung
    ≡ true
unfolding maybe_stress server_runtime_max_streams parse_int_env_clamped start_stress_test
    start_copies start_copy virtual_id stream_set_info stream_init_decoder new_queues try_backends
    try_backend attempted_backends adjust_backend_for_stream first_route route_rule_matches
maybe_stress-twice_example =
    maybe_stress-twice stress_env live 1 1 DecodeBackend.auto DecodeBackend.auto refl refl refl

trickle-fits : (fd n : ℕ) (w bytes : List ℕ) → (net.recv fd n w).0 ≡ got bytes → length bytes ≤ n
trickle-fits fd n [] bytes e = absurd (ground (arith, e))
trickle-fits fd zero (x ∷ xs) bytes e = ground (arith, e)
trickle-fits fd (suc n) (x ∷ xs) bytes e = ground (arith, e)

client_loop-LiveInv_example :
    LiveInv
      (client_loop net
        (handle_packet env)
        9
        4
        64
        (flatten (map encode (frame ∷ [])) ++ (1 ∷ 2 ∷ []))
        live).1.1
client_loop-LiveInv_example =
    client_loop-LiveInv net env 9 4 64 (flatten (map encode (frame ∷ [])) ++ (1 ∷ 2 ∷ [])) live
      (record { fits = trickle-fits }) live-LiveInv

-- One client accepted, its thread created.
abbrev admitted_conns : Conns
admitted_conns = record started_conns { accepting = admitted 5 }

abbrev linked_conns : Conns
linked_conns = link admitted_conns 5

abbrev spawned_conns : Conns
spawned_conns = spawn linked_conns 0

spawned-run : Steps 1 started_conns spawned_conns
unfolding link is_full
spawned-run =
    further
      (further (further (done started_conns) (admit started_conns 5 refl refl))
        (insert admitted_conns 5 refl))
      (spawned linked_conns 0 refl)

entered-run : Steps 1 started_conns (enter_handler spawned_conns 0)
unfolding link spawn times
entered-run = further spawned-run (enter spawned_conns 0 (omega arith))

Steps-Limit_example :
    let s = enter_handler spawned_conns 0 in
    (s.client_count ≡ length s.clients)
    × (length s.clients ≤ 1)
    × ((conn : ℕ) → 1 ≤ times conn s.handling → links conn s.clients ≡ 1)
Steps-Limit_example = Steps-Limit 1 (enter_handler spawned_conns 0) entered-run

-- The server is stopped before the thread looks at the client.
abbrev stopped_conns : Conns
stopped_conns = record spawned_conns { accepting = ended }

closed-run : Steps 1 started_conns (close_clients stopped_conns)
unfolding link spawn
closed-run =
    further (further spawned-run (accept_ends spawned_conns refl)) (close_each stopped_conns refl)

closed-created : 1 ≤ times 0 (close_clients stopped_conns).created
unfolding link spawn close_clients times
closed-created = omega arith

closed-fd : fd_of 0 (close_clients stopped_conns).clients ≡ none
unfolding link spawn close_clients
closed-fd = refl

enter_handler-Lost_example :
    let t = enter_handler (close_clients stopped_conns) 0 in
    (links 0 t.clients ≡ 1) × (1 ≤ length t.clients)
enter_handler-Lost_example =
    enter_handler-Lost 1 (close_clients stopped_conns)
      (enter_handler (close_clients stopped_conns) 0) 0 closed-run closed-created closed-fd
      (done (enter_handler (close_clients stopped_conns) 0))
