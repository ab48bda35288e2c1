-- ===== src/Sender/Tests.antt =====
-- Runs of the sender over a network that takes three bytes at a time, and its theorems at concrete
-- states.
use myworkspace.Prelude.{
  ℕ, ◌+◌, ◌-◌, ◌≤◌, ◌<◌, ◌≡◌, ◌≢◌, ◌⊎◌, refl, List, [], ◌∷◌, ◌++◌, some, none, true, arith, take,
  drop,
}
use myworkspace.Protocol.{
  tcp_header_size, tcp_max_packet_size, video_data, stream_start, parse_header, parse_stream_info,
  put32, put16,
}
use myworkspace.Sender.{TcpSender, TcpSenderConfig, TcpSenderState, Progress, zero_sender}
use myworkspace.Sender.Net.{Net, SendResult, ConnectResult}
use myworkspace.Sender.Buffer.{ensure_buffer_size}
use myworkspace.Sender.Send.{send_all, send_loop, on_result}
use myworkspace.Sender.Send.Ends.{FewSignals, send_all-ends}
use myworkspace.Sender.Send.Wire.{SocketLaws}
use myworkspace.Sender.Packets.{
  video_packet, header_bytes, stream_start_packet, send_video, send_on,
}
use myworkspace.Sender.Packets.Info.{FitsU32, info_of, stream_start_packet-received}
use myworkspace.Sender.Packets.Wire.{send_video-received}
use myworkspace.Sender.Connect.{connect}
use myworkspace.Sender.Connect.Lives.{IsSane, Call, run, run-IsSane}
use myworkspace.Sender.Connect.Outcome.{Outcome, connect_outcome}

-- The state is what the peer got; every call succeeds.
abbrev pub net : Net (List ℕ)
net = record {
  malloc = λ n w. (true, w);
  realloc = λ n w. (true, w);
  free = λ w. w;
  now_monotonic_ns = λ w. (7_000_000_000, w);
  usleep = λ t w. w;
  socket = λ w. (some 5, w);
  setsockopt = λ fd option value w. w;
  set_nonblocking = λ fd w. w;
  resolve = λ host w. (some 1, w);
  connect = λ fd addr port w. (ConnectResult.in_progress, w);
  select_writable = λ fd seconds w. (true, w);
  socket_error = λ fd w. (0, w);
  close = λ fd w. w;
  send = λ fd d w. (SendResult.sent 3, w ++ take 3 d);
}

pub net-SocketLaws : SocketLaws net (λ fd w. w)
net-SocketLaws = record {
  send_takes = λ fd d w. refl;
  sleep_sends = λ fd t w. refl;
  realloc_sends = λ fd n w. refl;
}

net-FewSignals : FewSignals net (λ w. 0)
net-FewSignals = record {
  interrupts = λ fd d w e. ground arith;
  sends = λ fd d w. omega arith;
  sleeps = λ t w. omega arith;
}

abbrev pub config : TcpSenderConfig
config = record {
  host = b'h' ∷ [];
  port = 9000;
  stream_id = 300 - 44;
  width = 1920;
  height = 1080;
  fps = 60;
  bitrate = 20000;
  codec = 1;
  chroma = 0;
  bitdepth = 10;
  video_format = 0x200;
  color_space = 1;
  color_range = 0;
}

abbrev pub up : TcpSender
up = record zero_sender {
  sock_fd = some 5;
  state = TcpSenderState.connected;
  config = config;
  send_buffer_size = 4;
}

send_all-ends_example : (send_all net 800 5 (1 ∷ 2 ∷ 3 ∷ 4 ∷ []) []).0 ≢ Progress.running
send_all-ends_example = send_all-ends net-FewSignals 800 5 (1 ∷ 2 ∷ 3 ∷ 4 ∷ []) [] (omega arith)

video_sent : (send_video net 9 up (1 ∷ 2 ∷ 3 ∷ 4 ∷ []) []).0 ≡ Progress.succeeded
unfolding send_video send_on ensure_buffer_size send_all send_loop on_result video_packet
    header_bytes put32 put16
video_sent = refl

send_video-received_example :
    let p = video_packet 256 (1 ∷ 2 ∷ 3 ∷ 4 ∷ []) in
    ((send_video net 9 up (1 ∷ 2 ∷ 3 ∷ 4 ∷ []) []).1.1 ≡ [] ++ p)
    × (drop tcp_header_size p ≡ 1 ∷ 2 ∷ 3 ∷ 4 ∷ [])
    × (((tcp_header_size + 4 ≤ tcp_max_packet_size)
          × (parse_header (some p)
              ≡ some (record { length = tcp_header_size + 4; type = video_data; stream_id = 256 })))
        ⊎ ((tcp_max_packet_size < tcp_header_size + 4) × (parse_header (some p) ≡ none)))
send_video-received_example =
    send_video-received net-SocketLaws 9 up 5 (1 ∷ 2 ∷ 3 ∷ 4 ∷ []) [] refl (omega arith)
      (omega arith) video_sent

config-FitsU32 : FitsU32 config
config-FitsU32 = omega arith

stream_start_packet-received_example :
    (parse_header (some (stream_start_packet config))
      ≡ some (record { length = 47; type = stream_start; stream_id = 256 }))
    × (parse_stream_info (some (drop 7 (stream_start_packet config))) 40 ≡ some (info_of config))
stream_start_packet-received_example =
    stream_start_packet-received config (omega arith) (omega arith) config-FitsU32

zero-IsSane : IsSane zero_sender
zero-IsSane = ground arith

run-IsSane_example :
    IsSane
      (run net 99
        (Call.init_with config
          ∷ Call.connect_now
          ∷ Call.send_frame (1 ∷ 2 ∷ [])
          ∷ Call.check_every 5
          ∷ Call.disconnect_now
          ∷ [])
        (zero_sender, [])).0
run-IsSane_example =
    run-IsSane net 99
      (Call.init_with config
        ∷ Call.connect_now
        ∷ Call.send_frame (1 ∷ 2 ∷ [])
        ∷ Call.check_every 5
        ∷ Call.disconnect_now
        ∷ [])
      (zero_sender, []) zero-IsSane

abbrev idle : TcpSender
idle = record zero_sender { config = config }

connect_outcome_example : let out = connect net 99 idle [] in Outcome idle [] out.0 out.1.0 out.1.1
connect_outcome_example = connect_outcome net 99 idle [] (λ e. ground arith)
