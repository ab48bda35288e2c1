-- ===== src/Worker/Tests.antt =====
-- The worker's theorems at concrete states.
use myworkspace.Prelude.{◌≡◌, ◌↔◌, ◌⊎◌, refl, [], ◌∷◌, some, true, arith}
use mathlib.Core.List.{flatten}
use myworkspace.Sender.{Progress, default_send_buffer_size}
use myworkspace.Sender.Tests.{net, net-SocketLaws, up}
use myworkspace.Sender.Buffer.{ensure_buffer_size, grow}
use myworkspace.Sender.Send.{send_all, send_loop, on_result}
use myworkspace.Sender.Packets.{send_video, send_on, video_packet, header_bytes, check_heartbeat}
use myworkspace.Protocol.{put32, put16}
use myworkspace.Worker.{Worker, WorkerRenderConfig, DecodeUnit, zero_worker}
use myworkspace.Worker.Frame.{is_idr_frame, idr_scan}
use myworkspace.Worker.Setup.{worker_setup}
use myworkspace.Worker.Setup.Negotiation.{IsAgreed, Refused, worker_setup_lem}
use myworkspace.Worker.Submit.{
  SubmitOutcome, ensure_connected, ensure_frame_buffer, send_unit, submit,
}
use myworkspace.Worker.Submit.Sent.{Delivered, submit-Delivered}

-- HEVC with 10 bits was requested.
abbrev requested : WorkerRenderConfig
requested = record {
  tcp_host = [];
  tcp_port = 0;
  stream_id = 3;
  width = 0;
  height = 0;
  fps = 60;
  bitrate = 0;
  video_format = 0;
  codec = 1;
  chroma = 0;
  bitdepth = 10;
  color_space = 0;
  color_range = 0;
  fatal_code = some 0;
}

-- H.264 was negotiated.
worker_setup_lem_example :
    let out = worker_setup net 9 zero_worker (some requested) 1 1920 1080 [] in
    ((out.0 ≡ true) ↔ (IsAgreed requested 1 × ((net.malloc default_send_buffer_size []).0 ≡ true)))
    × (IsAgreed requested 1 ⊎ Refused zero_worker requested [] out)
worker_setup_lem_example = worker_setup_lem net 9 zero_worker requested 1 1920 1080 []

-- A keyframe in two pieces.
abbrev pieces : DecodeUnit
pieces = record { full_length = 6; buffer_list = (0 ∷ 0 ∷ 0 ∷ []) ∷ (1 ∷ 101 ∷ 9 ∷ []) ∷ [] }

pieces_idr : is_idr_frame (flatten pieces.buffer_list) ≡ true
unfolding is_idr_frame idr_scan flatten
pieces_idr = refl

abbrev connected_worker : Worker
connected_worker = record zero_worker {
  tcp_sender = record up { last_heartbeat_ns = 6_000_000_000 };
  tcp_initialized = true;
}

abbrev received : Worker
received = record connected_worker { stats_frames_received = 1 }

still_connected : ensure_connected net 9 received [] ≡ (Progress.succeeded, (received, []))
unfolding ensure_connected check_heartbeat
still_connected = refl

pieces_sent : (submit net 9 connected_worker pieces []).0 ≡ SubmitOutcome.frame_sent
unfolding submit send_unit ensure_connected check_heartbeat ensure_frame_buffer grow flatten
    send_video send_on ensure_buffer_size send_all send_loop on_result video_packet header_bytes
    put32 put16
pieces_sent = refl

submit-Delivered_example :
    let (p, (v1, w1)) = ensure_connected net 9 received [] in
    Delivered
      (λ fd w. w)
      5
      v1
      w1
      (flatten pieces.buffer_list)
      (submit net 9 connected_worker pieces []).1
unfolding ensure_connected check_heartbeat
submit-Delivered_example =
    submit-Delivered net-SocketLaws (λ fd w. refl) 9 5 connected_worker pieces [] refl (omega arith)
      (omega arith) pieces_sent
