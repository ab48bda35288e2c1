-- ===== src/Link/Tests.antt =====
-- Two frames from a sender whose socket takes three bytes at a time to a server that gets one at a time.
use myworkspace.Prelude.{ℕ, ◌≡◌, refl, List, [], ◌∷◌, map, true, arith}
use myworkspace.Protocol.{put32, put16}
use myworkspace.Sender.Tests.{net, net-SocketLaws, up}
use myworkspace.Sender.Buffer.{ensure_buffer_size, new_size, grow}
use myworkspace.Sender.Send.{send_all, send_loop, on_result}
use myworkspace.Sender.Packets.{send_video, send_on, video_packet, header_bytes}
use myworkspace.Server.Receive.{client_loop}
use myworkspace.Server.Receive.Session.{handle_all}
use myworkspace.Server.Tests.{net as conn, net-DeliversAll, note}
use myworkspace.Link.{send_frames, video_of, send_frames-handle_all}

abbrev frames : List (List ℕ)
frames = (1 ∷ 2 ∷ 3 ∷ 4 ∷ []) ∷ (5 ∷ []) ∷ []

frames_sent : (send_frames net 9 up frames []).0 ≡ true
unfolding send_frames send_video send_on ensure_buffer_size send_all send_loop on_result
    video_packet header_bytes put32 put16 new_size grow
frames_sent = refl

send_frames-handle_all_example :
    let (over, (v, after)) = client_loop conn note 3 4 64 (send_frames net 9 up frames []).1.1 [] in
    (over ≡ true) × (after ≡ handle_all note (map (video_of 256) frames) [])
send_frames-handle_all_example =
    send_frames-handle_all net-SocketLaws net-DeliversAll note frames 9 5 up [] 3 4 64
      (send_frames net 9 up frames []).1.1 [] refl (omega arith) (omega arith)
      (omega arith, (omega arith, tt)) frames_sent refl refl (omega arith)
