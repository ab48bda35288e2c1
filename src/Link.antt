-- ===== src/Link.antt =====
-- src/tcp_sender.c of the client and stream_server/src/server.c together: the frames that one sends and
-- the other handles.
mod Tests
use myworkspace.Prelude.{
  ℕ, ◌+◌, ◌*◌, ◌≤◌, ◌<◌, ◌≡◌, ◌++◌, List, [], ◌∷◌, length, map, Option, none, some, Bool, true,
  false, ◌&&◌, if◌then◌else◌, if-holds, arith, refl, sym, ap, ◌∙◌, append_assoc, append-nil, All,
  Bool-cases, inl, inr, subst,
}
use mathlib.Core.List.{flatten}
use myworkspace.Protocol.{
  PacketHeader, tcp_header_size, tcp_max_packet_size, max_streams, video_data,
}
use myworkspace.Sender.{TcpSender, TcpSenderConfig, Progress}
use myworkspace.Sender.Net.{Net}
use myworkspace.Sender.Buffer.{ensure_buffer_size}
use myworkspace.Sender.Send.Wire.{SocketLaws}
use myworkspace.Sender.Packets.{send_video, video_packet, is_connected}
use myworkspace.Sender.Packets.Wire.{send_video-received}
use myworkspace.Server.Receive.{ConnNet, client_loop}
use myworkspace.Server.Receive.Exact.{DeliversAll}
use myworkspace.Server.Receive.Packet.{Packet, IsSendable, encode}
use myworkspace.Server.Receive.Session.{handle_all, client_loop-handle_all}

abbrev pub is_success : Progress → Bool
is_success Progress.succeeded = true
is_success Progress.failed = false
is_success Progress.running = false

-- A frame as the server sees it.
abbrev pub video_of : ℕ → List ℕ → Packet
video_of id d = record { type = video_data; stream_id = id; payload = d }

-- Frames sent one after the other; `true` where every call has returned 0.
unfoldable pub send_frames :
    {W : Type 0} → Net W → ℕ → TcpSender → List (List ℕ) → W → Bool × (TcpSender × W)
send_frames net rounds s [] w = (true, (s, w))
send_frames net rounds s (d ∷ ds) w =
    let (p, (s1, w1)) = send_video net rounds s d w in
    let (ok, out) = send_frames net rounds s1 ds w1 in (is_success p && ok, out)

module _ {W : Type 0} {net : Net W} {wire : ℕ → W → List ℕ} (laws : SocketLaws net wire)
    (rounds fd : ℕ) where
  ensure-same :
      (s : TcpSender) (needed : ℕ) (w : W)
      → let t = (ensure_buffer_size net s needed w).1.0 in
        (t.sock_fd ≡ s.sock_fd) × (t.config ≡ s.config)
  unfolding ensure_buffer_size
  ensure-same s needed w = ground arith

  send_video-same :
      (s : TcpSender) (d : List ℕ) (w : W)
      → let t = (send_video net rounds s d w).1.0 in (t.sock_fd ≡ s.sock_fd) × (t.config ≡ s.config)
  unfolding send_video
  send_video-same s [] w = (refl, refl)
  send_video-same s (x ∷ d) w = ground (arith, ensure-same s (tcp_header_size + length (x ∷ d)) w)

  encode-video : (id : ℕ) (d : List ℕ) → encode (video_of id d) ≡ video_packet id d
  unfolding video_packet
  encode-video id d = refl

  success_lem : (p : Progress) → is_success p ≡ true → p ≡ Progress.succeeded
  success_lem Progress.succeeded e = refl
  success_lem Progress.failed e = absurd (ground (arith, e))
  success_lem Progress.running e = absurd (ground (arith, e))

  both : (a b : Bool) → a && b ≡ true → (a ≡ true) × (b ≡ true)
  both a b e = ground arith

  send_frames-wire :
      (ds : List (List ℕ)) (s : TcpSender) (w : W)
      → s.sock_fd ≡ some fd
      → 1 ≤ s.config.stream_id
      → s.config.stream_id ≤ max_streams
      → (send_frames net rounds s ds w).0 ≡ true
      → wire fd (send_frames net rounds s ds w).1.1
        ≡ wire fd w ++ flatten (map encode (map (video_of s.config.stream_id) ds))
  unfolding send_frames flatten
  send_frames-wire [] s w held s1 s2 done = sym (append-nil (wire fd w))
  send_frames-wire (d ∷ ds) s w held s1 s2 done =
      let (p, (t, w1)) = send_video net rounds s d w in
      let (first, later) = both (is_success p) (send_frames net rounds t ds w1).0 done in
      let (same_fd, same) = send_video-same s d w in
      let id_same = ap (λ (c : TcpSenderConfig). c.stream_id) same in
      let rest =
        send_frames-wire ds t w1 (same_fd ∙ held) (omega (arith, s1, id_same))
          (omega (arith, s2, id_same)) later in
      let sent = (send_video-received laws rounds s fd d w held s1 s2 (success_lem p first)).0 in
      rest
      ∙ (ap (λ id. wire fd w1 ++ flatten (map encode (map (video_of id) ds))) id_same
          ∙ (ap (λ b. b ++ flatten (map encode (map (video_of s.config.stream_id) ds))) sent
              ∙ (ap
                    (λ x.
                      (wire fd w ++ x)
                      ++ flatten (map encode (map (video_of s.config.stream_id) ds)))
                    (sym (encode-video s.config.stream_id d))
                  ∙ append_assoc (wire fd w) (encode (video_of s.config.stream_id d))
                      (flatten (map encode (map (video_of s.config.stream_id) ds))))))

-- The frame's packet is within the limit.
abbrev pub Fits : List ℕ → Type 0
Fits d = tcp_header_size + length d ≤ tcp_max_packet_size

videos-IsSendable :
    (id : ℕ) (ds : List (List ℕ))
    → 1 ≤ id
    → id ≤ max_streams
    → All Fits ds
    → All IsSendable (map (video_of id) ds)
videos-IsSendable id [] s1 s2 fits = tt
videos-IsSendable id (d ∷ ds) s1 s2 (fit, fits) = (
  record {
    type_from = omega arith;
    type_to = omega arith;
    stream_from = s1;
    stream_to = s2;
    length_to = fit;
  },
  videos-IsSendable id ds s1 s2 fits,
)

length-videos : (id : ℕ) (ds : List (List ℕ)) → length (map (video_of id) ds) ≡ length ds
length-videos id [] = refl
length-videos id (d ∷ ds) = omega (arith, length-videos id ds)

-- End to end, over a socket that appends what it takes and one that gives the bytes in whatever pieces,
-- without a timeout: if every frame fits into a packet and every call of the sender returns 0, for a
-- stream 1 to 256, and a server that is not stopped and has memory reads just what was put on the wire,
-- then `handle_packet` gets each frame once, in the order in which they were sent, as a video packet of the
-- sender's stream with the frame as its payload, and the server's loop ends with the connection.
pub send_frames-handle_all :
    {W V S : Type 0} {net : Net W} {wire : ℕ → W → List ℕ} (laws : SocketLaws net wire)
    {conn : ConnNet V} {incoming : ℕ → V → List ℕ} (delivers : DeliversAll conn incoming)
    (handle : PacketHeader → Option (List ℕ) → S → S) (ds : List (List ℕ)) (rounds fd : ℕ)
    (s : TcpSender) (w : W) (loops fd1 size : ℕ) (v : V) (state : S)
    → s.sock_fd ≡ some fd
    → 1 ≤ s.config.stream_id
    → s.config.stream_id ≤ max_streams
    → All Fits ds
    → (send_frames net rounds s ds w).0 ≡ true
    → wire fd w ≡ []
    → incoming fd1 v ≡ wire fd (send_frames net rounds s ds w).1.1
    → length ds < loops
    → let (over, (v1, after)) = client_loop conn handle loops fd1 size v state in
      (over ≡ true) × (after ≡ handle_all handle (map (video_of s.config.stream_id) ds) state)
send_frames-handle_all laws delivers handle ds rounds fd s w loops fd1 size v state held s1 s2 fits
      sent fresh read enough =
    let ps = map (video_of s.config.stream_id) ds in
    client_loop-handle_all delivers handle ps loops fd1 size v state
      (videos-IsSendable s.config.stream_id ds s1 s2 fits)
      (read
        ∙ (send_frames-wire laws rounds fd ds s w held s1 s2 sent
            ∙ ap (λ b. b ++ flatten (map encode ps)) fresh))
      (omega (arith, enough, length-videos s.config.stream_id ds))
