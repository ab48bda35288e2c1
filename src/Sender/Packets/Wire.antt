-- ===== src/Sender/Packets/Wire.antt =====
-- tcp_sender.c: what the server gets of a video packet.
use myworkspace.Prelude.{
  ℕ, ◌+◌, ◌≤◌, ◌<◌, ◌≡◌, ◌^◌, ◌⊎◌, ◌++◌, List, [], ◌∷◌, length, drop, none, some, arith,
}
use myworkspace.Protocol.{
  tcp_header_size, tcp_max_packet_size, video_data, max_streams, put32, put16, be32, be16,
  parse_header,
}
use myworkspace.Sender.{TcpSender, TcpSenderState, Progress}
use myworkspace.Sender.Net.{Net}
use myworkspace.Sender.Buffer.{ensure_buffer_size, new_size}
use myworkspace.Sender.Send.{send_all}
use myworkspace.Sender.Send.Wire.{SocketLaws, send_all-Sent}
use myworkspace.Sender.Packets.{header_bytes, video_packet, send_on, send_video}

-- What the server's reader makes of a video packet.
video_packet-header :
    (id : ℕ) (d : List ℕ)
    → tcp_header_size + length d < 2 ^ 32
    → 1 ≤ id
    → id ≤ max_streams
    → (drop tcp_header_size (video_packet id d) ≡ d)
      × (((tcp_header_size + length d ≤ tcp_max_packet_size)
            × (parse_header (some (video_packet id d))
                ≡ some (record {
                  length = tcp_header_size + length d;
                  type = video_data;
                  stream_id = id;
                })))
          ⊎ ((tcp_max_packet_size < tcp_header_size + length d)
              × (parse_header (some (video_packet id d)) ≡ none)))
unfolding video_packet header_bytes put32 put16 parse_header be32 be16
video_packet-header id d small s1 s2 = ground arith

ensure_buffer_size-keeps :
    {W : Type 0} {net : Net W} {wire : ℕ → W → List ℕ} (laws : SocketLaws net wire) (s : TcpSender)
    (needed fd : ℕ) (w : W)
    → let (t, w1) = (ensure_buffer_size net s needed w).1 in
      (wire fd w1 ≡ wire fd w)
      × (t.sock_fd ≡ s.sock_fd)
      × (t.config ≡ s.config)
      × (t.packets_sent ≡ s.packets_sent)
      × (t.bytes_sent ≡ s.bytes_sent)
unfolding ensure_buffer_size
ensure_buffer_size-keeps {net} laws s needed fd w =
    ground (arith, laws.realloc_sends fd (new_size needed s.send_buffer_size) w)

module _ {W : Type 0} {net : Net W} {wire : ℕ → W → List ℕ} (laws : SocketLaws net wire) where
  -- Given that `send` appends what it takes: a `tcp_sender_send_video` that returns 0 on the
  -- socket `fd`, for a stream 1 to 256, has put one packet on the wire, whose bytes behind the
  -- header are the data. If the packet is within the limit, the server's reader finds its length,
  -- its type and its stream; if it is above the limit, which the sender lets through where the
  -- data is not, the server refuses the header.
  pub send_video-received :
      (rounds : ℕ) (s : TcpSender) (fd : ℕ) (d : List ℕ) (w : W)
      → s.sock_fd ≡ some fd
      → 1 ≤ s.config.stream_id
      → s.config.stream_id ≤ max_streams
      → (send_video net rounds s d w).0 ≡ Progress.succeeded
      → let p = video_packet s.config.stream_id d in
        let w' = (send_video net rounds s d w).1.1 in
        (wire fd w' ≡ wire fd w ++ p)
        × (drop tcp_header_size p ≡ d)
        × (((tcp_header_size + length d ≤ tcp_max_packet_size)
              × (parse_header (some p)
                  ≡ some (record {
                    length = tcp_header_size + length d;
                    type = video_data;
                    stream_id = s.config.stream_id;
                  })))
            ⊎ ((tcp_max_packet_size < tcp_header_size + length d) × (parse_header (some p) ≡ none)))
  unfolding send_video send_on
  send_video-received rounds s fd [] w held s1 s2 done = ground arith
  send_video-received rounds s fd (x ∷ d) w held s1 s2 done =
      let p = video_packet s.config.stream_id (x ∷ d) in
      let (s1', w1) = (ensure_buffer_size net s (tcp_header_size + length (x ∷ d)) w).1 in
      ground (
        arith,
        ensure_buffer_size-keeps laws s (tcp_header_size + length (x ∷ d)) fd w,
        (send_all-Sent laws rounds fd p w1).whole,
        video_packet-header s.config.stream_id (x ∷ d),
      )

-- The sender's own limit is too wide: for a connected sender with a socket, a stream 1 to 256 and
-- a buffer with room, data of at most the limit that makes a packet above it is handed to
-- `send_all` as a packet whose header the server refuses.
pub send_video_oversized :
    {W : Type 0} (net : Net W) (rounds : ℕ) (s : TcpSender) (fd x : ℕ) (d : List ℕ) (w : W)
    → s.sock_fd ≡ some fd
    → s.state ≡ TcpSenderState.connected
    → 1 ≤ s.config.stream_id
    → s.config.stream_id ≤ max_streams
    → length (x ∷ d) ≤ tcp_max_packet_size
    → tcp_max_packet_size < tcp_header_size + length (x ∷ d)
    → tcp_header_size + length (x ∷ d) ≤ s.send_buffer_size
    → let p = video_packet s.config.stream_id (x ∷ d) in
      ((send_video net rounds s (x ∷ d) w).0 ≡ (send_all net rounds fd p w).0)
      × (parse_header (some p) ≡ none)
unfolding send_video send_on ensure_buffer_size
send_video_oversized net rounds s fd x d w held up s1 s2 le gt room =
    ground (arith, video_packet-header s.config.stream_id (x ∷ d))
