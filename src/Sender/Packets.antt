-- ===== src/Sender/Packets.antt =====
-- tcp_sender.c: the four packets and the heartbeat timer. `rounds` bounds the loop of `send_all`.
pub mod Wire
pub mod Info
use myworkspace.Prelude.{
  ℕ, ◌+◌, List, [], ◌∷◌, ◌++◌, length, Option, none, some, Bool, true, false, ltb, leb,
  if◌then◌else◌, add64, sub64,
}
use myworkspace.Protocol.{
  tcp_header_size, tcp_max_packet_size, video_data, heartbeat, stream_start, stream_stop, put32,
  put16,
}
use myworkspace.Sender.{TcpSender, TcpSenderConfig, TcpSenderState, TcpError, Progress}
use myworkspace.Sender.Net.{Net}
use myworkspace.Sender.Buffer.{ensure_buffer_size}
use myworkspace.Sender.Send.{send_all}

-- `buf[0]` to `buf[6]`.
unfoldable pub header_bytes : ℕ → ℕ → ℕ → List ℕ
header_bytes total_size type stream_id = put32 total_size ++ (type ∷ put16 stream_id)

-- `p[0]` to `p[39]`.
unfoldable pub stream_start_payload : TcpSenderConfig → List ℕ
stream_start_payload c =
    put32 c.width
    ++ put32 c.height
    ++ put32 c.fps
    ++ put32 c.bitrate
    ++ put32 c.codec
    ++ put32 c.chroma
    ++ put32 c.bitdepth
    ++ put32 c.video_format
    ++ put32 c.color_space
    ++ put32 c.color_range

unfoldable pub video_packet : ℕ → List ℕ → List ℕ
video_packet stream_id d = header_bytes (tcp_header_size + length d) video_data stream_id ++ d

unfoldable pub stream_start_packet : TcpSenderConfig → List ℕ
stream_start_packet c =
    header_bytes (tcp_header_size + 40) stream_start c.stream_id ++ stream_start_payload c

-- A packet without a payload.
unfoldable pub empty_packet : ℕ → ℕ → List ℕ
empty_packet type stream_id = header_bytes tcp_header_size type stream_id

abbrev pub is_connected : TcpSender → Bool
is_connected s = elim s.state [ TcpSenderState.connected ↦ true | _ ↦ false ]

abbrev pub send_failed : TcpSender → TcpSender
send_failed s = record s { last_error = TcpError.err_send; state = TcpSenderState.error }

module _ {W : Type 0} (net : Net W) (rounds : ℕ) where
  -- `send_all` on `sock_fd`; `send` on -1 fails with EBADF.
  unfoldable pub send_on : Option ℕ → List ℕ → W → Progress × W
  send_on none d w = (Progress.failed, w)
  send_on (some fd) d w = send_all net rounds fd d w

  after_video : TcpSender → ℕ → Progress × W → Progress × (TcpSender × W)
  after_video s total (Progress.succeeded, w) = (
    Progress.succeeded,
    (record s { packets_sent = add64 s.packets_sent 1; bytes_sent = add64 s.bytes_sent total }, w),
  )
  after_video s total (Progress.failed, w) = (Progress.failed, (send_failed s, w))
  after_video s total (Progress.running, w) = (Progress.running, (s, w))

  unfoldable pub send_video : TcpSender → List ℕ → W → Progress × (TcpSender × W)
  unfolding after_video
  send_video s [] w = (Progress.failed, (s, w))
  send_video s (x ∷ d) w =
      if is_connected s
      then (if ltb tcp_max_packet_size (length (x ∷ d))
          then (Progress.failed, (record s { last_error = TcpError.err_packet_too_large }, w))
          else (let total = tcp_header_size + length (x ∷ d) in
              let (ok, (s1, w1)) = ensure_buffer_size net s total w in
              if ok
              then after_video s1 total
                  (send_on s1.sock_fd (video_packet s1.config.stream_id (x ∷ d)) w1)
              else (Progress.failed, (s1, w1))))
      else (Progress.failed, (record s { last_error = TcpError.err_not_connected }, w))

  after_heartbeat : TcpSender → Progress × W → Progress × (TcpSender × W)
  after_heartbeat s (Progress.succeeded, w) =
      let (now, w1) = net.now_monotonic_ns w in
      (Progress.succeeded, (record s { last_heartbeat_ns = now }, w1))
  after_heartbeat s (Progress.failed, w) = (Progress.failed, (send_failed s, w))
  after_heartbeat s (Progress.running, w) = (Progress.running, (s, w))

  unfoldable pub send_heartbeat : TcpSender → W → Progress × (TcpSender × W)
  unfolding after_heartbeat
  send_heartbeat s w =
      if is_connected s
      then after_heartbeat s (send_on s.sock_fd (empty_packet heartbeat s.config.stream_id) w)
      else (Progress.failed, (s, w))

  after_start : TcpSender → Progress × W → Progress × (TcpSender × W)
  after_start s (Progress.succeeded, w) = (Progress.succeeded, (s, w))
  after_start s (Progress.failed, w) = (Progress.failed, (send_failed s, w))
  after_start s (Progress.running, w) = (Progress.running, (s, w))

  unfoldable pub send_stream_start : TcpSender → W → Progress × (TcpSender × W)
  unfolding after_start
  send_stream_start s w =
      if is_connected s
      then (let (ok, (s1, w1)) = ensure_buffer_size net s (tcp_header_size + 40) w in
          if ok
          then after_start s1 (send_on s1.sock_fd (stream_start_packet s1.config) w1)
          else (Progress.failed, (s1, w1)))
      else (Progress.failed, (s, w))

  -- A failure changes nothing of the sender.
  unfoldable pub send_stream_stop : TcpSender → W → Progress × W
  send_stream_stop s w =
      if is_connected s
      then send_on s.sock_fd (empty_packet stream_stop s.config.stream_id) w
      else (Progress.failed, w)

  unfoldable pub check_heartbeat : TcpSender → ℕ → W → Progress × (TcpSender × W)
  check_heartbeat s interval_ns w =
      if is_connected s
      then (let (now, w1) = net.now_monotonic_ns w in
          if leb interval_ns (sub64 now s.last_heartbeat_ns)
          then send_heartbeat s w1
          else (Progress.succeeded, (s, w1)))
      else (Progress.succeeded, (s, w))
