-- ===== src/Sender/Connect.antt =====
-- tcp_sender.c: the life of a sender.
pub mod Lives
pub mod Outcome
pub mod Init
use myworkspace.Prelude.{
  ℕ, ◌*◌, List, [], Option, none, some, Bool, true, false, ◌==◌, ◌||◌, not, if◌then◌else◌,
}
use myworkspace.Sender.{
  TcpSender, TcpSenderConfig, TcpSenderState, TcpError, Progress, zero_sender,
  default_send_buffer_size,
}
use myworkspace.Sender.Net.{Net, ConnectResult, SocketOption}
use myworkspace.Sender.Packets.{is_connected, send_stream_start, send_stream_stop}

abbrev pub connect_timeout_sec : ℕ
connect_timeout_sec = 10

abbrev is_unset : List ℕ → Bool
is_unset [] = true
is_unset _ = false

-- Every failure of `tcp_sender_connect`.
abbrev pub connect_failed : TcpSender → TcpError → TcpSender
connect_failed s e = record s { sock_fd = none; last_error = e; state = TcpSenderState.error }

module _ {W : Type 0} (net : Net W) where
  after_malloc : TcpSenderConfig → Bool × W → Bool × (TcpSender × W)
  after_malloc config (true, w) = (
    true,
    (record zero_sender { config = config; send_buffer_size = default_send_buffer_size }, w),
  )
  after_malloc config (false, w) =
      (false, (record zero_sender { config = config; last_error = TcpError.err_no_memory }, w))

  -- `s` is what the memory of the sender held before.
  unfoldable pub init : TcpSender → TcpSenderConfig → W → Bool × (TcpSender × W)
  unfolding after_malloc
  init s config w =
      if config.port == 0 || is_unset config.host
      then (false, (s, w))
      else if config.stream_id == 0
      then (false, (s, w))
      else after_malloc config (net.malloc default_send_buffer_size w)

  close_fd : TcpSender → Option ℕ → W → TcpSender × W
  close_fd s none w = (s, w)
  close_fd s (some fd) w = (record s { sock_fd = none }, net.close fd w)

  -- `if (sock_fd >= 0) { close(sock_fd); sock_fd = -1; }`
  unfoldable pub close_socket : TcpSender → W → TcpSender × W
  unfolding close_fd
  close_socket s w = close_fd s s.sock_fd w

  -- Waiting for a connection in progress: `true` where it was made.
  unfoldable pub wait_connected : ℕ → W → Bool × W
  wait_connected fd w =
      let (writable, w1) = net.select_writable fd connect_timeout_sec w in
      if writable
      then (let (so_error, w2) = net.socket_error fd w1 in (so_error == 0, w2))
      else (false, w1)

  unfoldable pub finish_connect : ℕ → ConnectResult × W → Bool × W
  finish_connect fd (ConnectResult.connected_now, w) = (true, w)
  finish_connect fd (ConnectResult.in_progress, w) = wait_connected fd w
  finish_connect fd (ConnectResult.refused, w) = (false, w)

  -- From the resolver to the connection.
  unfoldable pub connect_to : ℕ → ℕ → Option ℕ × W → Bool × W
  connect_to fd port (none, w) = (false, w)
  connect_to fd port (some addr, w) = finish_connect fd (net.connect fd addr port w)

  unfoldable pub prepare_socket : ℕ → W → W
  prepare_socket fd w = net.set_nonblocking fd (
      net.setsockopt fd SocketOption.so_sndbuf (2 * 1024 * 1024)
        (net.setsockopt fd SocketOption.tcp_nodelay 1 w))

  module _ (rounds : ℕ) where
    -- The connection stands; the result of the STREAM_START message is not looked at.
    unfoldable pub on_connected : TcpSender → W → Bool × (TcpSender × W)
    on_connected s w =
        let (now, w1) = net.now_monotonic_ns w in
        (
          true,
          (send_stream_start net rounds
              (record s {
                state = TcpSenderState.connected;
                connect_time_ns = now;
                last_heartbeat_ns = now;
                packets_sent = 0;
                bytes_sent = 0;
              })
              w1).1,
        )

    unfoldable pub on_socket : TcpSender → Option ℕ × W → Bool × (TcpSender × W)
    on_socket s (none, w) = (false, (connect_failed s TcpError.err_socket_create, w))
    on_socket s (some fd, w) =
        let (made, w1) =
          connect_to fd s.config.port (net.resolve s.config.host (prepare_socket fd w)) in
        if made
        then on_connected (record s { sock_fd = some fd }) w1
        else (false, (connect_failed s TcpError.err_connect, net.close fd w1))

    unfoldable pub connect : TcpSender → W → Bool × (TcpSender × W)
    connect s w =
        if is_connected s
        then (true, (s, w))
        else (let (s1, w1) = close_socket s w in
            on_socket
              (record s1 { state = TcpSenderState.connecting; last_error = TcpError.err_none })
              (net.socket w1))

    unfoldable pub disconnect : TcpSender → W → TcpSender × W
    disconnect s w =
        let w1 = if is_connected s then (send_stream_stop net rounds s w).1 else w in
        let (s1, w2) = close_socket s w1 in (record s1 { state = TcpSenderState.disconnected }, w2)

    unfoldable pub destroy : TcpSender → W → TcpSender × W
    destroy s w = (zero_sender, net.free (disconnect s w).1)
