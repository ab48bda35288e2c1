-- ===== src/Sender/Connect/Lives.antt =====
-- tcp_sender.c: what every sequence of calls keeps of a sender.
use myworkspace.Prelude.{
  ℕ, ◌+◌, ◌≡◌, ◌≢◌, List, [], ◌∷◌, length, Option, none, some, Bool, true, false, is_some,
  if◌then◌else◌, arith, refl,
}
use myworkspace.Protocol.{tcp_header_size}
use myworkspace.Sender.{TcpSender, TcpSenderConfig, TcpSenderState}
use myworkspace.Sender.Net.{Net}
use myworkspace.Sender.Buffer.{ensure_buffer_size}
use myworkspace.Sender.Packets.{
  is_connected, send_video, send_heartbeat, send_stream_start, check_heartbeat,
}
use myworkspace.Sender.Connect.{
  init, connect, disconnect, destroy, close_socket, on_connected, connect_to, on_socket,
  prepare_socket,
}

-- A connected sender has a socket, a disconnected one has none, and none is left half connected.
pub record IsSane (s : TcpSender) : Type 0 where
  pub connected : s.state ≡ TcpSenderState.connected → is_some s.sock_fd ≡ true
  pub disconnected : s.state ≡ TcpSenderState.disconnected → s.sock_fd ≡ none
  pub settled : s.state ≢ TcpSenderState.connecting

-- A call of the sender's interface.
pub data Call : Type 0 where
  init_with : TcpSenderConfig → Call
  connect_now disconnect_now destroy_now heartbeat_now : Call
  send_frame : List ℕ → Call
  check_every : ℕ → Call

module _ {W : Type 0} (net : Net W) (rounds : ℕ) where
  unfoldable pub step : Call → TcpSender × W → TcpSender × W
  step (Call.init_with config) (s, w) = (init net s config w).1
  step Call.connect_now (s, w) = (connect net rounds s w).1
  step Call.disconnect_now (s, w) = disconnect net rounds s w
  step Call.destroy_now (s, w) = destroy net rounds s w
  step Call.heartbeat_now (s, w) = (send_heartbeat net rounds s w).1
  step (Call.send_frame d) (s, w) = (send_video net rounds s d w).1
  step (Call.check_every interval) (s, w) = (check_heartbeat net rounds s interval w).1

  unfoldable pub run : List Call → TcpSender × W → TcpSender × W
  run [] at = at
  run (call ∷ calls) at = run calls (step call at)

  ensure-same :
      (s : TcpSender) (needed : ℕ) (w : W)
      → let t = (ensure_buffer_size net s needed w).1.0 in
        (t.sock_fd ≡ s.sock_fd) × (t.state ≡ s.state)
  unfolding ensure_buffer_size
  ensure-same s needed w = ground arith

  send_video-IsSane :
      (s : TcpSender) (d : List ℕ) (w : W) → IsSane s → IsSane (send_video net rounds s d w).1.0
  unfolding send_video
  send_video-IsSane s [] w sane = sane
  send_video-IsSane s (x ∷ d) w sane =
      ground (arith, ensure-same s (tcp_header_size + length (x ∷ d)) w)

  send_heartbeat-IsSane :
      (s : TcpSender) (w : W) → IsSane s → IsSane (send_heartbeat net rounds s w).1.0
  unfolding send_heartbeat
  send_heartbeat-IsSane s w sane = ground arith

  send_stream_start-IsSane :
      (s : TcpSender) (w : W) → IsSane s → IsSane (send_stream_start net rounds s w).1.0
  unfolding send_stream_start
  send_stream_start-IsSane s w sane = ground (arith, ensure-same s (tcp_header_size + 40) w)

  on_connected-IsSane :
      (s : TcpSender) (w : W) → is_some s.sock_fd ≡ true → IsSane (on_connected net rounds s w).1.0
  unfolding on_connected
  on_connected-IsSane s w held = send_stream_start-IsSane _ _ (record {
    connected = λ e. held;
    disconnected = λ e. ground arith;
    settled = λ e. ground arith;
  })

  if-IsSane :
      (b : Bool) (x y : Bool × (TcpSender × W))
      → IsSane x.1.0
      → IsSane y.1.0
      → IsSane (if b then x else y).1.0
  if-IsSane true x y hx hy = hx
  if-IsSane false x y hx hy = hy

  on_socket-IsSane : (s : TcpSender) (r : Option ℕ × W) → IsSane (on_socket net rounds s r).1.0
  unfolding on_socket
  on_socket-IsSane s (none, w) = ground arith
  on_socket-IsSane s (some fd, w) =
      let (made, w1) =
        connect_to net fd s.config.port (net.resolve s.config.host (prepare_socket net fd w)) in
      if-IsSane made _ _ (on_connected-IsSane (record s { sock_fd = some fd }) w1 refl)
        (ground arith)

  connect-IsSane : (s : TcpSender) (w : W) → IsSane s → IsSane (connect net rounds s w).1.0
  unfolding connect
  connect-IsSane s w sane = if-IsSane (is_connected s) _ _ sane (on_socket-IsSane _ _)

  disconnect-IsSane : (s : TcpSender) (w : W) → IsSane (disconnect net rounds s w).0
  unfolding disconnect close_socket
  disconnect-IsSane s w = ground arith

  init-IsSane :
      (s : TcpSender) (config : TcpSenderConfig) (w : W)
      → IsSane s
      → IsSane (init net s config w).1.0
  unfolding init
  init-IsSane s config w sane = ground arith

  step-IsSane : (call : Call) (at : TcpSender × W) → IsSane at.0 → IsSane (step call at).0
  unfolding step check_heartbeat destroy
  step-IsSane (Call.init_with config) (s, w) sane = init-IsSane s config w sane
  step-IsSane Call.connect_now (s, w) sane = connect-IsSane s w sane
  step-IsSane Call.disconnect_now (s, w) sane = disconnect-IsSane s w
  step-IsSane Call.destroy_now (s, w) sane = ground arith
  step-IsSane Call.heartbeat_now (s, w) sane = send_heartbeat-IsSane s w sane
  step-IsSane (Call.send_frame d) (s, w) sane = send_video-IsSane s d w sane
  step-IsSane (Call.check_every interval) (s, w) sane =
      ground (arith, send_heartbeat-IsSane s (net.now_monotonic_ns w).1 sane)

  -- Over any sequence of calls, whatever the network answers, and from a sender of which it holds:
  -- a connected sender has a socket, a disconnected one has none, and no call leaves it in the
  -- middle of connecting.
  pub run-IsSane : (calls : List Call) (at : TcpSender × W) → IsSane at.0 → IsSane (run calls at).0
  unfolding run
  run-IsSane [] at sane = sane
  run-IsSane (call ∷ calls) at sane = run-IsSane calls (step call at) (step-IsSane call at sane)
