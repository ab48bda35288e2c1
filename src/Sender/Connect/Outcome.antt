-- ===== src/Sender/Connect/Outcome.antt =====
-- tcp_sender.c: what `tcp_sender_connect` reports, and what it leaves.
use myworkspace.Prelude.{
  ℕ, ◌≡◌, ◌⊎◌, Option, inl, inr, none, some, Bool, true, false, if-holds, ◌≢◌, arith, refl, is_some,
}
use myworkspace.Sender.{TcpSender, TcpSenderState, TcpError}
use myworkspace.Sender.Net.{Net}
use myworkspace.Sender.Buffer.{ensure_buffer_size}
use myworkspace.Sender.Packets.{is_connected, send_stream_start}
use myworkspace.Sender.Connect.{connect, on_connected, on_socket, connect_to, prepare_socket}

-- How a call of `tcp_sender_connect` on `s` ends. A sender that is connected is left as it is, and
-- nothing is done on the network. Otherwise: -1 in the state of an error, with no socket; or 0, and then
-- the sender is connected, or STREAM_START could not be sent and it is in the state of an error.
pub data Outcome {W : Type 0} (s : TcpSender) (w : W) : Bool → TcpSender → W → Type 0 where
  kept : s.state ≡ TcpSenderState.connected → Outcome s w true s w
  refused :
      {t : TcpSender} {w1 : W}
      → s.state ≢ TcpSenderState.connected
      → t.state ≡ TcpSenderState.error
      → t.sock_fd ≡ none
      → (t.last_error ≡ TcpError.err_socket_create) ⊎ (t.last_error ≡ TcpError.err_connect)
      → Outcome s w false t w1
  joined :
      {t : TcpSender} {w1 : W}
      → s.state ≢ TcpSenderState.connected
      → t.state ≡ TcpSenderState.connected
      → is_some t.sock_fd ≡ true
      → Outcome s w true t w1
  lost :
      {t : TcpSender} {w1 : W}
      → s.state ≢ TcpSenderState.connected
      → t.state ≡ TcpSenderState.error
      → is_some t.sock_fd ≡ true
      → t.last_error ≡ TcpError.err_send
      → Outcome s w true t w1

module _ {W : Type 0} (net : Net W) (rounds : ℕ) where
  is_connected-state : (s : TcpSender) → is_connected s ≡ true → s.state ≡ TcpSenderState.connected
  is_connected-state s e = ground arith

  start_outcome :
      (s : TcpSender) (w : W)
      → s.state ≡ TcpSenderState.connected
      → is_some s.sock_fd ≡ true
      → let t = (send_stream_start net rounds s w).1.0 in
        (is_some t.sock_fd ≡ true)
        × ((t.state ≡ TcpSenderState.connected)
            ⊎ ((t.state ≡ TcpSenderState.error) × (t.last_error ≡ TcpError.err_send)))
  unfolding send_stream_start ensure_buffer_size
  start_outcome s w up held = ground arith

  -- `s0` and `w0` are what the call was given, not connected.
  module _ (s0 : TcpSender) (w0 : W) (down : s0.state ≢ TcpSenderState.connected) where
    abbrev IsOutcome : Bool × (TcpSender × W) → Type 0
    IsOutcome out = Outcome s0 w0 out.0 out.1.0 out.1.1

    Outcome-of :
        {t : TcpSender} {w : W}
        → (is_some t.sock_fd ≡ true)
          × ((t.state ≡ TcpSenderState.connected)
              ⊎ ((t.state ≡ TcpSenderState.error) × (t.last_error ≡ TcpError.err_send)))
        → Outcome s0 w0 true t w
    Outcome-of (held, inl up) = joined down up held
    Outcome-of (held, inr (off, why)) = lost down off held why

    on_connected-Outcome :
        (s : TcpSender) (w : W) → is_some s.sock_fd ≡ true → IsOutcome (on_connected net rounds s w)
    unfolding on_connected
    on_connected-Outcome s w held = Outcome-of (start_outcome _ _ refl held)

    on_socket-Outcome : (s : TcpSender) (r : Option ℕ × W) → IsOutcome (on_socket net rounds s r)
    unfolding on_socket
    on_socket-Outcome s (none, w) = refused down refl refl (inl refl)
    on_socket-Outcome s (some fd, w) =
        let (made, w1) =
          connect_to net fd s.config.port (net.resolve s.config.host (prepare_socket net fd w)) in
        if-holds IsOutcome made _ _
          (λ e. on_connected-Outcome (record s { sock_fd = some fd }) w1 refl)
          (λ e. refused down refl refl (inr refl))

  is_connected-down :
      (s : TcpSender)
      → (s.state ≡ TcpSenderState.connected → is_some s.sock_fd ≡ true)
      → is_connected s ≡ false
      → s.state ≢ TcpSenderState.connected
  is_connected-down s sane e up = absurd (ground (arith, sane up))

  -- Where a sender that is connected has a socket, a call of `tcp_sender_connect` on one that is connected
  -- returns 0 and leaves the sender and the network as they are; any other ends in one of three ways: -1
  -- with the error state, a connection error and no socket; 0 and connected; or 0 with the error state and
  -- a send error, where STREAM_START could not be sent.
  pub connect_outcome :
      (s : TcpSender) (w : W)
      → (s.state ≡ TcpSenderState.connected → is_some s.sock_fd ≡ true)
      → let out = connect net rounds s w in Outcome s w out.0 out.1.0 out.1.1
  unfolding connect
  connect_outcome s w sane =
      if-holds (λ (out : Bool × (TcpSender × W)). Outcome s w out.0 out.1.0 out.1.1)
        (is_connected s) _ _ (λ e. kept (is_connected-state s e))
        (λ e. on_socket-Outcome s w (is_connected-down s sane e) _ _)
