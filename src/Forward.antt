-- ===== src/Forward.antt =====
-- strem_agent_server/src/main.c, `ctrl_client_thread` behind the AUTH and SUB lines: each frame of a control
-- connection, a length of four bytes and its bytes, is sent on as one datagram. `recv_exact` of
-- tcp_util.c is the loop of the server's, which is in Server.Receive; the agent has set no timeout.
pub mod Frames
pub mod Host
mod Tests
use myworkspace.Prelude.{
  ℕ, zero, suc, List, Option, none, some, Bool, true, false, ◌||◌, ◌==◌, ltb, if◌then◌else◌,
}
use myworkspace.Protocol.{be32}
use myworkspace.Server.Receive.{ConnNet, recv_exact}

-- The largest datagram that is sent on.
abbrev pub max_frame : ℕ
max_frame = 4096

module _ {W : Type 0} (net : ConnNet W) where
  after_length : ℕ → Option (List ℕ) × W → Option (List ℕ) × W
  after_length fd (none, w) = (none, w)
  after_length fd (some lenb, w) =
      let n = be32 lenb 0 in if n == 0 || ltb max_frame n then (none, w) else recv_exact net fd n w

  -- One frame; `none` where the loop breaks.
  unfoldable pub read_frame : ℕ → W → Option (List ℕ) × W
  unfolding after_length
  read_frame fd w = after_length fd (recv_exact net fd 4 w)

  -- `send` is `udp_send_to` to the worker, whose result is not looked at. The result is whether the loop
  -- has ended, and the state.
  module _ {S : Type 0} (send : List ℕ → S → S) where
    on_frame : (W → S → Bool × (W × S)) → S → Option (List ℕ) × W → Bool × (W × S)
    on_frame next s (none, w) = (true, (w, s))
    on_frame next s (some d, w) = next w (send d s)

    unfoldable pub ctrl_loop : ℕ → ℕ → W → S → Bool × (W × S)
    unfolding on_frame read_frame
    ctrl_loop zero fd w s = (false, (w, s))
    ctrl_loop (suc rounds) fd w s = on_frame (ctrl_loop rounds fd) s (read_frame fd w)
