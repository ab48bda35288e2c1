-- ===== src/Sender/Buffer.antt =====
-- tcp_sender.c, `ensure_buffer_size`.
pub mod Growth
use myworkspace.Prelude.{ℕ, zero, suc, Bool, true, false, ltb, leb, ◌==◌, if◌then◌else◌, mul64}
use myworkspace.Sender.{TcpSender, TcpError, default_send_buffer_size}
use myworkspace.Sender.Net.{Net}

-- `while (new_size < needed) new_size *= 2`, at most `rounds` of it.
unfoldable pub grow : ℕ → ℕ → ℕ → ℕ
grow zero needed size = size
grow (suc rounds) needed size =
    let rest = grow rounds needed (mul64 size 2) in if ltb size needed then rest else size

-- A size of 64 bits that is not 0 reaches any size it can by 64 doublings.
unfoldable pub new_size : ℕ → ℕ → ℕ
new_size needed size = grow 64 needed (if size == 0 then default_send_buffer_size else size)

after_realloc : {W : Type 0} → TcpSender → ℕ → Bool × W → Bool × (TcpSender × W)
after_realloc s size (true, w) = (true, (record s { send_buffer_size = size }, w))
after_realloc s size (false, w) = (false, (record s { last_error = TcpError.err_no_memory }, w))

unfoldable pub ensure_buffer_size :
    {W : Type 0} → Net W → TcpSender → ℕ → W → Bool × (TcpSender × W)
unfolding after_realloc
ensure_buffer_size net s needed w =
    if leb needed s.send_buffer_size
    then (true, (s, w))
    else (let size = new_size needed s.send_buffer_size in
        after_realloc s size (net.realloc size w))
