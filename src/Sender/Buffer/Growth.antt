-- ===== src/Sender/Buffer/Growth.antt =====
-- tcp_sender.c, `ensure_buffer_size`: the buffer it leaves has room for the packet.
use myworkspace.Prelude.{
  ℕ, zero, suc, ◌*◌, ◌^◌, ◌≤◌, ◌<◌, ◌≡◌, ◌⊎◌, true, false, if◌then◌else◌, ◌==◌, arith,
}
use myworkspace.Sender.{TcpSender, TcpError, default_send_buffer_size}
use myworkspace.Sender.Net.{Net}
use myworkspace.Sender.Buffer.{grow, new_size, ensure_buffer_size}

-- `size` after `rounds` doublings.
abbrev doubled : ℕ → ℕ → ℕ
doubled zero size = size
doubled (suc rounds) size = doubled rounds (2 * size)

-- `rounds` doublings reach `needed`, and stop below its double.
grow_reaches :
    (rounds needed size : ℕ)
    → needed ≤ doubled rounds size
    → needed ≤ 2 ^ 62
    → (needed ≤ grow rounds needed size)
      × ((grow rounds needed size ≡ size) ⊎ (grow rounds needed size < 2 * needed))
unfolding grow
grow_reaches zero needed size far fits = ground arith
grow_reaches (suc rounds) needed size far fits =
    ground (arith, grow_reaches rounds needed (2 * size))

-- For a request of up to 2 ^ 62 bytes, `ensure_buffer_size` either succeeds with a buffer that has
-- room for the request and is the old one or at most the larger of the default size and twice the
-- request, or it fails with the error for no memory and the old buffer. Nothing else changes.
pub ensure_buffer_size_lem :
    {W : Type 0} (net : Net W) (s : TcpSender) (needed : ℕ) (w : W)
    → needed ≤ 2 ^ 62
    → let (ok, (t, w1)) = ensure_buffer_size net s needed w in
      ((ok ≡ true)
        × (t ≡ record s { send_buffer_size = t.send_buffer_size })
        × (needed ≤ t.send_buffer_size)
        × ((t.send_buffer_size ≡ s.send_buffer_size)
            ⊎ ((t.send_buffer_size ≡ default_send_buffer_size)
                ⊎ (t.send_buffer_size < 2 * needed))))
      ⊎ ((ok ≡ false) × (t ≡ record s { last_error = TcpError.err_no_memory }))
unfolding ensure_buffer_size new_size
ensure_buffer_size_lem net s needed w fits =
    let size = if s.send_buffer_size == 0 then default_send_buffer_size else s.send_buffer_size in
    ground (arith, grow_reaches 64 needed size)
