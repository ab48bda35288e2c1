-- ===== src/Tap/Flush.antt =====
-- h264_tap.c: closing a client, growing its buffer and sending what waits in it.
pub mod Whole
use myworkspace.Prelude.{
  ℕ, zero, suc, ◌+◌, ◌-◌, ◌*◌, List, [], Bool, true, false, not, ◌==◌, leb, ltb, if◌then◌else◌,
  mul64,
}
use myworkspace.Tap.{TapClient, closed_client, pending}
use myworkspace.Tap.Net.{TapNet, TapSend}

-- What flushing leaves behind an emptied buffer.
abbrev pub emptied : TapClient → TapClient
emptied c = record c { out_len = 0; out_off = 0; out_start_ns = 0 }

-- `while (cap < need) cap *= 2`; 64 rounds reach any size of 64 bits.
unfoldable pub double_until : ℕ → ℕ → ℕ → ℕ
double_until zero need cap = cap
double_until (suc rounds) need cap =
    let rest = double_until rounds need (mul64 cap 2) in if ltb cap need then rest else cap

module _ {W : Type 0} (net : TapNet W) where
  unfoldable pub client_close : TapClient → W → TapClient × W
  client_close c w = (closed_client, net.close c.fd w)

  after_grow : TapClient → ℕ → Bool × W → TapClient × W
  after_grow c cap (true, w) = (record c { out_cap = cap }, w)
  after_grow c cap (false, w) = (c, w)

  unfoldable pub ensure_out_buf : TapClient → ℕ → W → TapClient × W
  unfolding after_grow
  ensure_out_buf c need w =
      if leb need c.out_cap
      then (c, w)
      else (let cap = double_until 64 need (if c.out_cap == 0 then 256 * 1024 else c.out_cap) in
          after_grow c cap (net.realloc cap w))

  -- One `send`, its result looked at; `next` is the loop from there on.
  unfoldable pub on_sent :
      (TapClient → W → Bool × (TapClient × W)) → TapClient → TapSend × W → Bool × (TapClient × W)
  on_sent next c (TapSend.took n, w) =
      if n == 0 then (true, client_close c w) else next (record c { out_off = c.out_off + n }) w
  on_sent next c (TapSend.would_block, w) = (false, (c, w))
  on_sent next c (TapSend.broken, w) = (true, client_close c w)

  -- The loop, at most `rounds` of it, and what follows it.
  unfoldable pub flush_loop : ℕ → TapClient → W → Bool × (TapClient × W)
  flush_loop zero c w = (true, (emptied c, w))
  flush_loop (suc rounds) c w =
      if ltb c.out_off c.out_len
      then on_sent (flush_loop rounds) c (net.send c.fd (pending c) w)
      else (true, (emptied c, w))

  -- Each round sends at least a byte, so as many rounds as there are bytes are enough.
  unfoldable pub flush_out_buf : TapClient → W → Bool × (TapClient × W)
  flush_out_buf c w =
      if not c.active then (true, (c, w)) else flush_loop (c.out_len - c.out_off) c w
