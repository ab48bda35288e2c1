-- ===== src/Server/Receive.antt =====
-- server.c: the loop of `client_handler`, which reads packets and passes them on.
pub mod Exact
pub mod Packet
pub mod Session
pub mod Bounded
use myworkspace.Prelude.{
  ℕ, zero, suc, ◌+◌, ◌-◌, ◌*◌, List, [], ◌∷◌, ◌++◌, length, Option, none, some, Bool, true, false,
  not, ltb, leb, ◌==◌, if◌then◌else◌, mul64,
}
use myworkspace.Protocol.{PacketHeader, tcp_header_size, tcp_max_packet_size, parse_header}

-- What `recv` on a blocking socket gives: bytes, the end of the stream, a timeout or another error. It
-- stands for the call and its repetition while it fails with EINTR.
pub data Recv : Type 0 where
  got : List ℕ → Recv
  closed timed_out broken : Recv

-- `is_running` is `server->running && client->fd >= 0`, which `server_stop` on another thread clears.
pub record ConnNet (W : Type 0) : Type 0 where
  pub recv : ℕ → ℕ → W → Recv × W
  pub realloc : ℕ → W → Bool × W
  pub is_running : W → Bool

abbrev pub default_recv_buf_size : ℕ
default_recv_buf_size = 1024 * 1024

-- The size of the receive buffer for a payload: doubled until it has room, and the payload's own size
-- where doubling wraps. 64 rounds reach any size of 64 bits.
unfoldable pub grow_recv_buf : ℕ → ℕ → ℕ → ℕ → ℕ
grow_recv_buf zero needed old size = size
grow_recv_buf (suc rounds) needed old size =
    let rest = grow_recv_buf rounds needed old (mul64 size 2) in
    if not (ltb size needed) then size else if ltb (mul64 size 2) old then needed else rest

-- Bytes in front of what is still to come.
abbrev pub prepend : {W : Type 0} → List ℕ → Option (List ℕ) × W → Option (List ℕ) × W
prepend bytes (none, w) = (none, w)
prepend bytes (some rest, w) = (some (bytes ++ rest), w)

-- A packet: its header, its payload, NULL where that is empty, and the size of the buffer after it.
pub record PacketIn : Type 0 where
  pub header : PacketHeader
  pub payload : Option (List ℕ)
  pub recv_buf_size : ℕ

module _ {W : Type 0} (net : ConnNet W) where
  -- One `recv`, its result looked at; `next` is the loop from there on.
  unfoldable pub on_recv : (ℕ → W → Option (List ℕ) × W) → ℕ → Recv × W → Option (List ℕ) × W
  on_recv next n (got [], w) = (none, w)
  on_recv next n (got (x ∷ bytes), w) = prepend (x ∷ bytes) (next (n - length (x ∷ bytes)) w)
  on_recv next n (closed, w) = (none, w)
  on_recv next n (timed_out, w) = (none, w)
  on_recv next n (broken, w) = (none, w)

  -- The loop with `n` bytes to go.
  unfoldable pub recv_loop : ℕ → ℕ → ℕ → W → Option (List ℕ) × W
  recv_loop zero fd n w = if n == 0 then (some [], w) else (none, w)
  recv_loop (suc rounds) fd n w =
      if n == 0 then (some [], w) else on_recv (recv_loop rounds fd) n (net.recv fd n w)

  -- Each round gets at least a byte, so as many rounds as there are bytes are enough.
  unfoldable pub recv_exact : ℕ → ℕ → W → Option (List ℕ) × W
  recv_exact fd n w = recv_loop n fd n w

  -- The buffer for the payload: its size, or `none` where it cannot be had.
  unfoldable pub ensure_recv_buf : ℕ → ℕ → W → Option ℕ × W
  ensure_recv_buf size payload_len w =
      if ltb size payload_len
      then (let new_size = grow_recv_buf 64 payload_len size size in
          let (ok, w1) = net.realloc new_size w in ((if ok then some new_size else none), w1))
      else (some size, w)

  with_payload : PacketHeader → ℕ → Option (List ℕ) × W → Option PacketIn × W
  with_payload h size (none, w) = (none, w)
  with_payload h size (some d, w) =
      (some (record { header = h; payload = some d; recv_buf_size = size }), w)

  in_buffer : ℕ → PacketHeader → Option ℕ × W → Option PacketIn × W
  in_buffer fd h (none, w) = (none, w)
  in_buffer fd h (some size, w) = with_payload h size (recv_exact fd (h.length - tcp_header_size) w)

  -- The payload behind a header.
  unfoldable pub read_payload : ℕ → ℕ → PacketHeader → W → Option PacketIn × W
  unfolding in_buffer with_payload
  read_payload fd size h w =
      let payload_len = h.length - tcp_header_size in
      if payload_len == 0
      then (some (record { header = h; payload = none; recv_buf_size = size }), w)
      else if ltb tcp_max_packet_size payload_len
      then (none, w)
      else in_buffer fd h (ensure_recv_buf size payload_len w)

  after_parse : ℕ → ℕ → Option PacketHeader → W → Option PacketIn × W
  after_parse fd size none w = (none, w)
  after_parse fd size (some h) w = read_payload fd size h w

  after_header : ℕ → ℕ → Option (List ℕ) × W → Option PacketIn × W
  after_header fd size (none, w) = (none, w)
  after_header fd size (some buf, w) = after_parse fd size (parse_header (some buf)) w

  -- One packet; `none` where the loop breaks.
  unfoldable pub read_packet : ℕ → ℕ → W → Option PacketIn × W
  unfolding after_header after_parse
  read_packet fd size w = after_header fd size (recv_exact fd tcp_header_size w)

  -- `S` is what `handle_packet` works on. The result is whether the loop has ended, and the state.
  module _ {S : Type 0} (handle : PacketHeader → Option (List ℕ) → S → S) where
    on_packet : (ℕ → W → S → Bool × (W × S)) → S → Option PacketIn × W → Bool × (W × S)
    on_packet next s (none, w) = (true, (w, s))
    on_packet next s (some p, w) = next p.recv_buf_size w (handle p.header p.payload s)

    -- The loop of `client_handler`, at most `rounds` of it.
    unfoldable pub client_loop : ℕ → ℕ → ℕ → W → S → Bool × (W × S)
    unfolding on_packet
    client_loop zero fd size w s = (false, (w, s))
    client_loop (suc rounds) fd size w s =
        if net.is_running w
        then on_packet (client_loop rounds fd) s (read_packet fd size w)
        else (true, (w, s))
