-- ===== src/Server/Receive/Bounded.antt =====
-- server.c, `client_handler`: the packets that reach `handle_packet`, whatever the peer sends.
use myworkspace.Prelude.{
  ℕ, zero, suc, ◌-◌, ◌≤◌, ◌≡◌, List, [], ◌∷◌, length, Option, none, some, Bool, ◌==◌, ltb, if-holds,
  arith, refl, length-append,
}
use myworkspace.Protocol.{PacketHeader, tcp_header_size, tcp_max_packet_size, parse_header}
use myworkspace.Server.Receive.{
  Recv, got, closed, timed_out, broken, ConnNet, PacketIn, prepend, on_recv, recv_loop, recv_exact,
  ensure_recv_buf, with_payload, in_buffer, read_payload, after_parse, after_header, read_packet,
  on_packet, client_loop,
}

-- What `recv` documents: at most the bytes that it is asked for.
pub record RecvFits {W : Type 0} (net : ConnNet W) : Type 0 where
  pub fits :
      (fd n : ℕ) (w : W) (bytes : List ℕ) → (net.recv fd n w).0 ≡ got bytes → length bytes ≤ n

-- The bound that `client_handler` puts on a payload.
abbrev pub IsBounded : Option (List ℕ) → Type 0
IsBounded none = Unit
IsBounded (some d) = length d ≤ tcp_max_packet_size

-- The bytes are as many as asked for, or there are none.
abbrev HasLength : ℕ → Option (List ℕ) → Type 0
HasLength n none = Unit
HasLength n (some d) = length d ≡ n

abbrev Bounded : Option PacketIn → Type 0
Bounded none = Unit
Bounded (some p) = IsBounded p.payload

module _ {W : Type 0} {net : ConnNet W} (laws : RecvFits net) where
  prepend-HasLength :
      (n : ℕ) (bs : List ℕ) (r : Option (List ℕ) × W)
      → length bs ≤ n
      → HasLength (n - length bs) r.0
      → HasLength n (prepend bs r).0
  prepend-HasLength n bs (none, w) le h = tt
  prepend-HasLength n bs (some d, w) le h = omega (arith, length-append bs d)

  on_recv-HasLength :
      (next : ℕ → W → Option (List ℕ) × W) (n : ℕ) (r : Recv × W)
      → ((bytes : List ℕ) → r.0 ≡ got bytes → length bytes ≤ n)
      → ((m : ℕ) (w : W) → HasLength m (next m w).0)
      → HasLength n (on_recv net next n r).0
  unfolding on_recv
  on_recv-HasLength next n (got [], w) le h = tt
  on_recv-HasLength next n (got (x ∷ bs), w) le h =
      prepend-HasLength n (x ∷ bs) (next (n - length (x ∷ bs)) w) (le (x ∷ bs) refl)
        (h (n - length (x ∷ bs)) w)
  on_recv-HasLength next n (closed, w) le h = tt
  on_recv-HasLength next n (timed_out, w) le h = tt
  on_recv-HasLength next n (broken, w) le h = tt

  recv_loop-HasLength : (rounds fd n : ℕ) (w : W) → HasLength n (recv_loop net rounds fd n w).0
  unfolding recv_loop
  recv_loop-HasLength zero fd n w =
      if-holds (λ (r : Option (List ℕ) × W). HasLength n r.0) (n == 0) _ _ (λ e. ground arith)
        (λ e. tt)
  recv_loop-HasLength (suc rounds) fd n w =
      if-holds (λ (r : Option (List ℕ) × W). HasLength n r.0) (n == 0) _ _ (λ e. ground arith)
        (λ e.
          on_recv-HasLength (recv_loop net rounds fd) n (net.recv fd n w)
            (λ bytes e. laws.fits fd n w bytes e) (λ m w. recv_loop-HasLength rounds fd m w))

  with_payload-Bounded :
      (h : PacketHeader) (size n : ℕ) (r : Option (List ℕ) × W)
      → n ≤ tcp_max_packet_size
      → HasLength n r.0
      → Bounded (with_payload net h size r).0
  unfolding with_payload
  with_payload-Bounded h size n (none, w) le e = tt
  with_payload-Bounded h size n (some d, w) le e = omega arith

  in_buffer-Bounded :
      (fd : ℕ) (h : PacketHeader) (r : Option ℕ × W)
      → h.length - tcp_header_size ≤ tcp_max_packet_size
      → Bounded (in_buffer net fd h r).0
  unfolding in_buffer recv_exact
  in_buffer-Bounded fd h (none, w) le = tt
  in_buffer-Bounded fd h (some size, w) le =
      let n = h.length - tcp_header_size in
      with_payload-Bounded h size n (recv_exact net fd n w) le (recv_loop-HasLength n fd n w)

  read_payload-Bounded :
      (fd size : ℕ) (h : PacketHeader) (w : W) → Bounded (read_payload net fd size h w).0
  unfolding read_payload
  read_payload-Bounded fd size h w =
      let n = h.length - tcp_header_size in
      if-holds (λ (r : Option PacketIn × W). Bounded r.0) (n == 0) _ _ (λ e. tt)
        (λ e.
          if-holds (λ (r : Option PacketIn × W). Bounded r.0) (ltb tcp_max_packet_size n) _ _
            (λ e. tt) (λ e. in_buffer-Bounded fd h (ensure_recv_buf net size n w) (ground arith)))

  after_parse-Bounded :
      (fd size : ℕ) (o : Option PacketHeader) (w : W) → Bounded (after_parse net fd size o w).0
  unfolding after_parse
  after_parse-Bounded fd size none w = tt
  after_parse-Bounded fd size (some h) w = read_payload-Bounded fd size h w

  after_header-Bounded :
      (fd size : ℕ) (r : Option (List ℕ) × W) → Bounded (after_header net fd size r).0
  unfolding after_header
  after_header-Bounded fd size (none, w) = tt
  after_header-Bounded fd size (some buf, w) =
      after_parse-Bounded fd size (parse_header (some buf)) w

  module _ {S : Type 0} (handle : PacketHeader → Option (List ℕ) → S → S) (P : S → Type 0)
      (keeps : (h : PacketHeader) (payload : Option (List ℕ)) (s : S)
        → IsBounded payload
        → P s
        → P (handle h payload s)) where
    on_packet-keeps :
        (next : ℕ → W → S → Bool × (W × S)) (s : S) (r : Option PacketIn × W)
        → Bounded r.0
        → P s
        → ((size : ℕ) (w : W) (s : S) → P s → P (next size w s).1.1)
        → P (on_packet net handle next s r).1.1
    unfolding on_packet
    on_packet-keeps next s (none, w) small v ih = v
    on_packet-keeps next s (some p, w) small v ih =
        ih p.recv_buf_size w (handle p.header p.payload s) (keeps p.header p.payload s small v)

    -- What every bounded packet keeps, the loop keeps.
    pub client_loop-keeps :
        (rounds fd size : ℕ) (w : W) (s : S)
        → P s
        → P (client_loop net handle rounds fd size w s).1.1
    unfolding client_loop read_packet
    client_loop-keeps zero fd size w s v = v
    client_loop-keeps (suc rounds) fd size w s v =
        if-holds (λ (r : Bool × (W × S)). P r.1.1) (net.is_running w) _ _
          (λ e.
            on_packet-keeps (client_loop net handle rounds fd) s (read_packet net fd size w)
              (after_header-Bounded fd size (recv_exact net fd tcp_header_size w)) v
              (client_loop-keeps rounds fd))
          (λ e. v)
