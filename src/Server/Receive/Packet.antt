-- ===== src/Server/Receive/Packet.antt =====
-- server.c, `client_handler`: a packet that a client writes is read whole.
use myworkspace.Prelude.{
  ℕ, ◌+◌, ◌-◌, ◌≤◌, ◌≡◌, ◌++◌, List, [], length, Option, none, some, ◌==◌, ltb, Bool-cases, inl,
  inr, if◌then◌else◌, if-holds, arith, refl, sym, ap, subst, ◌∙◌, append_assoc, length-append,
  append-split, empty_lem,
}
use myworkspace.Protocol.{
  PacketHeader, tcp_header_size, tcp_max_packet_size, max_streams, parse_header, put32, put16, be32,
  be16,
}
use myworkspace.Sender.Packets.{header_bytes}
use myworkspace.Server.Receive.{
  ConnNet, PacketIn, recv_exact, ensure_recv_buf, read_payload, read_packet, grow_recv_buf,
  in_buffer, with_payload, after_parse, after_header,
}
use myworkspace.Server.Receive.Exact.{DeliversAll, Taken, recv_exact-Taken, recv_exact-end}

-- A packet as its sender means it.
pub record Packet : Type 0 where
  pub type : ℕ
  pub stream_id : ℕ
  pub payload : List ℕ

-- Its type is one of the four, its stream and its length are within the limits.
pub record IsSendable (p : Packet) : Type 0 where
  pub type_from : 1 ≤ p.type
  pub type_to : p.type ≤ 4
  pub stream_from : 1 ≤ p.stream_id
  pub stream_to : p.stream_id ≤ max_streams
  pub length_to : tcp_header_size + length p.payload ≤ tcp_max_packet_size

abbrev pub header_of : Packet → PacketHeader
header_of p = record {
  length = tcp_header_size + length p.payload;
  type = p.type;
  stream_id = p.stream_id;
}

-- An empty payload is handed on as NULL.
abbrev pub payload_of : Packet → Option (List ℕ)
payload_of p = if length p.payload == 0 then none else some p.payload

-- The bytes of a packet.
abbrev pub encode : Packet → List ℕ
encode p = header_bytes (tcp_header_size + length p.payload) p.type p.stream_id ++ p.payload

-- The header written for a packet is read as the packet's.
header_read :
    (p : Packet)
    → IsSendable p
    → let bytes = header_bytes (tcp_header_size + length p.payload) p.type p.stream_id in
      (length bytes ≡ 7) × (parse_header (some bytes) ≡ some (header_of p))
unfolding header_bytes put32 put16 parse_header be32 be16
header_read p h = ground arith

-- A packet has been read off the front.
pub record Read (p : Packet) (rest after : List ℕ) (result : Option PacketIn) : Type 0 where
  pub packet : PacketIn
  pub whole : result ≡ some packet
  pub header : packet.header ≡ header_of p
  pub payload : packet.payload ≡ payload_of p
  pub left : after ≡ rest

module _ {W : Type 0} {net : ConnNet W} {incoming : ℕ → W → List ℕ}
    (laws : DeliversAll net incoming) where
  ensure_recv_buf-Taken :
      (fd size n : ℕ) (w : W)
      → let (room, w1) = ensure_recv_buf net size n w in
        ((size1 : ℕ) × (room ≡ some size1)) × (incoming fd w1 ≡ incoming fd w)
  unfolding ensure_recv_buf
  ensure_recv_buf-Taken fd size n w =
      let new_size = grow_recv_buf 64 n size size in
      elim (Bool-cases (ltb size n)) [
        | inl e ↦ (
          (new_size, ground (arith, laws.memory new_size w)),
          ground (arith, laws.quiet fd new_size w),
        )
        | inr e ↦ ((size, ground arith), ground arith)
      ]

  with_payload-Read :
      (p : Packet) (rest : List ℕ) (size n fd : ℕ) (before : List ℕ) (r : Option (List ℕ) × W)
      → n ≡ length p.payload
      → 1 ≤ length p.payload
      → before ≡ p.payload ++ rest
      → Taken n before (incoming fd r.1) r.0
      → let out = with_payload net (header_of p) size r in Read p rest (incoming fd out.1) out.0
  unfolding with_payload
  with_payload-Read p rest size n fd before (none, w) en some_bytes split h =
      absurd (ground (arith, h.whole))
  with_payload-Read p rest size n fd before (some d, w) en some_bytes split h =
      let (same, left) =
        append-split h.front p.payload (incoming fd w) rest (omega (arith, h.count))
          (sym h.split ∙ split) in
      record {
        packet = record { header = header_of p; payload = some d; recv_buf_size = size };
        whole = refl;
        header = refl;
        payload = ground (arith, h.whole, same);
        left = left;
      }

  in_buffer-Read :
      (p : Packet) (rest : List ℕ) (fd : ℕ) (room : Option ℕ × W)
      → 1 ≤ length p.payload
      → ((size : ℕ) × (room.0 ≡ some size))
      → incoming fd room.1 ≡ p.payload ++ rest
      → let out = in_buffer net fd (header_of p) room in Read p rest (incoming fd out.1) out.0
  unfolding in_buffer
  in_buffer-Read p rest fd (none, w) some_bytes (size, e) split = absurd (ground arith)
  in_buffer-Read p rest fd (some size, w) some_bytes e split =
      let n = (header_of p).length - tcp_header_size in
      with_payload-Read p rest size n fd (incoming fd w) (recv_exact net fd n w) (omega arith)
        some_bytes split
        (recv_exact-Taken laws fd n w
          (omega (arith, ap length split, length-append p.payload rest)))

  read_payload-Read :
      (p : Packet) (rest : List ℕ) (fd size : ℕ) (w : W)
      → IsSendable p
      → incoming fd w ≡ p.payload ++ rest
      → let out = read_payload net fd size (header_of p) w in Read p rest (incoming fd out.1) out.0
  unfolding read_payload
  read_payload-Read p rest fd size w ok split =
      let n = (header_of p).length - tcp_header_size in
      if-holds (λ (r : Option PacketIn × W). Read p rest (incoming fd r.1) r.0) (n == 0) _ _
        (λ e. record {
          packet = record { header = header_of p; payload = none; recv_buf_size = size };
          whole = refl;
          header = refl;
          payload = ground arith;
          left = split ∙ ap (λ xs. xs ++ rest) (empty_lem p.payload (ground arith));
        })
        (λ e.
          if-holds (λ (r : Option PacketIn × W). Read p rest (incoming fd r.1) r.0)
            (ltb tcp_max_packet_size n) _ _ (λ big. absurd (ground (arith, ok)))
            (λ small.
              let (room, quiet) = ensure_recv_buf-Taken fd size n w in
              in_buffer-Read p rest fd (ensure_recv_buf net size n w) (ground arith) room
                (quiet ∙ split)))

  after_header-Read :
      (p : Packet) (rest : List ℕ) (fd size : ℕ) (before : List ℕ) (r : Option (List ℕ) × W)
      → IsSendable p
      → before ≡ encode p ++ rest
      → Taken 7 before (incoming fd r.1) r.0
      → let out = after_header net fd size r in Read p rest (incoming fd out.1) out.0
  unfolding after_header after_parse
  after_header-Read p rest fd size before (none, w) ok split h = absurd (ground (arith, h.whole))
  after_header-Read p rest fd size before (some buf, w) ok split h =
      let bytes = header_bytes (tcp_header_size + length p.payload) p.type p.stream_id in
      let (seven, parsed) = header_read p ok in
      let (same, left) =
        append-split h.front bytes (incoming fd w) (p.payload ++ rest)
          (omega (arith, h.count, seven))
          (sym h.split ∙ (split ∙ append_assoc bytes p.payload rest)) in
      subst (λ o. let out = after_parse net fd size o w in Read p rest (incoming fd out.1) out.0)
        (sym (ap parse_header (h.whole ∙ ap some same) ∙ parsed))
        (read_payload-Read p rest fd size w ok left)

  -- The next packet is read whole.
  pub read_packet-Read :
      (p : Packet) (rest : List ℕ) (fd size : ℕ) (w : W)
      → IsSendable p
      → incoming fd w ≡ encode p ++ rest
      → let out = read_packet net fd size w in Read p rest (incoming fd out.1) out.0
  unfolding read_packet
  read_packet-Read p rest fd size w ok split =
      let bytes = header_bytes (tcp_header_size + length p.payload) p.type p.stream_id in
      after_header-Read p rest fd size (incoming fd w) (recv_exact net fd tcp_header_size w) ok
        split
        (recv_exact-Taken laws fd tcp_header_size w (
          omega (
            arith,
            ap length (split ∙ append_assoc bytes p.payload rest),
            length-append bytes (p.payload ++ rest),
            header_read p ok,
          )))

  pub read_packet-end :
      (fd size : ℕ) (w : W) → incoming fd w ≡ [] → (read_packet net fd size w).0 ≡ none
  unfolding read_packet after_header
  read_packet-end fd size w nothing =
      ground (arith, recv_exact-end laws fd tcp_header_size w (omega arith) nothing)
