-- ===== src/Protocol/RoundTrip.antt =====
-- stream_server/src/protocol.c: what the header's reader and writer promise each other, and which
-- parts of a STREAM_START payload each version of it carries.
use myworkspace.Prelude.{
  ℕ, ◌<◌, ◌≤◌, ◌≡◌, ◌+◌, ◌-◌, ◌++◌, ◌⊎◌, ◌↔◌, List, [], ◌∷◌, some, arith, IsByte, IsU32, All,
}
use myworkspace.Protocol.{
  PacketHeader, StreamInfo, tcp_header_size, tcp_max_packet_size, max_streams, byte_at, be32, be16,
  put32, put16, parse_header, build_header, parse_stream_info,
}

-- Reading four bytes just written gives the word back.
pub be32-put32 : (v : ℕ) (rest : List ℕ) → IsU32 v → be32 (put32 v ++ rest) 0 ≡ v
unfolding be32 put32
be32-put32 v rest h = omega arith

-- A header that `protocol_build_header` writes, of a message type 1 to 4, a stream 1 to 256 and a
-- packet within the limit, is read back by `protocol_parse_header` field for field.
pub parse_header-build_header :
    (buf : List ℕ) (type stream_id payload_len : ℕ) (b : List ℕ)
    → 1 ≤ type
    → type ≤ 4
    → 1 ≤ stream_id
    → stream_id ≤ max_streams
    → tcp_header_size + payload_len ≤ tcp_max_packet_size
    → build_header (some buf) type stream_id payload_len ≡ some b
    → parse_header (some b)
      ≡ some (record { length = tcp_header_size + payload_len; type = type; stream_id = stream_id })
unfolding parse_header build_header be32 be16 put32 put16
parse_header-build_header buf type stream_id payload_len b t1 t2 s1 s2 fits e = ground arith

-- The other way: whenever seven bytes are accepted as a header, `protocol_build_header` called with
-- the header's fields writes those seven bytes again.
pub build_header-parse_header :
    (b0 b1 b2 b3 b4 b5 b6 : ℕ) (h : PacketHeader)
    → All IsByte (b0 ∷ b1 ∷ b2 ∷ b3 ∷ b4 ∷ b5 ∷ b6 ∷ [])
    → parse_header (some (b0 ∷ b1 ∷ b2 ∷ b3 ∷ b4 ∷ b5 ∷ b6 ∷ [])) ≡ some h
    → build_header
        (some (b0 ∷ b1 ∷ b2 ∷ b3 ∷ b4 ∷ b5 ∷ b6 ∷ []))
        h.type
        h.stream_id
        (h.length - tcp_header_size)
      ≡ some (b0 ∷ b1 ∷ b2 ∷ b3 ∷ b4 ∷ b5 ∷ b6 ∷ [])
unfolding parse_header build_header be32 be16 put32 put16
build_header-parse_header b0 b1 b2 b3 b4 b5 b6 h bytes e = ground arith

-- An accepted header has a length from 7 to the packet limit, a type from 1 to 4 and a stream from
-- 1 to 256, and a header whose fields are in those ranges is accepted.
pub parse_header_accepts :
    (buf : List ℕ) (h : PacketHeader)
    → (parse_header (some buf) ≡ some h) ↔ (
        (h ≡ record { length = be32 buf 0; type = byte_at buf 4; stream_id = be16 buf 5 })
        × (7 ≤ be32 buf 0)
        × (be32 buf 0 ≤ tcp_max_packet_size)
        × (1 ≤ byte_at buf 4)
        × (byte_at buf 4 ≤ 4)
        × (1 ≤ be16 buf 5)
        × (be16 buf 5 ≤ max_streams))
unfolding parse_header
parse_header_accepts buf h = ground arith

-- The payload versions are compatible: for any payload of at least 16 bytes, reading only its first
-- 16 gives the same width, height, frame rate and bit rate; below 32 bytes it gives the same
-- result, and from 32 bytes on reading only the first 32 gives all fields but the two on colour.
pub parse_stream_info_versions :
    (buf : List ℕ) (len : ℕ) (old mid new : StreamInfo)
    → parse_stream_info (some buf) 16 ≡ some old
    → parse_stream_info (some buf) 32 ≡ some mid
    → parse_stream_info (some buf) len ≡ some new
    → ((old.width ≡ new.width)
        × (old.height ≡ new.height)
        × (old.fps ≡ new.fps)
        × (old.bitrate ≡ new.bitrate))
      × (((len < 32) × (new ≡ old))
          ⊎ ((32 ≤ len) × (mid ≡ record new { color_space = 0; color_range = 0 })))
unfolding parse_stream_info
parse_stream_info_versions buf len old mid new eo em en = ground arith
