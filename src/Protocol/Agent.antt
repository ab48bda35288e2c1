-- ===== src/Protocol/Agent.antt =====
-- strem_agent_server/src/tlv_protocol.c: the agent's own reader of the same header, and what
-- separates it from the server's.
use myworkspace.Prelude.{
  ℕ, ◌≤◌, ◌≡◌, List, Option, none, some, ltb, ◌||◌, if◌then◌else◌, arith, ◌↔◌,
}
use myworkspace.Protocol.{PacketHeader, tcp_header_size, tcp_max_packet_size, byte_at, be32, be16}
use myworkspace.Protocol.{parse_header}

-- MAX_STREAMS of tlv_protocol.h.
abbrev pub agent_max_streams : ℕ
agent_max_streams = 20

unfoldable pub tlv_check : PacketHeader → Option PacketHeader
tlv_check h =
    if ltb h.length tcp_header_size
    then none
    else if ltb tcp_max_packet_size h.length
    then none
    else if ltb h.stream_id 1 || ltb agent_max_streams h.stream_id
    then none
    else some h

unfoldable pub tlv_parse_header : Option (List ℕ) → Option PacketHeader
unfolding tlv_check
tlv_parse_header none = none
tlv_parse_header (some buf) =
    tlv_check (record { length = be32 buf 0; type = byte_at buf 4; stream_id = be16 buf 5 })

-- On every header whose type is one of the four messages and whose stream is one of the agent's
-- twenty, the agent's reader and the server's give the same answer, a refusal included.
pub tlv_parse_header-eq-parse_header :
    (buf : List ℕ)
    → 1 ≤ byte_at buf 4
    → byte_at buf 4 ≤ 4
    → be16 buf 5 ≤ agent_max_streams
    → tlv_parse_header (some buf) ≡ parse_header (some buf)
unfolding tlv_parse_header parse_header
tlv_parse_header-eq-parse_header buf lo hi s = ground arith

-- The agent accepts exactly the headers whose length is between the header's own size and the
-- packet limit and whose stream is between 1 and 20, whatever the type byte says.
pub tlv_parse_header_accepts :
    (buf : List ℕ) (h : PacketHeader)
    → (tlv_parse_header (some buf) ≡ some h) ↔ (
        (h ≡ record { length = be32 buf 0; type = byte_at buf 4; stream_id = be16 buf 5 })
        × (7 ≤ be32 buf 0)
        × (be32 buf 0 ≤ tcp_max_packet_size)
        × (1 ≤ be16 buf 5)
        × (be16 buf 5 ≤ 20))
unfolding tlv_parse_header
tlv_parse_header_accepts buf h = ground arith
