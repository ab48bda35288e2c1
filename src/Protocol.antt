-- ===== src/Protocol.antt =====
-- stream_server/src/protocol.c and the agent's reduced copy, strem_agent_server/src/tlv_protocol.c:
-- the seven byte header and the STREAM_START payload. A buffer is the list of its bytes; a null
-- pointer is `none`, and an out parameter is the returned value (callers drop it on -1).
pub mod RoundTrip
pub mod Agent
mod Tests
use myworkspace.Prelude.{
  ℕ, zero, suc, ◌+◌, ◌-◌, ◌*◌, ◌/◌, ◌%◌, ◌^◌, List, [], ◌∷◌, ◌++◌, Option, none, some, ltb, ◌==◌,
  ◌||◌, if◌then◌else◌, get_or, drop, add32,
}

abbrev pub video_data : ℕ
video_data = 1

abbrev pub heartbeat : ℕ
heartbeat = 2

abbrev pub stream_start : ℕ
stream_start = 3

abbrev pub stream_stop : ℕ
stream_stop = 4

abbrev pub tcp_header_size : ℕ
tcp_header_size = 7

abbrev pub tcp_max_packet_size : ℕ
tcp_max_packet_size = 10 * 1024 * 1024

abbrev pub max_streams : ℕ
max_streams = 256

abbrev pub default_max_streams : ℕ
default_max_streams = 20

pub record StreamInfo : Type 0 where
  pub width : ℕ
  pub height : ℕ
  pub fps : ℕ
  pub bitrate : ℕ
  pub codec : ℕ
  pub chroma : ℕ
  pub bitdepth : ℕ
  pub video_format : ℕ
  pub color_space : ℕ
  pub color_range : ℕ

pub record PacketHeader : Type 0 where
  pub length : ℕ
  pub type : ℕ
  pub stream_id : ℕ

-- `buf[i]`; the callers' guards keep `i` inside the buffer.
abbrev pub byte_at : List ℕ → ℕ → ℕ
byte_at buf i = get_or buf i 0

-- The shifted bytes share no bit, so `|` between them is a sum.
unfoldable pub be32 : List ℕ → ℕ → ℕ
be32 buf i =
    byte_at buf i * 2 ^ 24
    + byte_at buf (i + 1) * 2 ^ 16
    + byte_at buf (i + 2) * 2 ^ 8
    + byte_at buf (i + 3)

unfoldable pub be16 : List ℕ → ℕ → ℕ
be16 buf i = byte_at buf i * 2 ^ 8 + byte_at buf (i + 1)

-- The casts to `uint8_t` keep the low eight bits.
unfoldable pub put32 : ℕ → List ℕ
put32 v = v / 2 ^ 24 % 256 ∷ v / 2 ^ 16 % 256 ∷ v / 2 ^ 8 % 256 ∷ v % 256 ∷ []

unfoldable pub put16 : ℕ → List ℕ
put16 v = v / 2 ^ 8 % 256 ∷ v % 256 ∷ []

-- The three range checks at the end of `protocol_parse_header`.
unfoldable pub check_header : PacketHeader → Option PacketHeader
check_header h =
    if ltb h.length tcp_header_size || ltb tcp_max_packet_size h.length
    then none
    else if ltb h.type video_data || ltb stream_stop h.type
    then none
    else if h.stream_id == 0 || ltb max_streams h.stream_id
    then none
    else some h

unfoldable pub parse_header : Option (List ℕ) → Option PacketHeader
unfolding check_header
parse_header none = none
parse_header (some buf) =
    check_header (record { length = be32 buf 0; type = byte_at buf 4; stream_id = be16 buf 5 })

-- The fields that every payload carries; the rest as for a payload of 16 bytes.
unfoldable pub base_info : List ℕ → StreamInfo
base_info buf = record {
  width = be32 buf 0;
  height = be32 buf 4;
  fps = be32 buf 8;
  bitrate = be32 buf 12;
  codec = 0;
  chroma = 0;
  bitdepth = 8;
  video_format = 0;
  color_space = 0;
  color_range = 0;
}

unfoldable pub color_info : List ℕ → ℕ → StreamInfo → StreamInfo
color_info buf len info =
    if ltb len 40
    then record info { color_space = 0; color_range = 0 }
    else record info { color_space = be32 buf 32; color_range = be32 buf 36 }

unfoldable pub codec_info : List ℕ → ℕ → StreamInfo → StreamInfo
unfolding color_info
codec_info buf len info =
    if ltb len 32
    then info
    else color_info buf len (record info {
      codec = be32 buf 16;
      chroma = be32 buf 20;
      bitdepth = be32 buf 24;
      video_format = be32 buf 28;
    })

unfoldable pub parse_stream_info : Option (List ℕ) → ℕ → Option StreamInfo
unfolding codec_info base_info
parse_stream_info none len = none
parse_stream_info (some buf) len =
    if ltb len 16 then none else some (codec_info buf len (base_info buf))

-- Writes the first seven bytes of `buf`; `total_len` is a `uint32_t`.
unfoldable pub build_header : Option (List ℕ) → ℕ → ℕ → ℕ → Option (List ℕ)
build_header none type stream_id payload_len = none
build_header (some buf) type stream_id payload_len =
    some (put32 (add32 tcp_header_size payload_len) ++ (type ∷ put16 stream_id) ++ drop 7 buf)
