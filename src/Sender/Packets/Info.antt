-- ===== src/Sender/Packets/Info.antt =====
-- tcp_sender.c, `tcp_sender_send_stream_start`, against stream_server/src/protocol.c.
use myworkspace.Prelude.{ℕ, ◌≤◌, ◌≡◌, ◌*◌, ◌/◌, ◌%◌, ◌^◌, some, drop, arith, IsU32, ◌+◌}
use myworkspace.Protocol.{
  StreamInfo, stream_start, max_streams, be32, be16, put32, put16, parse_header, parse_stream_info,
}
use myworkspace.Sender.{TcpSenderConfig}
use myworkspace.Sender.Packets.{header_bytes, stream_start_payload, stream_start_packet}

-- The ten numbers of the stream fit in `uint32_t`.
pub record FitsU32 (c : TcpSenderConfig) : Type 0 where
  pub width : IsU32 c.width
  pub height : IsU32 c.height
  pub fps : IsU32 c.fps
  pub bitrate : IsU32 c.bitrate
  pub codec : IsU32 c.codec
  pub chroma : IsU32 c.chroma
  pub bitdepth : IsU32 c.bitdepth
  pub video_format : IsU32 c.video_format
  pub color_space : IsU32 c.color_space
  pub color_range : IsU32 c.color_range

abbrev pub info_of : TcpSenderConfig → StreamInfo
info_of c = record {
  width = c.width;
  height = c.height;
  fps = c.fps;
  bitrate = c.bitrate;
  codec = c.codec;
  chroma = c.chroma;
  bitdepth = c.bitdepth;
  video_format = c.video_format;
  color_space = c.color_space;
  color_range = c.color_range;
}

word :
    (v : ℕ)
    → IsU32 v
    → v / 2 ^ 24 % 256 * 2 ^ 24 + v / 2 ^ 16 % 256 * 2 ^ 16 + v / 2 ^ 8 % 256 * 2 ^ 8 + v % 256 ≡ v
word v h = omega arith

-- The STREAM_START message that the client sends for a stream 1 to 256 is accepted by the server's
-- header reader, with a payload of 40 bytes, and its stream information is read back as the ten
-- numbers of the client's configuration, where these are of 32 bits.
pub stream_start_packet-received :
    (c : TcpSenderConfig)
    → 1 ≤ c.stream_id
    → c.stream_id ≤ max_streams
    → FitsU32 c
    → (parse_header (some (stream_start_packet c))
        ≡ some (record { length = 47; type = stream_start; stream_id = c.stream_id }))
      × (parse_stream_info (some (drop 7 (stream_start_packet c))) 40 ≡ some (info_of c))
unfolding stream_start_packet header_bytes stream_start_payload put32 put16 parse_header
    parse_stream_info be32 be16
stream_start_packet-received c s1 s2 fits = (
  ground arith,
  rw (
    word c.width fits.width,
    word c.height fits.height,
    word c.fps fits.fps,
    word c.bitrate fits.bitrate,
    word c.codec fits.codec,
    word c.chroma fits.chroma,
    word c.bitdepth fits.bitdepth,
    word c.video_format fits.video_format,
    word c.color_space fits.color_space,
    word c.color_range fits.color_range,
  ),
)
