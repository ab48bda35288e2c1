-- ===== src/Decode.antt =====
-- stream_server/src/decoder.c: what the decoder does around FFmpeg.
pub mod Device
mod Tests
