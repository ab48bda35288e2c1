-- ===== src/Stream.antt =====
-- stream_server/src/stream.c and include/stream.h: the streams of the server. A pointer that may be NULL
-- is an Option, a decoder and a decoded frame are handles, `streams[id - 1]` is the value of `streams`
-- at `id`. `stream->lock` and `mgr->lock` are held for each operation as in the code; the statistics in
-- floating point (frame rates and average times) are left out.
pub mod Env
pub mod Route
pub mod Decoder
pub mod Table
pub mod Stress
pub mod Shutdown
use myworkspace.Prelude.{ℕ, Bool, false, List, [], Option, none}
use myworkspace.Protocol.{StreamInfo}

pub data StreamState : Type 0 where
  idle connecting active error : StreamState

-- `DecodeBackend` of decoder.h.
pub data DecodeBackend : Type 0 where
  auto intel_va nvidia cpu : DecodeBackend

pub record StreamDecodeStats : Type 0 where
  pub frames_decoded : ℕ
  pub frames_dropped : ℕ
  pub last_fps_calc_time : ℕ
  pub last_frames_decoded : ℕ

pub record StreamContext : Type 0 where
  pub stream_id : ℕ
  pub state : StreamState
  pub info : StreamInfo
  pub info_received : Bool
  pub frames_received : ℕ
  pub bytes_received : ℕ
  pub packets_received : ℕ
  pub connect_time : ℕ
  pub last_frame_time : ℕ
  pub decoder_ctx : Option ℕ
  pub decode_stats : StreamDecodeStats
  pub decoder_initialized : Bool
  pub last_frame : Option ℕ
  pub last_idr_request_ns : ℕ
  pub watchdog_last_received : ℕ
  pub watchdog_last_decoded : ℕ
  pub watchdog_last_decoded_change_ns : ℕ
  pub decode_stall_last_idr_ns : ℕ
  pub decode_stall_count : ℕ

-- What waits for one decoding thread.
pub record StressQueue : Type 0 where
  pub stream_id : ℕ
  pub queue_data : List ℕ
  pub capacity : ℕ
  pub ready : Bool

pub record StressTestConfig : Type 0 where
  pub enabled : Bool
  pub source_stream_id : ℕ
  pub queues : List StressQueue
  pub backend : DecodeBackend
  pub start_time : ℕ
  pub end_time : ℕ
  pub threads_running : Bool

pub record StreamManager : Type 0 where
  pub streams : ℕ → StreamContext
  pub max_streams : ℕ
  pub stress_test : StressTestConfig

abbrev pub zero_info : StreamInfo
zero_info = record {
  width = 0;
  height = 0;
  fps = 0;
  bitrate = 0;
  codec = 0;
  chroma = 0;
  bitdepth = 0;
  video_format = 0;
  color_space = 0;
  color_range = 0;
}

abbrev pub zero_decode_stats : StreamDecodeStats
zero_decode_stats = record {
  frames_decoded = 0;
  frames_dropped = 0;
  last_fps_calc_time = 0;
  last_frames_decoded = 0;
}

abbrev pub zero_stress_test : StressTestConfig
zero_stress_test = record {
  enabled = false;
  source_stream_id = 0;
  queues = [];
  backend = auto;
  start_time = 0;
  end_time = 0;
  threads_running = false;
}

-- A stream of a table just initialised.
abbrev pub new_stream : ℕ → StreamContext
new_stream id = record {
  stream_id = id;
  state = idle;
  info = zero_info;
  info_received = false;
  frames_received = 0;
  bytes_received = 0;
  packets_received = 0;
  connect_time = 0;
  last_frame_time = 0;
  decoder_ctx = none;
  decode_stats = zero_decode_stats;
  decoder_initialized = false;
  last_frame = none;
  last_idr_request_ns = 0;
  watchdog_last_received = 0;
  watchdog_last_decoded = 0;
  watchdog_last_decoded_change_ns = 0;
  decode_stall_last_idr_ns = 0;
  decode_stall_count = 0;
}
