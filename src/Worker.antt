-- ===== src/Worker.antt =====
-- src/video_callbacks.c of the client: the callbacks that Moonlight calls with the negotiated format and
-- with each encoded frame. The file's globals are one record. A C `int` that the code takes as a size is
-- a number, with 0 for a negative one, which the code treats alike.
pub mod Format
pub mod Frame
pub mod Setup
pub mod Submit
mod Tests
use myworkspace.Prelude.{ℕ, ◌*◌, List, Option, none, Bool, false}
use myworkspace.Sender.{TcpSender, zero_sender}

-- `fatal_code` is the number behind the pointer, `none` where that is NULL.
pub record WorkerRenderConfig : Type 0 where
  pub tcp_host : List ℕ
  pub tcp_port : ℕ
  pub stream_id : ℕ
  pub width : ℕ
  pub height : ℕ
  pub fps : ℕ
  pub bitrate : ℕ
  pub video_format : ℕ
  pub codec : ℕ
  pub chroma : ℕ
  pub bitdepth : ℕ
  pub color_space : ℕ
  pub color_range : ℕ
  pub fatal_code : Option ℕ

pub record Worker : Type 0 where
  pub tcp_sender : TcpSender
  pub tcp_initialized : Bool
  pub cfg : Option WorkerRenderConfig
  pub frame_buffer_size : ℕ
  pub stats_last_ns : ℕ
  pub stats_frames_received : ℕ
  pub stats_frames_sent : ℕ
  pub stats_bytes_sent : ℕ
  pub stats_total_delay_ns : ℕ
  pub stats_max_delay_ns : ℕ
  pub stats_delay_samples : ℕ
  pub last_reconnect_ns : ℕ

abbrev pub zero_worker : Worker
zero_worker = record {
  tcp_sender = zero_sender;
  tcp_initialized = false;
  cfg = none;
  frame_buffer_size = 0;
  stats_last_ns = 0;
  stats_frames_received = 0;
  stats_frames_sent = 0;
  stats_bytes_sent = 0;
  stats_total_delay_ns = 0;
  stats_max_delay_ns = 0;
  stats_delay_samples = 0;
  last_reconnect_ns = 0;
}

-- `DECODE_UNIT`: its length and the pieces of its list.
pub record DecodeUnit : Type 0 where
  pub full_length : ℕ
  pub buffer_list : List (List ℕ)

abbrev pub heartbeat_interval_ns : ℕ
heartbeat_interval_ns = 5 * (1000 * 1000 * 1000)

abbrev pub reconnect_interval_ns : ℕ
reconnect_interval_ns = 3 * (1000 * 1000 * 1000)
