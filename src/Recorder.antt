-- ===== src/Recorder.antt =====
-- stream_server/src/compressed_recorder.c: the state of the recorder and of one recorded stream.
-- A `FILE*` is a handle, `fp == NULL` is `none`; a path is its bytes, the empty string is `[]`. A
-- parameter set is its bytes with the start code, `[]` where `data` is NULL and `len` is 0 (the code
-- sets the two together). The mutex, the condition variable and the log lines are left out: each
-- function here is one critical section or runs on the writer thread alone.
pub mod Os
pub mod Nal
pub mod Params
pub mod Storage
pub mod Paths
pub mod Idr
pub mod Segment
pub mod Process
pub mod Queue
pub mod Config
mod Tests
use myworkspace.Prelude.{ℕ, Bool, false, List, [], ◌∷◌, Option, none, ◌*◌, ◌==◌, if◌then◌else◌}
use myworkspace.Protocol.{StreamInfo}

abbrev pub path_max : ℕ
path_max = 4096

abbrev pub param_set_limit : ℕ
param_set_limit = 1024 * 1024

abbrev pub periodic_idr_min_gap_ns : ℕ
periodic_idr_min_gap_ns = 2 * 1000 * 1000 * 1000

abbrev pub nfs_mount_check_interval_ns : ℕ
nfs_mount_check_interval_ns = 1000 * 1000 * 1000

abbrev pub nfs_mount_log_interval_ns : ℕ
nfs_mount_log_interval_ns = 10 * 1000 * 1000 * 1000

abbrev pub start_code4 : List ℕ
start_code4 = 0 ∷ 0 ∷ 0 ∷ 1 ∷ []

pub data RecorderEventType : Type 0 where
  stream_start video stream_stop : RecorderEventType

pub record RecorderEvent : Type 0 where
  pub type : RecorderEventType
  pub stream_id : ℕ
  pub wall_ms : ℕ
  pub mono_ns : ℕ
  pub info : StreamInfo
  pub payload : List ℕ

-- `params[3]`: SPS and PPS for H.264, VPS, SPS and PPS for HEVC.
pub record ParamSets : Type 0 where
  pub first : List ℕ
  pub second : List ℕ
  pub third : List ℕ

abbrev pub no_params : ParamSets
no_params = record { first = []; second = []; third = [] }

pub record RecorderStream : Type 0 where
  pub stream_id : ℕ
  pub enabled : Bool
  pub active : Bool
  pub codec : ℕ
  pub ext : List ℕ
  pub waiting_keyframe : Bool
  pub rollover_pending : Bool
  pub fp : Option ℕ
  pub tmp_path : List ℕ
  pub final_path : List ℕ
  pub segment_start_wall_ms : ℕ
  pub segment_start_mono_ns : ℕ
  pub bytes_written : ℕ
  pub packets_written : ℕ
  pub params : ParamSets
  pub last_idr_request_ns : ℕ
  pub next_periodic_idr_ns : ℕ
  pub idr_request_count : ℕ

-- `memset(s, 0, sizeof(*s))`
abbrev pub zero_stream : RecorderStream
zero_stream = record {
  stream_id = 0;
  enabled = false;
  active = false;
  codec = 0;
  ext = [];
  waiting_keyframe = false;
  rollover_pending = false;
  fp = none;
  tmp_path = [];
  final_path = [];
  segment_start_wall_ms = 0;
  segment_start_mono_ns = 0;
  bytes_written = 0;
  packets_written = 0;
  params = no_params;
  last_idr_request_ns = 0;
  next_periodic_idr_ns = 0;
  idr_request_count = 0;
}

-- The linked list from `head` to `tail` is the list of its events. `has_request_idr` says whether
-- the callback pointer is set.
pub record Recorder : Type 0 where
  pub configured : Bool
  pub running : Bool
  pub accepting : Bool
  pub record_dir : List ℕ
  pub raw_dir : List ℕ
  pub max_streams : ℕ
  pub segment_sec : ℕ
  pub idr_interval_sec : ℕ
  pub queue_limit_bytes : ℕ
  pub require_nfs_mount : Bool
  pub nfs_mounted : Bool
  pub last_mount_check_ns : ℕ
  pub last_mount_log_ns : ℕ
  pub enabled_streams : ℕ → Bool
  pub streams : ℕ → RecorderStream
  pub queue : List RecorderEvent
  pub queued_bytes : ℕ
  pub queued_events : ℕ
  pub dropped_packets : ℕ
  pub dropped_bytes : ℕ
  pub mount_skipped_packets : ℕ
  pub write_errors : ℕ
  pub segments_closed : ℕ
  pub has_request_idr : Bool

-- `memset(&g_recorder, 0, sizeof(g_recorder))`
abbrev pub zero_recorder : Recorder
zero_recorder = record {
  configured = false;
  running = false;
  accepting = false;
  record_dir = [];
  raw_dir = [];
  max_streams = 0;
  segment_sec = 0;
  idr_interval_sec = 0;
  queue_limit_bytes = 0;
  require_nfs_mount = false;
  nfs_mounted = false;
  last_mount_check_ns = 0;
  last_mount_log_ns = 0;
  enabled_streams = λ i. false;
  streams = λ i. zero_stream;
  queue = [];
  queued_bytes = 0;
  queued_events = 0;
  dropped_packets = 0;
  dropped_bytes = 0;
  mount_skipped_packets = 0;
  write_errors = 0;
  segments_closed = 0;
  has_request_idr = false;
}

-- A write to one element of an array.
abbrev pub update {ℓ} : {A : Type ℓ} → (ℕ → A) → ℕ → A → ℕ → A
update f i v j = if i == j then v else f j
