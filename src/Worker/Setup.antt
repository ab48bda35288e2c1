-- ===== src/Worker/Setup.antt =====
-- video_callbacks.c: `worker_setup` and `worker_cleanup`.
pub mod Negotiation
use myworkspace.Prelude.{
  ℕ, ◌+◌, List, [], ◌∷◌, Option, none, some, Bool, true, false, not, ◌==◌, ◌&&◌, if◌then◌else◌,
}
use myworkspace.Sender.{TcpSender, TcpSenderConfig}
use myworkspace.Sender.Net.{Net}
use myworkspace.Sender.Connect.{init, connect, destroy}
use myworkspace.Worker.{Worker, WorkerRenderConfig}
use myworkspace.Worker.Format.{
  Negotiated, video_format_to_stream_metadata, set_fatal_once, fatal_negotiation_mismatch,
  fatal_tcp_connect,
}

abbrev pub or_default : ℕ → ℕ → ℕ
or_default n d = if n == 0 then d else n

abbrev pub host_or_local : List ℕ → List ℕ
host_or_local [] = b'1' ∷ b'2' ∷ b'7' ∷ b'.' ∷ b'0' ∷ b'.' ∷ b'0' ∷ b'.' ∷ b'1' ∷ []
host_or_local (c ∷ cs) = c ∷ cs

unfoldable pub sender_config : WorkerRenderConfig → ℕ → ℕ → ℕ → Negotiated → TcpSenderConfig
sender_config cfg format width height n = record {
  host = host_or_local cfg.tcp_host;
  port = or_default cfg.tcp_port 9000;
  stream_id = or_default cfg.stream_id 1;
  width = width;
  height = height;
  fps = or_default cfg.fps 60;
  bitrate = or_default cfg.bitrate 10000;
  codec = n.codec;
  chroma = n.chroma;
  bitdepth = n.bitdepth;
  video_format = format;
  color_space = cfg.color_space;
  color_range = cfg.color_range;
}

unfoldable pub save_negotiated : WorkerRenderConfig → ℕ → ℕ → ℕ → Negotiated → WorkerRenderConfig
save_negotiated cfg format width height n = record cfg {
  width = width;
  height = height;
  video_format = format;
  codec = n.codec;
  chroma = n.chroma;
  bitdepth = n.bitdepth;
}

abbrev pub is_requested : WorkerRenderConfig → Negotiated → Bool
is_requested cfg n = cfg.codec == n.codec && (cfg.chroma == n.chroma && cfg.bitdepth == n.bitdepth)

module _ {W : Type 0} (net : Net W) (rounds : ℕ) where
  start_stats : Worker → W → Bool × (Worker × W)
  start_stats v w =
      let (now, w1) = net.now_monotonic_ns w in
      (
        true,
        (
          record v {
            stats_last_ns = now;
            stats_frames_received = 0;
            stats_frames_sent = 0;
            stats_bytes_sent = 0;
            last_reconnect_ns = 0;
          },
          w1,
        ),
      )

  -- A connection that fails is made later.
  after_init : Worker → Bool × (TcpSender × W) → Bool × (Worker × W)
  unfolding start_stats
  after_init v (false, (s, w)) =
      (false, (set_fatal_once (record v { tcp_sender = s }) fatal_tcp_connect, w))
  after_init v (true, (s, w)) =
      let (s1, w1) = (connect net rounds s w).1 in
      start_stats (record v { tcp_sender = s1; tcp_initialized = true }) w1

  setup_as : Worker → WorkerRenderConfig → ℕ → ℕ → ℕ → Option Negotiated → W → Bool × (Worker × W)
  unfolding after_init
  setup_as v cfg format width height none w =
      (false, (set_fatal_once v fatal_negotiation_mismatch, w))
  setup_as v cfg format width height (some n) w =
      if not (is_requested cfg n)
      then (false, (set_fatal_once v fatal_negotiation_mismatch, w))
      else after_init (record v { cfg = some (save_negotiated cfg format width height n) })
          (init net v.tcp_sender (sender_config cfg format width height n) w)

  unfoldable pub worker_setup :
      Worker → Option WorkerRenderConfig → ℕ → ℕ → ℕ → W → Bool × (Worker × W)
  unfolding setup_as
  worker_setup v none format width height w = (false, (record v { cfg = none }, w))
  worker_setup v (some cfg) format width height w =
      setup_as (record v { cfg = some cfg }) cfg format width height
        (video_format_to_stream_metadata format) w

  unfoldable pub worker_cleanup : Worker → W → Worker × W
  worker_cleanup v w =
      let (s, w1) =
        if v.tcp_initialized then destroy net rounds v.tcp_sender w else (v.tcp_sender, w) in
      (
        record v { tcp_sender = s; tcp_initialized = false; frame_buffer_size = 0; cfg = none },
        net.free w1,
      )
