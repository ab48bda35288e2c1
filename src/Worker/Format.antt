-- ===== src/Worker/Format.antt =====
-- video_callbacks.c: the negotiated format, and the codes of an error.
use myworkspace.Prelude.{ℕ, Option, none, some, ◌==◌, if◌then◌else◌}
use myworkspace.Worker.{Worker, WorkerRenderConfig}

abbrev pub fatal_tcp_connect : ℕ
fatal_tcp_connect = 5

abbrev pub fatal_tcp_send : ℕ
fatal_tcp_send = 6

abbrev pub fatal_negotiation_mismatch : ℕ
fatal_negotiation_mismatch = 8

-- `negotiated_codec`, `negotiated_chroma` and `negotiated_bitdepth`.
pub record Negotiated : Type 0 where
  pub codec : ℕ
  pub chroma : ℕ
  pub bitdepth : ℕ

abbrev known : ℕ → ℕ → ℕ → Option Negotiated
known codec chroma bitdepth = some (record { codec = codec; chroma = chroma; bitdepth = bitdepth })

-- The formats of Limelight.h, H264 to AV1_HIGH10_444.
unfoldable pub video_format_to_stream_metadata : ℕ → Option Negotiated
video_format_to_stream_metadata format =
    if format == 1
    then known 0 0 8
    else if format == 4
    then known 0 1 8
    else if format == 256
    then known 1 0 8
    else if format == 512
    then known 1 0 10
    else if format == 1024
    then known 1 1 8
    else if format == 2048
    then known 1 1 10
    else if format == 4096
    then known 2 0 8
    else if format == 8192
    then known 2 0 10
    else if format == 16384
    then known 2 1 8
    else if format == 32768
    then known 2 1 10
    else none

note_fatal : ℕ → Option ℕ → Option ℕ
note_fatal code none = none
note_fatal code (some old) = if old == 0 then some code else some old

note_in : ℕ → Option WorkerRenderConfig → Option WorkerRenderConfig
unfolding note_fatal
note_in code none = none
note_in code (some cfg) = some (record cfg { fatal_code = note_fatal code cfg.fatal_code })

-- The first error is the one that is kept.
unfoldable pub set_fatal_once : Worker → ℕ → Worker
unfolding note_in note_fatal
set_fatal_once v code = record v { cfg = note_in code v.cfg }
