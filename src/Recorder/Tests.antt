-- ===== src/Recorder/Tests.antt =====
-- A recorder over a disk of one file, with a stream it knows, for the runs of the modules below.
mod Writer
mod Calls
use mathlib.Core.List.{flatten}
use myworkspace.Prelude.{
  ℕ, zero, suc, ◌≡◌, ◌≢◌, ◌≤◌, ◌<◌, ◌⊎◌, ◌↔◌, inl, inr, refl, List, [], ◌∷◌, ◌++◌, Option, some,
  none, Bool, true, false, arith, ◌+◌, ◌-◌, ◌*◌, ◌%◌, ◌/◌, length, is_some, leb, add32,
}
use myworkspace.Recorder.{
  Recorder, RecorderStream, RecorderEvent, stream_start, video, stream_stop, zero_recorder,
  zero_stream, periodic_idr_min_gap_ns,
}
use myworkspace.Recorder.Os.{Os, Ctx, record_periodic, record_start, record_wait_params}
use myworkspace.Recorder.Nal.{
  find_start_code, find_loop, start_code_len_at, payload_has_start_code, trim_end,
}
use myworkspace.Recorder.Nal.Scan.{Found, find_start_code-Found, trim_end_lem}
use myworkspace.Recorder.Params.{
  analyze_payload, analyze_loop, analyze_unit, analyze_nal, analyze_h264, cache_param_set,
  params_ready,
}
use myworkspace.Recorder.Storage.{
  storage_available, skip_unmounted, path_is_under_mountpoint, note_mount_skip,
}
use myworkspace.Recorder.Storage.Mounted.{path_is_under_mountpoint_iff}
use myworkspace.Recorder.Paths.{
  format_segment_paths, mkdir_p, mkdir_from_second, mkdir_loop, drop_last_slash, name_files,
  segment_dir, segment_file, segment_tmp, format_02u,
}
use myworkspace.Recorder.Paths.Bounds.{format_segment_paths_fits}
use myworkspace.Recorder.Paths.Frame.{with_files}
use myworkspace.Recorder.Idr.{
  request_idr, backoff_ns, next_periodic, idr_interval_ns, periodic_idr_offset_ns, second_ns,
}
use myworkspace.Recorder.Idr.Backoff.{request_idr_gap}
use myworkspace.Recorder.Idr.Periodic.{next_periodic_lem}
use myworkspace.Recorder.Segment.{
  open_segment, write_all, write_payload_annexb, write_sets, sets_of, write_param_sets,
  write_segment_packet,
}
use myworkspace.Recorder.Segment.Files.{FileLaws, annexb, write_head-contents}
use myworkspace.Recorder.Process.{
  write_head, video_on_stream, record_packet, video_waiting, begin_segment, codec_supported,
  process_events,
}
use myworkspace.Recorder.Process.Armed.{IsArmed, process_events-AllArmed}
use myworkspace.Recorder.Process.Gate.{video_on_stream_opens_at_keyframe}
use myworkspace.Recorder.Process.Leak.{skip_unmounted_loses_file}
use myworkspace.Recorder.Queue.{zero_info, take_event, finished, request_stop}
use myworkspace.Recorder.Queue.Bounded.{QueueInv}
use myworkspace.Recorder.Queue.Fifo.{
  run, offer, take, stop, takes, run-fifo, run-QueueInv, request_stop-drains,
}
use myworkspace.Recorder.Config.{
  RecorderConfig, Scan, range, one, neither, parse_streams_spec, config_defaults, start_fresh,
  means_all, tokens,
}
use myworkspace.Recorder.Config.Streams.{any_selects, parse_streams_spec-eq}
use myworkspace.Recorder.Config.Start.{IsReady, start_fresh-IsReady}

-- A disk that holds one file, number 7; everything succeeds and the clock stands at 5 seconds.
abbrev pub disk : Os (List ℕ)
disk = record {
  malloc = λ n w. (true, w);
  now_monotonic_ns = λ w. (5_000_000_000, w);
  mounts = λ w. (none, w);
  mkdir = λ path w. (true, w);
  stamp = λ sec. b'2' ∷ b'0' ∷ [];
  fopen = λ path w. (some 7, []);
  fwrite = λ f d w. (true, w ++ d);
  fclose = λ f w. (true, w);
  rename = λ old new w. (true, w);
  unlink = λ path w. w;
  request_idr = λ id reason w. w;
}

pub disk-FileLaws : FileLaws disk (λ f w. w)
disk-FileLaws = record { fwrite_appends = λ f d w h. refl }

abbrev pub sps : List ℕ
sps = 0 ∷ 0 ∷ 0 ∷ 1 ∷ 0x67 ∷ 9 ∷ []

abbrev pub pps : List ℕ
pps = 0 ∷ 0 ∷ 0 ∷ 1 ∷ 0x68 ∷ 8 ∷ []

-- A keyframe with its parameter sets, with start codes of four and of three bytes.
abbrev pub keyframe : List ℕ
keyframe = sps ++ (pps ++ (0 ∷ 0 ∷ 1 ∷ 0x65 ∷ 4 ∷ []))

-- A recorder of four streams that records stream 1 and knows its parameter sets.
abbrev pub known : RecorderStream
known = record zero_stream {
  stream_id = 1;
  enabled = true;
  active = true;
  ext = b'h' ∷ [];
  waiting_keyframe = true;
  params = record { first = sps; second = pps; third = [] };
}

abbrev pub running : Recorder
running = record zero_recorder {
  configured = true;
  running = true;
  accepting = true;
  raw_dir = b'/' ∷ b'r' ∷ [];
  max_streams = 4;
  segment_sec = 60;
  idr_interval_sec = 30;
  queue_limit_bytes = 100;
  streams = λ i. known;
  has_request_idr = true;
}

abbrev pub ctx : Ctx (List ℕ)
ctx = record { w = []; r = running; s = known }

abbrev pub packet : List ℕ → RecorderEvent
packet d = record {
  type = video;
  stream_id = 1;
  wall_ms = 1000;
  mono_ns = 6_000_000_000;
  info = zero_info;
  payload = d;
}
