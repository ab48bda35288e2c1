-- ===== src/Recorder/Process.antt =====
-- compressed_recorder.c: what the writer thread does for each event.
pub mod Effects
pub mod Armed
pub mod Gate
pub mod Leak
use myworkspace.Prelude.{
  ℕ, zero, suc, ◌*◌, List, [], ◌∷◌, Option, none, some, Bool, true, false, not, ◌&&◌, ◌||◌, leb,
  ltb, ◌==◌, if◌then◌else◌, is_some, sub64,
}
use myworkspace.Recorder.{
  Recorder, RecorderStream, RecorderEvent, RecorderEventType, zero_stream, update, stream_start,
  video, stream_stop, periodic_idr_min_gap_ns,
}
use myworkspace.Recorder.Os
use myworkspace.Recorder.Os.{Os, Ctx, Reason}
use myworkspace.Recorder.Params.{params_ready, analyze_payload, is_empty}
use myworkspace.Recorder.Storage.{storage_available, skip_unmounted}
use myworkspace.Recorder.Paths.{codec_ext}
use myworkspace.Recorder.Idr.{request_idr, idr_request_recent, maybe_request_periodic_idr}
use myworkspace.Recorder.Segment.{
  close_segment, open_segment, write_param_sets, write_segment_packet, free_param_sets,
  reset_stream_file_state,
}

unfoldable pub codec_supported : ℕ → Bool
codec_supported codec = codec == 0 || codec == 1

unfoldable pub should_rollover : Recorder → RecorderStream → ℕ → Bool
should_rollover r s wall_ms =
    if not (is_some s.fp) || (r.segment_sec == 0 || s.segment_start_wall_ms == 0)
    then false
    else leb (r.segment_sec * 1000) (sub64 wall_ms s.segment_start_wall_ms)

abbrev pub has_stream : Recorder → ℕ → Bool
has_stream r stream_id = not (stream_id == 0 || ltb r.max_streams stream_id)

module _ {W : Type 0} (os : Os W) where
  abbrev pub wait_for_keyframe : Ctx W → Ctx W
  wait_for_keyframe c = record c { s = record c.s { waiting_keyframe = true } }

  -- The parameter sets and the first packet of a segment just opened; `||` skips the packet if the
  -- sets fail.
  unfoldable pub write_head : Ctx W → List ℕ → Bool × Ctx W
  write_head c d =
      let (sets, c1) = write_param_sets os c in
      if sets then write_segment_packet os c1 d else (false, c1)

  unfoldable pub begin_segment : Ctx W → List ℕ → Ctx W
  begin_segment c d =
      let (done, c1) = write_head c d in
      if done then c1 else wait_for_keyframe (close_segment os c1 false).1

  -- The branch under `if (s->waiting_keyframe)`.
  unfoldable pub video_waiting : Ctx W → RecorderEvent → Bool → Ctx W
  video_waiting c ev has_keyframe =
      if not has_keyframe || not (params_ready c.s)
      then request_idr os c
          (if params_ready c.s then Reason.record_wait_keyframe else Reason.record_wait_params)
          ev.mono_ns false
      else (let (opened, c1) = open_segment os c ev.wall_ms ev.mono_ns in
          if opened then begin_segment c1 ev.payload else c1)

  -- The branch that notices that the segment is long enough.
  unfoldable pub note_rollover : Ctx W → RecorderEvent → Bool → Ctx W
  note_rollover c ev has_keyframe =
      if not c.s.rollover_pending && should_rollover c.r c.s ev.wall_ms
      then (let c1 = record c { s = record c.s { rollover_pending = true } } in
          if (not has_keyframe || not (params_ready c1.s))
            && not (idr_request_recent c1.s ev.mono_ns periodic_idr_min_gap_ns)
          then request_idr os c1 Reason.record_rollover ev.mono_ns true
          else c1)
      else c

  -- Close the old segment and open the next with this packet.
  unfoldable pub roll_over : Ctx W → RecorderEvent → Ctx W
  roll_over c ev =
      let c1 = (close_segment os c true).1 in
      let (opened, c2) = open_segment os c1 ev.wall_ms ev.mono_ns in
      if opened then begin_segment c2 ev.payload else wait_for_keyframe c2

  -- The end of `process_video`: the packet goes to the open segment.
  unfoldable pub append_packet : Ctx W → RecorderEvent → Ctx W
  append_packet c ev =
      let c1 = maybe_request_periodic_idr os c ev.mono_ns in
      if not (is_some c1.s.fp)
      then c1
      else (let (done, c2) = write_segment_packet os c1 ev.payload in
          if done
          then c2
          else request_idr os (wait_for_keyframe (close_segment os c2 false).1)
              Reason.record_write_error ev.mono_ns true)

  unfoldable pub video_recording : Ctx W → RecorderEvent → Bool → Ctx W
  video_recording c ev has_keyframe =
      let c1 = note_rollover c ev has_keyframe in
      if not c1.s.rollover_pending
      then append_packet c1 ev
      else if has_keyframe && params_ready c1.s
      then roll_over c1 ev
      else append_packet
          (request_idr os c1
            (if params_ready c1.s
              then Reason.record_wait_rollover_keyframe
              else Reason.record_wait_rollover_params)
            ev.mono_ns false)
          ev

  -- Behind the checks on the event and the stream.
  unfoldable pub record_packet : Ctx W → RecorderEvent → Ctx W
  record_packet c ev =
      let (c1, has_keyframe) = analyze_payload os c ev.payload in
      let (available, c2) = storage_available os c1 ev.mono_ns in
      if not available
      then skip_unmounted c2 ev.mono_ns
      else if c2.s.waiting_keyframe
      then video_waiting c2 ev has_keyframe
      else video_recording c2 ev has_keyframe

  unfoldable pub video_on_stream : Ctx W → RecorderEvent → Ctx W
  video_on_stream c ev =
      if not c.s.active || (not c.s.enabled || not (codec_supported c.s.codec))
      then c
      else record_packet c ev

  unfoldable pub start_stream : Ctx W → RecorderEvent → Ctx W
  start_stream c ev =
      let c1 = (close_segment os c true).1 in
      let s = reset_stream_file_state (record zero_stream {
        stream_id = ev.stream_id;
        enabled = c1.r.enabled_streams ev.stream_id;
        codec = ev.info.codec;
        ext = codec_ext ev.info.codec;
      }) in
      if not s.enabled
      then record c1 { s = s }
      else if not (codec_supported s.codec)
      then record c1 { s = record s { enabled = false } }
      else request_idr os (record c1 { s = record s { active = true } }) Reason.record_start
          ev.mono_ns true

  unfoldable pub stop_stream : Ctx W → RecorderEvent → Ctx W
  stop_stream c ev = record (close_segment os c true).1 {
    s = record zero_stream { stream_id = ev.stream_id };
  }

  -- `s = &r->streams[id]`: the stream is taken out, worked on, and put back. Nothing else of the
  -- array is touched meanwhile.
  abbrev pub on_stream : W × Recorder → ℕ → (Ctx W → Ctx W) → W × Recorder
  on_stream (w, r) id f =
      let c = f (record { w = w; r = r; s = r.streams id }) in
      (c.w, record c.r { streams = update r.streams id c.s })

  unfoldable pub process_stream_start : W × Recorder → RecorderEvent → W × Recorder
  process_stream_start (w, r) ev =
      if has_stream r ev.stream_id
      then on_stream (w, r) ev.stream_id (λ c. start_stream c ev)
      else (w, r)

  unfoldable pub process_stream_stop : W × Recorder → RecorderEvent → W × Recorder
  process_stream_stop (w, r) ev =
      if has_stream r ev.stream_id
      then on_stream (w, r) ev.stream_id (λ c. stop_stream c ev)
      else (w, r)

  unfoldable pub process_video : W × Recorder → RecorderEvent → W × Recorder
  process_video (w, r) ev =
      if has_stream r ev.stream_id && not (is_empty ev.payload)
      then on_stream (w, r) ev.stream_id (λ c. video_on_stream c ev)
      else (w, r)

  -- The `switch` of `recorder_thread_main`.
  unfoldable pub dispatch : W × Recorder → RecorderEvent → RecorderEventType → W × Recorder
  dispatch st ev stream_start = process_stream_start st ev
  dispatch st ev video = process_video st ev
  dispatch st ev stream_stop = process_stream_stop st ev

  unfoldable pub process_event : W × Recorder → RecorderEvent → W × Recorder
  process_event st ev = dispatch st ev ev.type

  -- The events of the queue in turn.
  unfoldable pub process_events : W × Recorder → List RecorderEvent → W × Recorder
  process_events st [] = st
  process_events st (ev ∷ evs) = process_events (process_event st ev) evs
