-- ===== src/Recorder/Queue.antt =====
-- compressed_recorder.c: the bounded queue between the network threads and the writer thread, and the
-- calls that the server makes. Each function is one critical section. The clocks' values, and whether
-- `calloc` and `malloc` succeed, are arguments.
pub mod Bounded
pub mod Fifo
use myworkspace.Prelude.{
  ℕ, ◌+◌, List, [], ◌∷◌, ◌++◌, Option, none, some, Bool, true, false, not, ◌&&◌, ◌||◌, ltb,
  if◌then◌else◌, length, add64, sub64,
}
use myworkspace.Protocol.{StreamInfo}
use myworkspace.Recorder.{
  Recorder, RecorderEvent, RecorderEventType, stream_start, video, stream_stop, zero_recorder,
}
use myworkspace.Recorder.Params.{is_empty}

abbrev pub is_video : RecorderEventType → Bool
is_video stream_start = false
is_video video = true
is_video stream_stop = false

-- `ev->len`, which `calloc` leaves 0 in the other events.
abbrev pub event_len : RecorderEvent → ℕ
event_len ev = length ev.payload

abbrev pub zero_info : StreamInfo
zero_info = record {
  width = 0;
  height = 0;
  fps = 0;
  bitrate = 0;
  codec = 0;
  chroma = 0;
  bitdepth = 0;
  video_format = 0;
  color_space = 0;
  color_range = 0;
}

unfoldable pub is_enabled : Recorder → Bool
is_enabled r = r.configured && r.accepting

unfoldable pub drop_event : Recorder → RecorderEvent → Recorder
drop_event r ev = record r {
  dropped_packets = add64 r.dropped_packets 1;
  dropped_bytes = add64 r.dropped_bytes (event_len ev);
}

-- Put `ev` behind `tail`.
unfoldable pub append_event : Recorder → RecorderEvent → Recorder
append_event r ev = record r {
  queue = r.queue ++ (ev ∷ []);
  queued_events = add64 r.queued_events 1;
  queued_bytes = (if is_video ev.type then add64 r.queued_bytes (event_len ev) else r.queued_bytes);
}

unfoldable pub over_limit : Recorder → RecorderEvent → Bool
over_limit r ev = is_video ev.type && ltb r.queue_limit_bytes (add64 r.queued_bytes (event_len ev))

unfoldable pub enqueue_event : Recorder → RecorderEvent → Recorder
enqueue_event r ev =
    if not (is_enabled r) then r else if over_limit r ev then drop_event r ev else append_event r ev

unfoldable pub on_stream_start : Recorder → Bool → ℕ → Option StreamInfo → ℕ → ℕ → Recorder
on_stream_start r allocated stream_id none wall_ms mono_ns = r
on_stream_start r allocated stream_id (some info) wall_ms mono_ns =
    if not (is_enabled r) || not allocated
    then r
    else enqueue_event r (record {
      type = stream_start;
      stream_id = stream_id;
      wall_ms = wall_ms;
      mono_ns = mono_ns;
      info = info;
      payload = [];
    })

unfoldable pub on_video : Recorder → Bool → Bool → ℕ → Option (List ℕ) → ℕ → ℕ → Recorder
on_video r allocated copied stream_id none wall_ms mono_ns = r
on_video r allocated copied stream_id (some d) wall_ms mono_ns =
    if is_empty d || (not (is_enabled r) || not (allocated && copied))
    then r
    else enqueue_event r (record {
      type = video;
      stream_id = stream_id;
      wall_ms = wall_ms;
      mono_ns = mono_ns;
      info = zero_info;
      payload = d;
    })

unfoldable pub on_stream_stop : Recorder → Bool → ℕ → ℕ → ℕ → Recorder
on_stream_stop r allocated stream_id wall_ms mono_ns =
    if not (is_enabled r) || not allocated
    then r
    else enqueue_event r (record {
      type = stream_stop;
      stream_id = stream_id;
      wall_ms = wall_ms;
      mono_ns = mono_ns;
      info = zero_info;
      payload = [];
    })

-- What the writer thread finds under the lock: nothing yet, nothing any more, or an event.
pub data Taken : Type 0 where
  waiting : Taken
  finished : Taken
  taken : RecorderEvent → Recorder → Taken

unfoldable pub without_head : Recorder → RecorderEvent → List RecorderEvent → Recorder
without_head r ev rest = record r {
  queue = rest;
  queued_events = sub64 r.queued_events 1;
  queued_bytes = (if is_video ev.type then sub64 r.queued_bytes (event_len ev) else r.queued_bytes);
}

take_from : Recorder → List RecorderEvent → Taken
take_from r [] = if r.running then waiting else finished
take_from r (ev ∷ rest) = taken ev (without_head r ev rest)

unfoldable pub take_event : Recorder → Taken
unfolding take_from
take_event r = take_from r r.queue

unfoldable pub set_request_idr_callback : Recorder → Bool → Recorder
set_request_idr_callback r present =
    if r.configured then record r { has_request_idr = present } else r

-- `compressed_recorder_stop` up to the join; the writer thread then drains the queue and ends, and
-- the recorder is cleared.
unfoldable pub request_stop : Recorder → Recorder
request_stop r = if r.configured then record r { accepting = false; running = false } else r

unfoldable pub clear_after_join : Recorder → Recorder
clear_after_join r = if r.configured then zero_recorder else r
