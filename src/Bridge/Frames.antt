-- ===== src/Bridge/Frames.antt =====
-- stream_server/src/zmq_bridge.c: the converted frames with their reference counts, the cache of the
-- newest one of each stream, and what a request does with them. A frame is named by a number and `refs`
-- is its count, 0 where it is not allocated or freed; reading, retaining or freeing such a one is a fault. The decoder's
-- conversion, the clock, the allocations and ZeroMQ are what an attempt or a request is given.
pub mod Counts
pub mod Serves
pub mod Replies
use myworkspace.Prelude.{
  ℕ, zero, suc, ◌+◌, ◌-◌, ◌*◌, ◌%◌, ◌^◌, List, [], ◌∷◌, Option, none, some, Bool, true, false, not,
  ◌&&◌, ◌||◌, ◌==◌, ltb, if◌then◌else◌,
}
use myworkspace.Prelude.Int.{ℤ, leb_ℤ}
use myworkspace.Recorder.{update}
use myworkspace.Bridge.{BgrFrame, RoiRequest, ResolvedRoi, resolve_bgr_roi}
use myworkspace.Bridge.Crop.{Crop, cropped, refused, overrun, crop_bgr_frame}

-- `sent` counts the messages of a frame that ZeroMQ has and has not let go of.
pub record Frames : Type 0 where
  pub refs : ℕ → ℕ
  pub frames : ℕ → BgrFrame
  pub next : ℕ
  pub cache : ℕ → Option ℕ
  pub cache_count : ℕ
  pub sent : ℕ → ℕ
  pub faulted : Bool

unfoldable pub free_bgr_frame : ℕ → Frames → Frames
free_bgr_frame id s =
    if s.refs id == 0
    then record s { faulted = true }
    else record s { refs = update s.refs id (s.refs id - 1) }

-- `atomic_uint` has 32 bits.
unfoldable pub retain_bgr_frame : ℕ → Frames → Frames
retain_bgr_frame id s =
    if s.refs id == 0
    then record s { faulted = true }
    else record s { refs = update s.refs id ((s.refs id + 1) % 2 ^ 32) }

-- The fields or the buffer of a frame are read.
unfoldable pub use_bgr_frame : ℕ → Frames → Frames
use_bgr_frame id s = if s.refs id == 0 then record s { faulted = true } else s

-- A new frame, its one reference the caller's: it has the number `s.next`.
unfoldable pub new_frame : BgrFrame → Frames → Frames
new_frame f s = record s {
  refs = update s.refs s.next 1;
  frames = update s.frames s.next f;
  next = s.next + 1;
}

-- The decoded frame that a stream has last, with the colours that its information tells.
pub record Snapshot : Type 0 where
  pub stream_id : ℕ
  pub width : ℕ
  pub height : ℕ
  pub pts : ℤ
  pub key_frame : Bool
  pub color_space : ℕ
  pub color_range : ℕ
  pub format : ℕ

-- What the conversion gives; the buffer may be missing.
pub record Converted : Type 0 where
  pub width : ℕ
  pub height : ℕ
  pub stride : ℕ
  pub pts : ℤ
  pub key_frame : Bool
  pub bgr : Option (List ℕ)

-- What one attempt meets: the stream's last frame, of a size above 0 where it counts, and how the
-- calls of it end.
pub record Attempt : Type 0 where
  pub last : Option Snapshot
  pub has_ref : Bool
  pub converted : Option Converted
  pub has_frame : Bool
  pub now : ℕ

unfoldable pub same_flag : Bool → Bool → Bool
same_flag true b = b
same_flag false b = not b

unfoldable pub cached_bgr_frame_matches : BgrFrame → Snapshot → Bool
unfolding same_flag
cached_bgr_frame_matches f a =
    f.stream_id == a.stream_id
    && f.width == a.width
    && f.height == a.height
    && (leb_ℤ f.pts a.pts && leb_ℤ a.pts f.pts)
    && same_flag f.key_frame a.key_frame
    && f.color_space == a.color_space
    && f.color_range == a.color_range
    && f.source_format == a.format

unfoldable pub bgr_frame : Snapshot → Converted → List ℕ → ℕ → BgrFrame
bgr_frame a c bytes now = record {
  stream_id = a.stream_id;
  width = c.width;
  height = c.height;
  stride = c.stride;
  source_width = c.width;
  source_height = c.height;
  roi_x = 0;
  roi_y = 0;
  pts = c.pts;
  key_frame = c.key_frame;
  mono_ns = now;
  color_space = a.color_space;
  color_range = a.color_range;
  source_format = a.format;
  bgr = bytes;
}

unfoldable pub free_old : Option ℕ → Frames → Frames
unfolding free_bgr_frame
free_old none s = s
free_old (some old) s = free_bgr_frame old s

-- The newest frame takes the place of the one in the cache.
unfoldable pub keep_in_cache : ℕ → ℕ → Frames → Frames
unfolding retain_bgr_frame free_old
keep_in_cache sid id s =
    free_old (s.cache sid) (retain_bgr_frame id (record s { cache = update s.cache sid (some id) }))

unfoldable pub keep_converted : ℕ → BgrFrame → Frames → Option ℕ × Frames
unfolding new_frame keep_in_cache
keep_converted sid f s =
    let s1 = new_frame f s in
    (some s.next, if ltb sid s.cache_count then keep_in_cache sid s.next s1 else s1)

unfoldable pub convert : Snapshot → Attempt → Frames → Option ℕ × Frames
unfolding bgr_frame keep_converted
convert a t s = elim t.converted [
  | none ↦ (none, s)
  | some c ↦ if not t.has_frame then (none, s) else elim c.bgr [
    | none ↦ (none, s)
    | some bytes ↦ keep_converted a.stream_id (bgr_frame a c bytes t.now) s
  ]
]

-- The frame in the cache where it is the one that the stream has last.
unfoldable pub cached : Snapshot → Frames → Option ℕ
unfolding cached_bgr_frame_matches
cached a s = if not (ltb a.stream_id s.cache_count) then none else elim (s.cache a.stream_id) [
  | none ↦ none
  | some id ↦ if cached_bgr_frame_matches (s.frames id) a then some id else none
]

-- The one in the cache is read, to tell whether it is that frame.
unfoldable pub read_cached : Snapshot → Frames → Frames
unfolding use_bgr_frame
read_cached a s =
    if not (ltb a.stream_id s.cache_count)
    then s
    else elim (s.cache a.stream_id) [ none ↦ s | some id ↦ use_bgr_frame id s ]

unfoldable pub convert_last_frame_to_bgr : Attempt → Frames → Option ℕ × Frames
unfolding retain_bgr_frame cached read_cached convert
convert_last_frame_to_bgr t s = elim t.last [
  | none ↦ (none, s)
  | some a ↦
      if a.width == 0 || a.height == 0 || not t.has_ref then (none, s) else elim (cached a s) [
        | some id ↦ (some id, retain_bgr_frame id (read_cached a s))
        | none ↦ convert a t (read_cached a s)
      ]
]

-- The attempts that the deadline leaves time for, until one gives a frame.
unfoldable pub wait_for_frame : List Attempt → Frames → Option ℕ × Frames
unfolding convert_last_frame_to_bgr
wait_for_frame [] s = (none, s)
wait_for_frame (t ∷ ts) s =
    let (found, s1) = convert_last_frame_to_bgr t s in
    elim found [ some id ↦ (some id, s1) | none ↦ wait_for_frame ts s1 ]

-- How the calls of a request end: the two allocations of a crop, and `zmq_msg_init_data`.
pub record Calls : Type 0 where
  pub has_buffer : Bool
  pub has_frame : Bool
  pub has_message : Bool

pub data Reply : Type 0 where
  no_frame_yet : Reply
  bad_roi : Reply
  roi_crop_failed : Reply
  ok_frame : BgrFrame → ResolvedRoi → Reply

-- Behind `zmq_msg_init_data` the reference is ZeroMQ's: it frees it when the message is sent, or
-- closed where sending fails. The frame is read for the part in front and for its buffer.
unfoldable pub send_bgr_frame_owned : Bool → ℕ → Frames → Frames
unfolding free_bgr_frame use_bgr_frame
send_bgr_frame_owned has_message id s =
    let s1 = use_bgr_frame id s in
    if not has_message
    then free_bgr_frame id s1
    else record s1 { sent = update s1.sent id (s1.sent id + 1) }

-- The cropped frame takes the place of the frame, which is freed behind the crop.
unfoldable pub send_cropped : Calls → ResolvedRoi → ℕ → Frames → Reply × Frames
unfolding free_bgr_frame new_frame send_bgr_frame_owned
send_cropped k roi id s = elim (crop_bgr_frame k.has_buffer k.has_frame (s.frames id) roi) [
  | refused ↦ (roi_crop_failed, free_bgr_frame id s)
  | overrun ↦ (roi_crop_failed, record s { faulted = true })
  | cropped g ↦ (
    ok_frame g roi,
    send_bgr_frame_owned k.has_message s.next (free_bgr_frame id (new_frame g s)),
  )
]

unfoldable pub crop_reply : Calls → ResolvedRoi → ℕ → Frames → Reply × Frames
unfolding use_bgr_frame send_cropped
crop_reply k roi id s = send_cropped k roi id (use_bgr_frame id s)

unfoldable pub reply_region : Calls → RoiRequest → ℕ → Frames → Reply × Frames
unfolding free_bgr_frame crop_reply send_bgr_frame_owned
reply_region k req id s = elim (resolve_bgr_roi (s.frames id) req) [
  | none ↦ (bad_roi, free_bgr_frame id s)
  | some roi ↦
      if roi.applied
      then crop_reply k roi id s
      else (ok_frame (s.frames id) roi, send_bgr_frame_owned k.has_message id s)
]

-- The region is resolved from the sizes of the frame.
unfoldable pub reply_with : Calls → RoiRequest → ℕ → Frames → Reply × Frames
unfolding use_bgr_frame reply_region
reply_with k req id s = reply_region k req id (use_bgr_frame id s)

unfoldable pub get_latest_bgr : Calls → RoiRequest → List Attempt → Frames → Reply × Frames
unfolding wait_for_frame reply_with
get_latest_bgr k req ts s =
    let (found, s1) = wait_for_frame ts s in
    elim found [ none ↦ (no_frame_yet, s1) | some id ↦ reply_with k req id s1 ]

-- `free_bgr_frame_msg`: ZeroMQ lets go of a message.
unfoldable pub release_message : ℕ → Frames → Frames
unfolding free_bgr_frame
release_message id s =
    let s1 = free_bgr_frame id s in record s1 { sent = update s1.sent id (s1.sent id - 1) }

-- A slot of the cache is freed and emptied.
unfoldable pub clear_slot : ℕ → Frames → Frames
unfolding free_old
clear_slot sid s =
    let s1 = free_old (s.cache sid) s in record s1 { cache = update s1.cache sid none }

unfoldable pub clear_cached_bgr_frames : ℕ → Frames → Frames
unfolding clear_slot
clear_cached_bgr_frames zero s = s
clear_cached_bgr_frames (suc n) s = clear_slot n (clear_cached_bgr_frames n s)
