-- ===== src/Tap/Publish.antt =====
-- h264_tap.c, `h264_tap_publish`.
pub mod Whole
use myworkspace.Prelude.{
  ℕ, ◌+◌, ◌*◌, List, [], ◌∷◌, ◌++◌, length, Bool, true, false, not, ◌&&◌, ◌||◌, ◌==◌, ltb, leb,
  if◌then◌else◌, sub64,
}
use myworkspace.Protocol.{byte_at}
use myworkspace.Tap.{TapClient, TapConfig}
use myworkspace.Tap.Net.{TapNet}
use myworkspace.Tap.Scan.{has_start_code, annexb_contains_nal_type, code3_at, code4_at, nal_type_of}
use myworkspace.Tap.Flush.{ensure_out_buf, flush_out_buf}

abbrev pub start_code : List ℕ
start_code = 0 ∷ 0 ∷ 0 ∷ 1 ∷ []

-- The type of the first unit; 32, which no unit has, stands for -1.
unfoldable pub first_nal_type : List ℕ → ℕ
first_nal_type d =
    if leb 5 (length d) && code4_at d 0
    then nal_type_of (byte_at d 4)
    else if leb 4 (length d) && code3_at d 0
    then nal_type_of (byte_at d 3)
    else 32

-- Stale data that waits longer than the threshold.
unfoldable pub is_stalled : TapConfig → TapClient → ℕ → Bool
is_stalled config c now = ltb (config.stall_ms * 1000 * 1000) (sub64 now c.out_start_ns)

-- What is sent for a packet: the cached sets first where the client recovers.
unfoldable pub frame_of : TapClient → List ℕ → List ℕ
frame_of c d =
    (if c.need_idr then c.sps ++ c.pps else []) ++ (if has_start_code d then d else start_code ++ d)

-- Leaving the recovery once the packet has gone out.
unfoldable pub leave_recovery : Bool → TapClient → TapClient
leave_recovery is_idr c =
    if c.need_idr && (is_idr && (c.out_len == 0)) then record c { need_idr = false } else c

module _ {W : Type 0} (net : TapNet W) where
  after_cache : TapClient → TapClient → Bool × W → TapClient × W
  after_cache c cached (true, w) = (cached, w)
  after_cache c cached (false, w) = (c, w)

  unfoldable pub maybe_cache_param_sets : TapClient → List ℕ → W → TapClient × W
  unfolding after_cache
  maybe_cache_param_sets c d w =
      let t = first_nal_type d in
      if not (has_start_code d)
      then (c, w)
      else if t == 7
      then after_cache c (record c { sps = d }) (net.realloc (length d) w)
      else if t == 8
      then after_cache c (record c { pps = d }) (net.realloc (length d) w)
      else (c, w)

  unfoldable pub drop_stalled : TapConfig → TapClient → W → TapClient × W
  drop_stalled config c w =
      if ltb c.out_off c.out_len && not (c.out_start_ns == 0)
      then (let (now, w1) = net.monotonic_ns w in
          if is_stalled config c now
          then (
            record c {
              out_len = 0;
              out_off = 0;
              out_start_ns = 0;
              need_idr = c.need_idr || config.drop_to_idr;
            },
            w1,
          )
          else (c, w1))
      else (c, w)

  -- The frame is put into the buffer, where that has room, and sent as far as it goes.
  unfoldable pub fill_and_send : List ℕ → Bool → TapClient × W → TapClient × W
  fill_and_send frame is_idr (c, w) =
      if c.out_cap == 0 || ltb c.out_cap (length frame)
      then (c, w)
      else (let (now, w1) = net.monotonic_ns w in
          let (c2, w2) =
            (flush_out_buf net
              (record c {
                out_buf = frame;
                out_len = length frame;
                out_off = 0;
                out_start_ns = now;
              })
              w1).1 in
          (leave_recovery is_idr c2, w2))

  unfoldable pub write_frame : TapClient → List ℕ → Bool → W → TapClient × W
  write_frame c d is_idr w =
      let frame = frame_of c d in fill_and_send frame is_idr (ensure_out_buf net c (length frame) w)

  -- The part of the loop's body behind the flush of older data.
  unfoldable pub send_frame : TapClient → List ℕ → Bool → W → TapClient × W
  send_frame c d is_idr w = if c.need_idr && not is_idr then (c, w) else write_frame c d is_idr w

  -- Older data first; the packet is dropped where that does not go out.
  unfoldable pub flush_then_send : TapClient → List ℕ → Bool → W → TapClient × W
  flush_then_send c d is_idr w =
      if ltb c.out_off c.out_len
      then (let (cleared, (c1, w1)) = flush_out_buf net c w in
          if cleared then send_frame c1 d is_idr w1 else (c1, w1))
      else send_frame c d is_idr w

  -- The body of the loop for one client.
  unfoldable pub publish_to : TapConfig → ℕ → List ℕ → TapClient → W → TapClient × W
  publish_to config stream_id d c w =
      if not c.active || not (c.stream_id == stream_id)
      then (c, w)
      else (let (c1, w1) = maybe_cache_param_sets c d w in
          let (c2, w2) = drop_stalled config c1 w1 in
          flush_then_send c2 d (annexb_contains_nal_type d 5) w2)

  unfoldable pub publish_all : TapConfig → ℕ → List ℕ → List TapClient → W → List TapClient × W
  publish_all config stream_id d [] w = ([], w)
  publish_all config stream_id d (c ∷ clients) w =
      let (c1, w1) = publish_to config stream_id d c w in
      let (rest, w2) = publish_all config stream_id d clients w1 in (c1 ∷ rest, w2)

  unfoldable pub publish : TapConfig → Bool → ℕ → List ℕ → List TapClient → W → List TapClient × W
  publish config running stream_id [] clients w = (clients, w)
  publish config running stream_id (x ∷ d) clients w =
      if running then publish_all config stream_id (x ∷ d) clients w else (clients, w)
