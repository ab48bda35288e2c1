-- ===== src/Bridge/Serve.antt =====
-- stream_server/src/zmq_bridge.c: the loop of `zmq_bridge_thread`, which takes a request's parts from the
-- ROUTER socket and sends the reply's. ZeroMQ delivers the parts of each message in order and tells with
-- each whether more of them follow; where none is there the call fails and the loop starts again.
pub mod Parts
use myworkspace.Prelude.{
  ℕ, ◌+◌, ◌%◌, ◌^◌, List, [], ◌∷◌, ◌++◌, Option, none, some, Bool, true, false, not, ◌&&◌, ◌==◌,
  if◌then◌else◌, length, bytes_eq,
}
use myworkspace.Prelude.Int.{ℤ, pos, leb_ℤ}
use myworkspace.Bridge.{BgrFrame, RoiRequest, ResolvedRoi}
use myworkspace.Bridge.Json.{
  codes, parse_stream_id_from_json, parse_timeout_ms_from_json, parse_roi_from_json,
}
use myworkspace.Bridge.Frames.{
  Frames, Attempt, Calls, Reply, no_frame_yet, bad_roi, roi_crop_failed, ok_frame, get_latest_bgr,
}

pub record Part : Type 0 where
  pub bytes : List ℕ
  pub more : Bool

pub record BridgeRequest : Type 0 where
  pub identity : List ℕ
  pub delim : Bool
  pub cmd : List ℕ
  pub json : List ℕ

unfoldable pub take_json : Part → Bool → Part → List Part → Option BridgeRequest × List Part
take_json f0 delim c [] = if c.more then (none, []) else (
  some (record { identity = f0.bytes; delim = delim; cmd = c.bytes; json = codes "{}" }),
  [],
)
take_json f0 delim c (j ∷ q) =
    if c.more
    then (some (record { identity = f0.bytes; delim = delim; cmd = c.bytes; json = j.bytes }), q)
    else (
      some (record { identity = f0.bytes; delim = delim; cmd = c.bytes; json = codes "{}" }),
      j ∷ q,
    )

unfoldable pub take_command : Part → List Part → Option BridgeRequest × List Part
unfolding take_json
take_command f0 [] = (none, [])
take_command f0 (c ∷ q) = take_json f0 true c q

unfoldable pub take_second : Part → List Part → Option BridgeRequest × List Part
unfolding take_command take_json
take_second f0 [] = (none, [])
take_second f0 (f1 ∷ q) =
    if length f1.bytes == 0 then take_command f0 q else take_json f0 false f1 q

-- One round of the loop up to the request, with the parts that are left.
unfoldable pub take_request : List Part → Option BridgeRequest × List Part
unfolding take_second
take_request [] = (none, [])
take_request (f0 ∷ q) = if not f0.more then (none, q) else take_second f0 q

-- What a request meets: the manager's answer for a stream, the attempts that the clock leaves time for
-- behind the first, and how its calls end. `meta` is what `snprintf` makes of a frame.
pub record Serving : Type 0 where
  pub has_stream : ℕ → Bool
  pub first : ℕ → Attempt
  pub later : ℕ → ℤ → List Attempt
  pub calls : Calls
  pub meta : BgrFrame → ResolvedRoi → List ℕ

unfoldable pub attempts : Serving → ℕ → ℤ → List Attempt
attempts w sid timeout_ms =
    if leb_ℤ timeout_ms (pos 0) && leb_ℤ (pos 0) timeout_ms
    then w.first sid ∷ []
    else w.first sid ∷ w.later sid timeout_ms

abbrev pub error_parts : List ℕ → List (List ℕ)
error_parts why = codes "ERR" ∷ why ∷ []

unfoldable pub reply_parts : Serving → Reply → List (List ℕ)
reply_parts w no_frame_yet = error_parts (codes "no frame yet")
reply_parts w bad_roi = error_parts (codes "bad roi")
reply_parts w roi_crop_failed = error_parts (codes "roi crop failed")
reply_parts w (ok_frame f roi) =
    codes "OK" ∷ w.meta f roi ∷ (if w.calls.has_message then f.bgr ∷ [] else [])

-- `GET_LATEST_BGR`: the stream's number is cut to 16 bits.
unfoldable pub latest_parts : Serving → List ℕ → Frames → List (List ℕ) × Frames
unfolding parse_stream_id_from_json parse_timeout_ms_from_json parse_roi_from_json attempts
    get_latest_bgr reply_parts
latest_parts w json s = elim (parse_roi_from_json json) [
  | none ↦ (error_parts (codes "bad roi"), s)
  | some req ↦
      let sid = parse_stream_id_from_json json % 2 ^ 16 in
      let ts = attempts w sid (parse_timeout_ms_from_json json (pos 1000)) in
      if not (w.has_stream sid)
      then (error_parts (codes "bad stream_id"), s)
      else let (reply, t) = get_latest_bgr w.calls req ts s in (reply_parts w reply, t)
]

abbrev pub envelope : BridgeRequest → List (List ℕ)
envelope r = r.identity ∷ (if r.delim then [] ∷ [] else [])

unfoldable pub answer : Serving → BridgeRequest → Frames → List (List ℕ) × Frames
unfolding latest_parts
answer w r s =
    if bytes_eq r.cmd (codes "PING")
    then (envelope r ++ (codes "OK" ∷ codes "{}" ∷ []), s)
    else if bytes_eq r.cmd (codes "GET_LATEST_BGR")
    then (let (parts, t) = latest_parts w r.json s in (envelope r ++ parts, t))
    else (envelope r ++ error_parts (codes "unknown cmd"), s)
