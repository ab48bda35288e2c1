-- ===== src/Bridge/Tests.antt =====
-- Requests to the bridge and frames that it cuts up, run.
use myworkspace.Prelude.{
  ℕ, ◌+◌, ◌≤◌, ◌≡◌, refl, List, [], ◌∷◌, ◌++◌, none, some, Bool, true, false, ◌&&◌, ◌==◌,
  if◌then◌else◌, arith,
}
use myworkspace.Prelude.Int.{pos, negsuc}
use myworkspace.Bridge.{BgrFrame, RoiRequest, ResolvedRoi, resolve_bgr_roi, read_at}
use myworkspace.Bridge.Roi.{IsShared, resolve_bgr_roi-IsShared}
use myworkspace.Bridge.Crop.{
  cropped, refused, crop_bgr_frame, crop_rows, IsRegion, crop_bgr_frame-resolved,
}
use myworkspace.Bridge.Json.{
  codes, parse_json_int_key, parse_stream_id_from_json, parse_timeout_ms_from_json,
  parse_roi_from_json, timeout_key, starts, is_json_ws, is_digit,
}
use myworkspace.Bridge.Json.Numbers.{IsFirst, written, parse_json_int_key_lem}
use myworkspace.Bridge.Frames.{Frames, Attempt, release_message, clear_cached_bgr_frames}
use myworkspace.Bridge.Frames.Counts.{in_cache}
use myworkspace.Bridge.Serve.{BridgeRequest, Serving, take_request, answer}
use myworkspace.Bridge.Serve.Parts.{part, request_parts, take_request-request_parts}
use myworkspace.Bridge.Runs.{
  IsServing, Runs, rest, further, request, let_go, bridge_started, bridge-counted, bridge-clears,
}

-- Two pixels by two, the rows padded to eight bytes.
abbrev picture : List ℕ
picture = 1 ∷ 2 ∷ 3 ∷ 4 ∷ 5 ∷ 6 ∷ 0 ∷ 0 ∷ 7 ∷ 8 ∷ 9 ∷ 10 ∷ 11 ∷ 12 ∷ 0 ∷ 0 ∷ []

abbrev frame : BgrFrame
frame = record {
  stream_id = 1;
  width = 2;
  height = 2;
  stride = 8;
  source_width = 2;
  source_height = 2;
  roi_x = 0;
  roi_y = 0;
  pts = pos 40;
  key_frame = true;
  mono_ns = 5;
  color_space = 1;
  color_range = 0;
  source_format = 2;
  bgr = picture;
}

-- One column from beyond the left edge to the right of the first pixel.
abbrev left_column : RoiRequest
left_column = record { requested = true; x = negsuc 4; y = pos 0; w = pos 6; h = pos 9 }

abbrev first_column : ResolvedRoi
first_column = record {
  x = 0;
  y = 0;
  w = 1;
  h = 2;
  source_width = 2;
  source_height = 2;
  applied = true;
}

resolves : resolve_bgr_roi frame left_column ≡ some first_column
unfolding resolve_bgr_roi
resolves = refl

resolve_bgr_roi-IsShared_example : IsShared frame left_column (resolve_bgr_roi frame left_column)
resolve_bgr_roi-IsShared_example =
    resolve_bgr_roi-IsShared frame left_column (omega arith) (omega arith) (omega arith) refl

crop_bgr_frame-resolved_example :
    (g : BgrFrame) × IsRegion frame first_column g
    × ((b c : Bool)
        → crop_bgr_frame b c frame first_column ≡ (if b && c then cropped g else refused))
crop_bgr_frame-resolved_example = crop_bgr_frame-resolved frame left_column resolves refl

abbrev asking : List ℕ
asking =
    codes
      "{\"stream_id\": 2, \"timeout_ms\": -1, \"roi\": {\"x\": -5, \"y\": 0, \"w\": 6, \"h\": 9}}"

asks_stream : parse_stream_id_from_json asking ≡ 2
unfolding parse_stream_id_from_json
asks_stream = refl

asks_forever : parse_timeout_ms_from_json asking (pos 1000) ≡ negsuc 0
unfolding parse_timeout_ms_from_json
asks_forever = refl

asks_roi : parse_roi_from_json asking ≡ some left_column
unfolding parse_roi_from_json
asks_roi = refl

asks_none :
    parse_roi_from_json (codes "{\"roi\" : null}")
    ≡ some (record left_column { requested = false; x = pos 0; w = pos 0; h = pos 0 })
unfolding parse_roi_from_json
asks_none = refl

asks_badly : parse_roi_from_json (codes "{\"roi\":{\"x\":1,\"y\":\"}\"}") ≡ none
unfolding parse_roi_from_json
asks_badly = refl

key-IsFirst :
    IsFirst timeout_key
      (codes "{ ")
      (written b'"' (codes "timeout_ms\"") [] (b' ' ∷ []) true b'1' (codes "500") (codes "}"))
unfolding starts
key-IsFirst = (refl, (refl, tt))

-- `{ "timeout_ms": -1500}`
parse_json_int_key_lem_example :
    parse_json_int_key
      (codes "{ "
        ++ written b'"' (codes "timeout_ms\"") [] (b' ' ∷ []) true b'1' (codes "500") (codes "}"))
      timeout_key
    ≡ some (negsuc 1499)
unfolding starts is_json_ws is_digit
parse_json_int_key_lem_example =
    parse_json_int_key_lem b'"' (codes "timeout_ms\"") [] (b' ' ∷ []) true b'1' (codes "500")
      (codes "}") (codes "{ ") key-IsFirst tt (refl, tt) (refl, (refl, (refl, (refl, tt)))) refl

abbrev sent_request : BridgeRequest
sent_request = record {
  identity = 0 ∷ 7 ∷ [];
  delim = true;
  cmd = codes "GET_LATEST_BGR";
  json = asking;
}

take_request-request_parts_example :
    take_request (request_parts true sent_request ++ part [] true ∷ [])
    ≡ (some sent_request, part [] true ∷ [])
take_request-request_parts_example =
    take_request-request_parts true sent_request (part [] true ∷ []) (omega arith)

abbrev attempt : Attempt
attempt = record {
  last = some (record {
    stream_id = 2;
    width = 2;
    height = 2;
    pts = pos 40;
    key_frame = true;
    color_space = 1;
    color_range = 0;
    format = 2;
  });
  has_ref = true;
  converted = some (record {
    width = 2;
    height = 2;
    stride = 8;
    pts = pos 40;
    key_frame = true;
    bgr = some picture;
  });
  has_frame = true;
  now = 5;
}

abbrev serving : Serving
serving = record {
  has_stream = λ sid. sid == 2;
  first = λ _. attempt;
  later = λ _ _. [];
  calls = record { has_buffer = true; has_frame = true; has_message = true };
  meta = λ f roi. codes "{}";
}

serving-IsServing : IsServing serving
serving-IsServing = record { first = λ sid c bytes e f. ground arith; later = λ _ _. tt }

abbrev once : Frames
once = (answer serving sent_request (bridge_started 4)).1

abbrev twice : Frames
twice = (answer serving sent_request once).1

once-sent : (id : ℕ) → once.sent id ≡ (if 1 == id then 1 else 0)
unfolding answer bridge_started resolve_bgr_roi crop_bgr_frame crop_rows read_at
once-sent id = refl

twice-sent : 1 ≤ twice.sent 1
unfolding answer bridge_started resolve_bgr_roi crop_bgr_frame crop_rows read_at
twice-sent = omega arith

-- The same frame is cut again, the cache having it; then ZeroMQ lets go of the first message.
asked_twice : Runs (bridge_started 4) (release_message 1 twice)
asked_twice =
    further
      (further
        (further (rest (bridge_started 4)) (
          request (bridge_started 4) serving sent_request serving-IsServing
            (λ id. unfold bridge_started in omega arith)))
        (request once serving sent_request serving-IsServing (λ id. ground (arith, once-sent id))))
      (let_go twice 1 twice-sent)

bridge-counted_example :
    (let t = release_message 1 twice in
      (t.faulted ≡ false) × ((id : ℕ) → t.refs id ≡ in_cache t id + t.sent id))
bridge-counted_example = bridge-counted 4 asked_twice

bridge-clears_example :
    (let t = release_message 1 twice in
      let u = clear_cached_bgr_frames t.cache_count t in
      (u.faulted ≡ false) × ((id : ℕ) → u.refs id ≡ t.sent id))
bridge-clears_example = bridge-clears 4 asked_twice

-- The frame in the cache has one reference, and so has the cut that is still on its way.
counts_left :
    (let t = release_message 1 twice in t.refs 0 ∷ t.refs 1 ∷ t.refs 2 ∷ t.refs 3 ∷ [])
    ≡ 1 ∷ 0 ∷ 1 ∷ 0 ∷ []
unfolding answer bridge_started resolve_bgr_roi crop_bgr_frame crop_rows read_at release_message
counts_left = refl
