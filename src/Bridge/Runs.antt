-- ===== src/Bridge/Runs.antt =====
-- stream_server/src/zmq_bridge.c: requests and ZeroMQ's letting go of messages in any order, and the end
-- of the bridge's thread, which clears the cache.
use myworkspace.Prelude.{
  ℕ, zero, suc, ◌+◌, ◌-◌, ◌^◌, ◌≤◌, ◌<◌, ◌≡◌, refl, sym, ap, ◌∙◌, List, [], Option, none, some,
  true, false, arith, All, ltb, not, ◌&&◌, ◌%◌, bytes_eq, if-holds, subst, Option-cases, inl, inr,
  ◌⊎◌, Bool-cases, if◌then◌else◌,
}
use myworkspace.Recorder.{update}
use myworkspace.Prelude.Int.{ℤ, pos, leb_ℤ}
use myworkspace.Bridge.{BgrFrame}
use myworkspace.Bridge.Frames.{
  Frames, free_bgr_frame, free_old, release_message, clear_slot, clear_cached_bgr_frames,
}
use myworkspace.Bridge.Json.{
  codes, parse_roi_from_json, parse_stream_id_from_json, parse_timeout_ms_from_json,
}
use myworkspace.Bridge.Serve.{Serving, BridgeRequest, attempts, latest_parts, answer}
use myworkspace.Bridge.Frames.Counts.{IsCounted, in_cache, drop_slot-IsCounted, free_old-IsCounted}
use myworkspace.Bridge.Frames.Serves.{GivesFull}
use myworkspace.Bridge.Frames.Replies.{get_latest_bgr-Settled, release_message-Settled}

-- The conversions that a request may make give full frames.
pub record IsServing (w : Serving) : Type 0 where
  pub first : (sid : ℕ) → GivesFull (w.first sid)
  pub later : (sid : ℕ) (timeout_ms : ℤ) → All GivesFull (w.later sid timeout_ms)

-- One request, or one message that ZeroMQ lets go of. No frame has nearly as many messages on their way
-- as its count has room for.
pub data BridgeStep : Frames → Frames → Type 0 where
  request :
      (s : Frames) (w : Serving) (r : BridgeRequest)
      → IsServing w
      → ((id : ℕ) → s.sent id < 2 ^ 31 - 1)
      → BridgeStep s (answer w r s).1
  let_go : (s : Frames) (id : ℕ) → 1 ≤ s.sent id → BridgeStep s (release_message id s)

pub data Runs : Frames → Frames → Type 0 where
  rest : (s : Frames) → Runs s s
  further : {s t u : Frames} → Runs s t → BridgeStep t u → Runs s u

abbrev pub no_frame : BgrFrame
no_frame = record {
  stream_id = 0;
  width = 0;
  height = 0;
  stride = 0;
  source_width = 0;
  source_height = 0;
  roi_x = 0;
  roi_y = 0;
  pts = pos 0;
  key_frame = false;
  mono_ns = 0;
  color_space = 0;
  color_range = 0;
  source_format = 0;
  bgr = [];
}

-- `zmq_bridge_start`: an empty cache with a slot for each stream's number.
unfoldable pub bridge_started : ℕ → Frames
bridge_started max_streams = record {
  refs = λ _. 0;
  frames = λ _. no_frame;
  next = 0;
  cache = λ _. none;
  cache_count = max_streams + 1;
  sent = λ _. 0;
  faulted = false;
}

bridge_started-IsCounted :
    (max_streams : ℕ) → IsCounted (bridge_started max_streams).sent (bridge_started max_streams)
unfolding bridge_started
bridge_started-IsCounted max_streams = record {
  counts = λ id. refl;
  slots = λ sid id e. cc;
  fresh = λ id le. refl;
  full = λ id. refl;
  sound = refl;
}

module _ (w : Serving) (full : IsServing w) where
  attempts-full : (sid : ℕ) (timeout_ms : ℤ) → All GivesFull (attempts w sid timeout_ms)
  unfolding attempts
  attempts-full sid timeout_ms =
      if-holds (All GivesFull) (leb_ℤ timeout_ms (pos 0) && leb_ℤ (pos 0) timeout_ms) _ _
        (λ _. (full.first sid, tt)) (λ _. (full.first sid, full.later sid timeout_ms))

  latest_parts-Settled :
      (json : List ℕ) {s : Frames}
      → ((id : ℕ) → s.sent id < 2 ^ 31 - 1)
      → IsCounted s.sent s
      → IsCounted (latest_parts w json s).1.sent (latest_parts w json s).1
  unfolding latest_parts
  latest_parts-Settled json {s} small v = elim (Option-cases (parse_roi_from_json json)) [
    | inl e ↦ rw (e, latest_parts) v
    | inr (req, e) ↦
        rw (e, latest_parts)
          (if-holds (λ (r : List (List ℕ) × Frames). IsCounted r.1.sent r.1)
            (not (w.has_stream (parse_stream_id_from_json json % 2 ^ 16))) _ _ (λ _. v)
            (λ _.
              get_latest_bgr-Settled w.calls req _
                (attempts-full (parse_stream_id_from_json json % 2 ^ 16)
                  (parse_timeout_ms_from_json json (pos 1000)))
                v small))
  ]

answer-Settled :
    (w : Serving) (r : BridgeRequest) {s : Frames}
    → IsServing w
    → ((id : ℕ) → s.sent id < 2 ^ 31 - 1)
    → IsCounted s.sent s
    → IsCounted (answer w r s).1.sent (answer w r s).1
unfolding answer
answer-Settled w r {s} full small v =
    if-holds (λ (q : List (List ℕ) × Frames). IsCounted q.1.sent q.1)
      (bytes_eq r.cmd (codes "PING")) _ _ (λ _. v)
      (λ _.
        if-holds (λ (q : List (List ℕ) × Frames). IsCounted q.1.sent q.1)
          (bytes_eq r.cmd (codes "GET_LATEST_BGR")) _ _
          (λ _. latest_parts-Settled w full r.json small v) (λ _. v))

Step-Settled : {s t : Frames} → BridgeStep s t → IsCounted s.sent s → IsCounted t.sent t
Step-Settled (request s w r full small) v = answer-Settled w r full small v
Step-Settled (let_go s id lt) v = release_message-Settled id lt v

Runs-Settled : {s t : Frames} → Runs s t → IsCounted s.sent s → IsCounted t.sent t
Runs-Settled (rest s) v = v
Runs-Settled (further r st) v = Step-Settled st (Runs-Settled r v)

-- In every state that the bridge reaches, whatever its requests ask for and in whatever order ZeroMQ lets
-- go of the messages, no frame was used after it was freed and none read past its buffer, and the count
-- of each is one for the cache, where its slot has it, and one for each message on its way.
pub bridge-counted :
    (max_streams : ℕ) {t : Frames}
    → Runs (bridge_started max_streams) t
    → (t.faulted ≡ false) × ((id : ℕ) → t.refs id ≡ in_cache t id + t.sent id)
bridge-counted max_streams r =
    let v = Runs-Settled r (bridge_started-IsCounted max_streams) in (v.sound, v.counts)

free_old-clear :
    (o : Option ℕ) (s : Frames) (c : ℕ → Option ℕ)
    → record (free_old o s) { cache = c } ≡ free_old o (record s { cache = c })
unfolding free_old free_bgr_frame
free_old-clear none s c = refl
free_old-clear (some old) s c = ground arith

free_old-cache : (o : Option ℕ) (s : Frames) → (free_old o s).cache ≡ s.cache
unfolding free_old free_bgr_frame
free_old-cache none s = refl
free_old-cache (some old) s = ground arith

clear_slot_lem :
    (sid : ℕ) (s : Frames)
    → clear_slot sid s ≡ free_old (s.cache sid) (record s { cache = update s.cache sid none })
unfolding clear_slot
clear_slot_lem sid s =
    ap (λ c. record (free_old (s.cache sid) s) { cache = update c sid none })
      (free_old-cache (s.cache sid) s)
    ∙ free_old-clear (s.cache sid) s (update s.cache sid none)

clear_slot-IsCounted :
    {held : ℕ → ℕ} (sid : ℕ) {s : Frames} → IsCounted held s → IsCounted held (clear_slot sid s)
clear_slot-IsCounted {held} sid {s} v =
    subst (IsCounted held) (sym (clear_slot_lem sid s))
      (free_old-IsCounted (s.cache sid) (drop_slot-IsCounted v sid (s.cache sid) refl))

clear_slot-cache : (sid : ℕ) (s : Frames) → (clear_slot sid s).cache ≡ update s.cache sid none
unfolding clear_slot
clear_slot-cache sid s = ap (λ c. update c sid none) (free_old-cache (s.cache sid) s)

clear-IsCounted :
    {held : ℕ → ℕ} (n : ℕ) {s : Frames}
    → IsCounted held s
    → IsCounted held (clear_cached_bgr_frames n s)
unfolding clear_cached_bgr_frames
clear-IsCounted zero v = v
clear-IsCounted (suc n) v = clear_slot-IsCounted n (clear-IsCounted n v)

-- The slots below `n` are emptied, and the others keep what they have.
clear-cache :
    (n : ℕ) (s : Frames) (sid : ℕ)
    → (clear_cached_bgr_frames n s).cache sid ≡ (if ltb sid n then none else s.cache sid)
unfolding clear_cached_bgr_frames
clear-cache zero s sid = ground arith
clear-cache (suc n) s sid =
    ap (λ (c : ℕ → Option ℕ). c sid) (clear_slot-cache n (clear_cached_bgr_frames n s))
    ∙ ground (arith, clear-cache n s sid)

slot_empty :
    {held : ℕ → ℕ} {s : Frames}
    → IsCounted held s
    → (sid : ℕ) → s.cache_count ≤ sid
    → s.cache sid ≡ none
slot_empty {s = s} v sid le = elim (Option-cases (s.cache sid)) [
  | inl e ↦ e
  | inr (id, e) ↦ absurd (omega (arith, v.slots sid id e))
]

emptied :
    {held : ℕ → ℕ} (s : Frames)
    → IsCounted held s
    → (sid : ℕ) → (clear_cached_bgr_frames s.cache_count s).cache sid ≡ none
emptied s v sid = clear-cache s.cache_count s sid ∙ outside (Bool-cases (ltb sid s.cache_count))
  where
    outside :
        ((ltb sid s.cache_count) ≡ true) ⊎ ((ltb sid s.cache_count) ≡ false)
        → (if ltb sid s.cache_count then none else s.cache sid) ≡ none
    outside (inl e) = rw e refl
    outside (inr e) = rw e (slot_empty v sid (ground arith))

-- When the bridge's thread ends in a state that it reached, and has cleared its cache, the converted
-- frames that are left are those that ZeroMQ has on their way, one reference for each message.
pub bridge-clears :
    (max_streams : ℕ) {t : Frames}
    → Runs (bridge_started max_streams) t
    → (let u = clear_cached_bgr_frames t.cache_count t in
        (u.faulted ≡ false) × ((id : ℕ) → u.refs id ≡ t.sent id))
bridge-clears max_streams {t} r =
    let v = Runs-Settled r (bridge_started-IsCounted max_streams) in
    let u = clear-IsCounted t.cache_count v in
    (
      u.sound,
      λ id. ground (
        arith,
        u.counts id,
        emptied t v ((clear_cached_bgr_frames t.cache_count t).frames id).stream_id,
      ),
    )
