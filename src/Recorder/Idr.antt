-- ===== src/Recorder/Idr.antt =====
-- compressed_recorder.c: when the recorder asks the sender for a keyframe: on demand with a growing
-- gap, and periodically with an offset for each stream. Times are uint64_t nanoseconds.
pub mod Backoff
pub mod Periodic
use myworkspace.Prelude.{
  ℕ, zero, suc, ◌+◌, ◌-◌, ◌*◌, ◌/◌, Bool, true, false, not, ◌&&◌, ◌||◌, leb, ltb, ◌==◌,
  if◌then◌else◌, add64, sub64, mul64, add32, is_some,
}
use myworkspace.Recorder.{Recorder, RecorderStream, periodic_idr_min_gap_ns}
use myworkspace.Recorder.Os.{Os, Ctx, Reason, record_periodic}

abbrev pub second_ns : ℕ
second_ns = 1000 * 1000 * 1000

unfoldable pub backoff_ns : Bool → ℕ → ℕ
backoff_ns force count =
    if force
    then 0
    else if count == 0
    then 0
    else if count == 1
    then 2 * second_ns
    else if count == 2
    then 5 * second_ns
    else 10 * second_ns

unfoldable pub idr_request_recent : RecorderStream → ℕ → ℕ → Bool
idr_request_recent s now_ns gap_ns =
    not (s.last_idr_request_ns == 0)
    && (leb s.last_idr_request_ns now_ns && ltb (sub64 now_ns s.last_idr_request_ns) gap_ns)

-- A `uint32_t` of seconds cannot overflow here.
unfoldable pub idr_interval_ns : Recorder → ℕ
idr_interval_ns r = if r.idr_interval_sec == 0 then 0 else mul64 r.idr_interval_sec second_ns

unfoldable pub periodic_idr_offset_ns : Recorder → RecorderStream → ℕ
periodic_idr_offset_ns r s =
    if idr_interval_ns r == 0
    then 0
    else mul64 (s.stream_id - 1) (idr_interval_ns r)
      / (if ltb 0 r.max_streams then r.max_streams else 1)

-- `while (next_ns < min_next_ns) next_ns += interval_ns;`
unfoldable pub advance_to : ℕ → ℕ → ℕ → ℕ → ℕ
advance_to zero interval target next = next
advance_to (suc k) interval target next =
    let later = advance_to k interval target (add64 next interval) in
    if ltb next target then later else next

-- The interval is a second at least, so four rounds pass the gap of two seconds.
unfoldable pub next_periodic : Recorder → RecorderStream → ℕ → ℕ
next_periodic r s now_ns =
    if idr_interval_ns r == 0
    then 0
    else advance_to 4 (idr_interval_ns r) (add64 now_ns periodic_idr_min_gap_ns) (
        add64 (mul64 (now_ns / idr_interval_ns r) (idr_interval_ns r)) (periodic_idr_offset_ns r s))

-- `do next += interval; while (next <= now);`
unfoldable pub advance_past : ℕ → ℕ → ℕ → ℕ → ℕ
advance_past zero interval now next = add64 next interval
advance_past (suc k) interval now next =
    let later = advance_past k interval now (add64 next interval) in
    if leb (add64 next interval) now then later else add64 next interval

module _ {W : Type 0} (os : Os W) where
  unfoldable pub request_idr : Ctx W → Reason → ℕ → Bool → Ctx W
  request_idr c reason now_ns force =
      if not c.r.has_request_idr
      then c
      else if not force
          && (not (c.s.last_idr_request_ns == 0)
              && ltb (sub64 now_ns c.s.last_idr_request_ns)
                  (backoff_ns force c.s.idr_request_count))
      then c
      else record c {
        w = os.request_idr c.s.stream_id reason c.w;
        s = record c.s {
          last_idr_request_ns = now_ns;
          idr_request_count = add32 c.s.idr_request_count 1;
        };
      }

  abbrev set_next : Ctx W → ℕ → Ctx W
  set_next c next = record c { s = record c.s { next_periodic_idr_ns = next } }

  abbrev armed : Ctx W → ℕ → Ctx W
  armed c now_ns =
      if c.s.next_periodic_idr_ns == 0 then set_next c (next_periodic c.r c.s now_ns) else c

  -- The part of `recorder_maybe_request_periodic_idr` behind the due time.
  unfoldable pub periodic_due : Ctx W → ℕ → Ctx W
  periodic_due c now_ns =
      if idr_request_recent c.s now_ns periodic_idr_min_gap_ns
      then set_next c (next_periodic c.r c.s now_ns)
      else (let c' = request_idr c record_periodic now_ns true in
          set_next c' (
            advance_past ((now_ns - c'.s.next_periodic_idr_ns) / idr_interval_ns c.r)
              (idr_interval_ns c.r) now_ns c'.s.next_periodic_idr_ns))

  unfoldable pub maybe_request_periodic_idr : Ctx W → ℕ → Ctx W
  maybe_request_periodic_idr c now_ns =
      if idr_interval_ns c.r == 0
        || (not (is_some c.s.fp) || (c.s.waiting_keyframe || c.s.rollover_pending))
      then c
      else (let c1 = armed c now_ns in
          if c1.s.next_periodic_idr_ns == 0 || ltb now_ns c1.s.next_periodic_idr_ns
          then c1
          else periodic_due c1 now_ns)
