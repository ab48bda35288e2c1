-- ===== src/Recorder/Idr/Periodic.antt =====
-- compressed_recorder.c: the periodic keyframe requests. Their times lie in the future, at the
-- stream's own phase of the interval.
use myworkspace.Prelude.{
  ℕ, zero, suc, ◌+◌, ◌-◌, ◌*◌, ◌/◌, ◌%◌, ◌^◌, ◌≤◌, ◌<◌, ◌≡◌, ◌⊎◌, inl, inr, if◌then◌else◌, ◌==◌,
  arith, add64, mul64, refl,
}
use native.Mathlib.Nat.{
  div-lt_iff_lt-mul, mod-eq_of_lt, add-mul-mod_self_right, div-mul-le_self, lt-div-mul-add,
}
use myworkspace.Recorder.{Recorder, RecorderStream, periodic_idr_min_gap_ns}
use myworkspace.Recorder.Idr.{
  second_ns, idr_interval_ns, periodic_idr_offset_ns, advance_to, next_periodic, advance_past,
}

-- Where no sum overflows, four rounds bring a time that is at most one interval behind up to the
-- target, by whole intervals, and not further than needed.
advance_to_four :
    (interval now next : ℕ)
    → second_ns ≤ interval
    → now < next + interval
    → next < now + interval
    → now + periodic_idr_min_gap_ns + interval < 2 ^ 64
    → let target = now + periodic_idr_min_gap_ns in
      let at = advance_to 4 interval target next in
      (target ≤ at)
      × (at < target + interval)
      × ((at ≡ next)
          ⊎ ((at ≡ next + interval) ⊎ ((at ≡ next + 2 * interval) ⊎ (at ≡ next + 3 * interval))))
unfolding advance_to
advance_to_four interval now next big near far fits = ground arith

-- With a bound on the rounds that covers the distance, the loop ends after `now`.
advance_past-lt :
    (k interval now next : ℕ)
    → now < next + interval + k * interval
    → now + interval < 2 ^ 64
    → next ≤ now
    → (now < advance_past k interval now next) × (advance_past k interval now next ≤ now + interval)
unfolding advance_past
advance_past-lt zero interval now next far fits le = ground arith
advance_past-lt (suc k) interval now next far fits le =
    ground (arith, advance_past-lt k interval now (next + interval))

-- The clock and the interval are in a range where nothing overflows: the clock below 2 ^ 62, the
-- interval at most 2 ^ 24 seconds, and the stream one of the recorder's.
pub record InRange (r : Recorder) (s : RecorderStream) (now : ℕ) : Type 0 where
  pub some_interval : 1 ≤ r.idr_interval_sec
  pub interval : r.idr_interval_sec ≤ 2 ^ 24
  pub stream_from : 1 ≤ s.stream_id
  pub stream_to : s.stream_id ≤ r.max_streams
  pub streams : r.max_streams ≤ 256
  pub clock : now < 2 ^ 62

interval_lem :
    {r : Recorder} {s : RecorderStream} {now : ℕ}
    → InRange r s now
    → (idr_interval_ns r ≡ r.idr_interval_sec * second_ns)
      × (second_ns ≤ idr_interval_ns r)
      × (idr_interval_ns r ≤ 2 ^ 54)
unfolding idr_interval_ns
interval_lem h = ground arith

offset_lem :
    {r : Recorder} {s : RecorderStream} {now : ℕ}
    → InRange r s now
    → periodic_idr_offset_ns r s < idr_interval_ns r
unfolding periodic_idr_offset_ns
offset_lem {r} {s} {now} h =
    let i = interval_lem h in
    let small : (s.stream_id - 1) * idr_interval_ns r < idr_interval_ns r * r.max_streams =
      grind arith in
    let bound : (s.stream_id - 1) * idr_interval_ns r ≤ 256 * idr_interval_ns r = grind arith in
    let quotient =
      (div-lt_iff_lt-mul {k = r.max_streams} {x = (s.stream_id - 1) * idr_interval_ns r}
          {y = idr_interval_ns r} (omega arith)).1
        small in
    ground (
      arith,
      i,
      bound,
      quotient,
      mod-eq_of_lt {n = (s.stream_id - 1) * idr_interval_ns r} {m = 2 ^ 64},
    )

phase :
    (interval q offset j at : ℕ)
    → offset < interval
    → at ≡ q * interval + offset + j * interval
    → at % interval ≡ offset
phase interval q offset j at small e =
    let e' : at ≡ offset + (q + j) * interval = omega arith in
    rw (e', add-mul-mod_self_right offset (q + j) interval, mod-eq_of_lt small)

next_periodic-eq :
    (r : Recorder) (s : RecorderStream) (now : ℕ)
    → next_periodic r s now ≡ (
        if idr_interval_ns r == 0
        then 0
        else advance_to 4 (idr_interval_ns r) (add64 now periodic_idr_min_gap_ns) (
            add64
              (mul64 (now / idr_interval_ns r) (idr_interval_ns r))
              (periodic_idr_offset_ns r s)))
unfolding next_periodic
next_periodic-eq r s now = refl

-- `phase` in each of the four cases of `advance_to_four`.
phases :
    (interval q offset at : ℕ)
    → offset < interval
    → (at ≡ q * interval + offset)
      ⊎ ((at ≡ q * interval + offset + interval)
          ⊎ ((at ≡ q * interval + offset + 2 * interval)
              ⊎ (at ≡ q * interval + offset + 3 * interval)))
    → at % interval ≡ offset
phases interval q offset at small (inl e) = phase interval q offset 0 at small (omega arith)
phases interval q offset at small (inr (inl e)) = phase interval q offset 1 at small (omega arith)
phases interval q offset at small (inr (inr (inl e))) = phase interval q offset 2 at small e
phases interval q offset at small (inr (inr (inr e))) = phase interval q offset 3 at small e

-- For a clock below 2 ^ 62, an interval of 1 to 2 ^ 24 seconds and a stream within the recorder's
-- at most 256, the next periodic request of a stream lies at least two seconds ahead, less than an
-- interval beyond that, and at the stream's own offset within the interval.
pub next_periodic_lem :
    (r : Recorder) (s : RecorderStream) (now : ℕ)
    → InRange r s now
    → (now + periodic_idr_min_gap_ns ≤ next_periodic r s now)
      × (next_periodic r s now < now + periodic_idr_min_gap_ns + idr_interval_ns r)
      × (next_periodic r s now % idr_interval_ns r ≡ periodic_idr_offset_ns r s)
next_periodic_lem r s now h =
    let interval = idr_interval_ns r in
    let offset = periodic_idr_offset_ns r s in
    let q = now / interval in
    let i = interval_lem h in
    let o = offset_lem h in
    let under = div-mul-le_self now interval in
    let over = lt-div-mul-add {a = now} {b = interval} (omega arith) in
    let start : add64 (mul64 q interval) offset ≡ q * interval + offset = omega arith in
    let four =
      advance_to_four interval now (q * interval + offset) (omega arith) (omega arith) (omega arith)
        (omega arith) in
    let at = advance_to 4 interval (now + periodic_idr_min_gap_ns) (q * interval + offset) in
    let is_at : next_periodic r s now ≡ at = ground (arith, next_periodic-eq r s now, start) in
    rw is_at (four.0, four.1, phases interval q offset at o four.2)
