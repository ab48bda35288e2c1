-- ===== src/Recorder/Idr/Backoff.antt =====
-- compressed_recorder.c, `recorder_request_idr`: how often the sender is asked for a keyframe.
use myworkspace.Prelude.{ℕ, ◌-◌, ◌*◌, ◌≤◌, ◌<◌, ◌≡◌, ◌⊎◌, true, false, arith, IsU64, add32}
use myworkspace.Recorder.Os.{Os, Ctx, Reason}
use myworkspace.Recorder.Idr.{backoff_ns, request_idr, second_ns}

module _ {W : Type 0} (os : Os W) where
  -- With a callback set, a request at `t1` that goes out is followed, at a later `t2`, by an unforced
  -- request exactly if the gap for the number of requests so far has passed: then the callback is
  -- called once with the stream and the reason, and time and count are taken down; otherwise nothing
  -- at all changes. The gap is never more than ten seconds.
  pub request_idr_gap :
      (c : Ctx W) (first second : Reason) (t1 t2 : ℕ)
      → c.r.has_request_idr ≡ true
      → 0 < t1
      → t1 ≤ t2
      → IsU64 t2
      → let c1 = request_idr os c first t1 true in
        let c2 = request_idr os c1 second t2 false in
        let gap = backoff_ns false c1.s.idr_request_count in
        (gap ≤ 10 * second_ns)
        × (((t2 - t1 < gap) × (c2 ≡ c1))
            ⊎ ((gap ≤ t2 - t1)
                × (c2.w
                    ≡ os.request_idr c.s.stream_id second (os.request_idr c.s.stream_id first c.w))
                × (c2.s.last_idr_request_ns ≡ t2)
                × (c2.s.idr_request_count ≡ add32 c1.s.idr_request_count 1)))
  unfolding request_idr backoff_ns
  request_idr_gap c first second t1 t2 cb pos le w = ground arith
