-- ===== src/Bridge/Frames/Replies.antt =====
-- stream_server/src/zmq_bridge.c: a request leaves every converted frame counted. What it holds itself it
-- hands to ZeroMQ or frees.
use myworkspace.Prelude.{
  ℕ, ◌-◌, ◌^◌, ◌≤◌, ◌<◌, ◌≡◌, sym, ap, ◌∙◌, List, Option, none, some, Bool, not, ◌&&◌, arith,
  if-holds, Option-cases, Bool-cases, inl, inr, All,
}
use myworkspace.Bridge.{BgrFrame, RoiRequest, ResolvedRoi, resolve_bgr_roi}
use myworkspace.Bridge.Crop.{crop_bgr_frame-resolved}
use myworkspace.Bridge.Frames.{
  Frames, Attempt, Calls, Reply, no_frame_yet, free_bgr_frame, new_frame, wait_for_frame,
  send_bgr_frame_owned, send_cropped, crop_reply, reply_region, reply_with, get_latest_bgr,
  release_message,
}
use myworkspace.Bridge.Frames.Counts.{
  IsFull, more, less, IsCounted, free-IsCounted, use-held, new_frame-IsCounted, cong-IsCounted,
}
use myworkspace.Bridge.Frames.Serves.{IsFound, GivesFull, free-sent, new_frame-sent, wait-IsFound}

more_less : (id : ℕ) (held : ℕ → ℕ) (j : ℕ) → less id (more id held) j ≡ held j
more_less id held j = ground arith

module _ (id : ℕ) {s : Frames} where
  free-Settled :
      IsCounted (more id s.sent) s → IsCounted (free_bgr_frame id s).sent (free_bgr_frame id s)
  free-Settled v =
      cong-IsCounted (less id (more id s.sent)) (free_bgr_frame id s).sent
        (λ j. more_less id s.sent j ∙ ap (λ (f : ℕ → ℕ). f j) (sym (free-sent id s)))
        (free-IsCounted v id (ground arith))

  send-Settled :
      (has_message : Bool)
      → IsCounted (more id s.sent) s
      → IsCounted
          (send_bgr_frame_owned has_message id s).sent
          (send_bgr_frame_owned has_message id s)
  unfolding send_bgr_frame_owned
  send-Settled has_message v =
      rw (use-held v id (ground arith), send_bgr_frame_owned)
        (if-holds (λ (t : Frames). IsCounted t.sent t) (not has_message) _ _ (λ _. free-Settled v)
          (λ _. record {
            counts = λ j. ground (arith, v.counts j);
            slots = v.slots;
            fresh = v.fresh;
            full = v.full;
            sound = v.sound;
          }))

-- A new frame that takes the place of one that the caller has.
replace-Settled :
    (id : ℕ) (f : BgrFrame) (has_message : Bool) {s : Frames}
    → IsFull f
    → IsCounted (more id s.sent) s
    → (let t = send_bgr_frame_owned has_message s.next (free_bgr_frame id (new_frame f s)) in
        IsCounted t.sent t)
replace-Settled id f has_message {s} whole v =
    let s1 = new_frame f s in
    send-Settled s.next has_message (
      cong-IsCounted (less id (more s.next (more id s.sent)))
        (more s.next (free_bgr_frame id s1).sent)
        (λ j.
          swapped j
          ∙ ap (λ (f : ℕ → ℕ). more s.next f j) (sym (free-sent id s1 ∙ new_frame-sent f s)))
        (free-IsCounted (new_frame-IsCounted v f whole) id (ground arith)))
  where
    swapped : (j : ℕ) → less id (more s.next (more id s.sent)) j ≡ more s.next s.sent j
    swapped j = ground arith

module _ (k : Calls) (req : RoiRequest) (id : ℕ) {s : Frames} where
  send_cropped-Settled :
      (roi : ResolvedRoi)
      → resolve_bgr_roi (s.frames id) req ≡ some roi
      → IsCounted (more id s.sent) s
      → IsCounted (send_cropped k roi id s).1.sent (send_cropped k roi id s).1
  unfolding send_cropped
  send_cropped-Settled roi e v =
      let cut = crop_bgr_frame-resolved (s.frames id) req e (v.full id) in
      rw (cut.2 k.has_buffer k.has_frame, send_cropped)
        (elim (Bool-cases (k.has_buffer && k.has_frame)) [
          | inl f ↦ rw f (replace-Settled id cut.0 k.has_message cut.1.full v)
          | inr f ↦ rw f (free-Settled id v)
        ])

  crop_reply-Settled :
      (roi : ResolvedRoi)
      → resolve_bgr_roi (s.frames id) req ≡ some roi
      → IsCounted (more id s.sent) s
      → IsCounted (crop_reply k roi id s).1.sent (crop_reply k roi id s).1
  unfolding crop_reply
  crop_reply-Settled roi e v = rw (use-held v id (ground arith)) (send_cropped-Settled roi e v)

  reply_region-Settled :
      IsCounted (more id s.sent) s
      → IsCounted (reply_region k req id s).1.sent (reply_region k req id s).1
  unfolding reply_region
  reply_region-Settled v = elim (Option-cases (resolve_bgr_roi (s.frames id) req)) [
    | inl e ↦ rw (e, reply_region) (free-Settled id v)
    | inr (roi, e) ↦
        rw (e, reply_region)
          (if-holds (λ (r : Reply × Frames). IsCounted r.1.sent r.1) roi.applied _ _
            (λ _. crop_reply-Settled roi e v) (λ _. send-Settled id k.has_message v))
  ]

  reply_with-Settled :
      IsCounted (more id s.sent) s
      → IsCounted (reply_with k req id s).1.sent (reply_with k req id s).1
  unfolding reply_with
  reply_with-Settled v = rw (use-held v id (ground arith)) (reply_region-Settled v)

pub get_latest_bgr-Settled :
    (k : Calls) (req : RoiRequest) (ts : List Attempt) {s : Frames}
    → All GivesFull ts
    → IsCounted s.sent s
    → ((id : ℕ) → s.sent id < 2 ^ 31 - 1)
    → IsCounted (get_latest_bgr k req ts s).1.sent (get_latest_bgr k req ts s).1
unfolding get_latest_bgr
get_latest_bgr-Settled k req ts {s} all v small =
    settled (wait_for_frame ts s) (wait-IsFound ts all v small)
  where
    settled :
        (r : Option ℕ × Frames)
        → IsFound s.sent s r
        → (let q : Reply × Frames = elim r.0 [
          | none ↦ (no_frame_yet, r.1)
          | some id ↦ reply_with k req id r.1
        ] in
            IsCounted q.1.sent q.1)
    settled (none, t) h = cong-IsCounted s.sent t.sent (λ j. ap (λ (f : ℕ → ℕ). f j) (sym h.1)) h.0
    settled (some id, t) h = reply_with-Settled k req id (
        cong-IsCounted (more id s.sent) (more id t.sent)
          (λ j. ap (λ (f : ℕ → ℕ). more id f j) (sym h.1)) h.0)

pub release_message-Settled :
    (id : ℕ) {s : Frames}
    → 1 ≤ s.sent id
    → IsCounted s.sent s
    → IsCounted (release_message id s).sent (release_message id s)
unfolding release_message
release_message-Settled id {s} lt v =
    let t = free_bgr_frame id s in
    let u = free-IsCounted v id lt in
    record {
      counts = λ j. ground (arith, u.counts j, ap (λ (f : ℕ → ℕ). f j) (free-sent id s));
      slots = u.slots;
      fresh = u.fresh;
      full = u.full;
      sound = u.sound;
    }
