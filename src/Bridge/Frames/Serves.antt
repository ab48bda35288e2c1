-- ===== src/Bridge/Frames/Serves.antt =====
-- stream_server/src/zmq_bridge.c: the search for a frame, in the cache or by a conversion, leaves every
-- frame counted, the one that it finds as the caller's.
use myworkspace.Prelude.{
  ℕ, ◌-◌, ◌^◌, ◌<◌, ◌≡◌, refl, ◌∙◌, List, [], ◌∷◌, Option, none, some, not, ◌||◌, ◌==◌, ltb, arith,
  if-holds, Option-cases, inl, inr, All, length, ◌*◌,
}
use myworkspace.Recorder.{update}
use myworkspace.Bridge.{BgrFrame}
use myworkspace.Bridge.Frames.{
  Frames, Snapshot, Converted, Attempt, free_bgr_frame, retain_bgr_frame, new_frame, bgr_frame,
  free_old, keep_in_cache, keep_converted, convert, cached, read_cached, use_bgr_frame,
  convert_last_frame_to_bgr, wait_for_frame,
}
use myworkspace.Bridge.Frames.Counts.{
  IsFull, more, IsCounted, retain-IsCounted, use-cached, new_frame-IsCounted, next_not_cached,
  keep_in_cache-IsCounted,
}

pub free-sent : (id : ℕ) (s : Frames) → (free_bgr_frame id s).sent ≡ s.sent
unfolding free_bgr_frame
free-sent id s = ground arith

retain-sent : (id : ℕ) (s : Frames) → (retain_bgr_frame id s).sent ≡ s.sent
unfolding retain_bgr_frame
retain-sent id s = ground arith

pub new_frame-sent : (f : BgrFrame) (s : Frames) → (new_frame f s).sent ≡ s.sent
unfolding new_frame
new_frame-sent f s = refl

free_old-sent : (o : Option ℕ) (s : Frames) → (free_old o s).sent ≡ s.sent
unfolding free_old
free_old-sent none s = refl
free_old-sent (some old) s = free-sent old s

keep_in_cache-sent : (sid id : ℕ) (s : Frames) → (keep_in_cache sid id s).sent ≡ s.sent
unfolding keep_in_cache
keep_in_cache-sent sid id s =
    let s1 = record s { cache = update s.cache sid (some id) } in
    free_old-sent (s.cache sid) (retain_bgr_frame id s1) ∙ retain-sent id s1

cached_slot :
    (a : Snapshot) (s : Frames) (id : ℕ) → cached a s ≡ some id → s.cache a.stream_id ≡ some id
unfolding cached
cached_slot a s id e = ground (arith, Option-cases (s.cache a.stream_id))

-- The decoder's conversion gives as many rows as it says, of the length that it says.
abbrev pub GivesFull : Attempt → Type 0
GivesFull t =
    (c : Converted) (bytes : List ℕ)
    → t.converted ≡ some c
    → c.bgr ≡ some bytes
    → length bytes ≡ c.stride * c.height

-- A frame that was found is the caller's, and ZeroMQ holds what it held.
abbrev pub IsFound : (ℕ → ℕ) → Frames → Option ℕ × Frames → Type 0
IsFound held s (none, t) = IsCounted held t × (t.sent ≡ s.sent)
IsFound held s (some id, t) = IsCounted (more id held) t × (t.sent ≡ s.sent)

module _ {held : ℕ → ℕ} {s : Frames} (v : IsCounted held s)
    (small : (id : ℕ) → held id < 2 ^ 31 - 1) where
  keep_converted-IsFound :
      (sid : ℕ) (f : BgrFrame)
      → f.stream_id ≡ sid
      → IsFull f
      → IsFound held s (keep_converted sid f s)
  unfolding keep_converted
  keep_converted-IsFound sid f own whole =
      let fresh = new_frame-IsCounted v f whole in
      if-holds (λ (t : Frames). IsFound held s (some s.next, t)) (ltb sid s.cache_count) _ _
        (λ slot. (
          keep_in_cache-IsCounted fresh sid s.next (unfold new_frame in ground (arith, own))
              (unfold new_frame in omega arith) (ground arith) (ground (arith, small s.next))
              (unfold new_frame in next_not_cached v sid) (unfold new_frame in ground arith),
          keep_in_cache-sent sid s.next (new_frame f s) ∙ unfold new_frame in refl,
        ))
        (λ _. (fresh, unfold new_frame in refl))

  convert-IsFound : (a : Snapshot) (t : Attempt) → GivesFull t → IsFound held s (convert a t s)
  unfolding bgr_frame convert
  convert-IsFound a t gives = elim (Option-cases t.converted) [
    | inl e ↦ rw (e, convert) (v, refl)
    | inr (c, e) ↦ elim (Option-cases c.bgr) [
      | inl f ↦
          rw (e, convert)
            (if-holds (IsFound held s) (not t.has_frame) _ _ (λ _. (v, refl)) (λ _. rw f (v, refl)))
      | inr (bytes, f) ↦
          rw (e, convert)
            (if-holds (IsFound held s) (not t.has_frame) _ _ (λ _. (v, refl))
              (λ _. rw f (
                keep_converted-IsFound a.stream_id (bgr_frame a c bytes t.now) refl
                  (gives c bytes e f))))
    ]
  ]

  -- A frame that the cache has can be retained.
  cached-IsFound :
      (a : Snapshot) (id : ℕ)
      → cached a s ≡ some id
      → IsFound held s (some id, retain_bgr_frame id s)
  cached-IsFound a id e = (
    retain-IsCounted v id
        (let slot = cached_slot a s id e in
          ground (arith, v.counts id, slot, v.slots a.stream_id id slot))
        (omega (arith, small id)),
    retain-sent id s,
  )

  read_cached-same : (a : Snapshot) → read_cached a s ≡ s
  unfolding read_cached
  read_cached-same a =
      if-holds (λ (t : Frames). t ≡ s) (not (ltb a.stream_id s.cache_count)) _ _ (λ _. refl)
        (λ _.
          elim (Option-cases (s.cache a.stream_id))
            as (λ _. elim (s.cache a.stream_id) [ none ↦ s | some id ↦ use_bgr_frame id s ] ≡ s) [
              | inl e ↦ rw e refl
              | inr (id, e) ↦ rw e (use-cached v a.stream_id id e)
            ])

  last-IsFound : (t : Attempt) → GivesFull t → IsFound held s (convert_last_frame_to_bgr t s)
  unfolding convert_last_frame_to_bgr
  last-IsFound t gives = elim (Option-cases t.last) [
    | inl e ↦ rw (e, convert_last_frame_to_bgr) (v, refl)
    | inr (a, e) ↦
        rw (e, convert_last_frame_to_bgr)
          (if-holds (IsFound held s) (a.width == 0 || a.height == 0 || not t.has_ref) _ _
            (λ _. (v, refl))
            (λ _. elim (Option-cases (cached a s)) [
              | inl f ↦ rw (f, read_cached-same a) (convert-IsFound a t gives)
              | inr (id, f) ↦ rw (f, read_cached-same a) (cached-IsFound a id f)
            ]))
  ]

pub wait-IsFound :
    {held : ℕ → ℕ} (ts : List Attempt) {s : Frames}
    → All GivesFull ts
    → IsCounted held s
    → ((id : ℕ) → held id < 2 ^ 31 - 1)
    → IsFound held s (wait_for_frame ts s)
unfolding wait_for_frame
wait-IsFound [] all v small = (v, refl)
wait-IsFound {held} (t ∷ ts) {s = s} all v small =
    first (convert_last_frame_to_bgr t s) (last-IsFound v small t all.0)
      (λ t1 v1. wait-IsFound ts {s = t1} all.1 v1 small)
  where
    first :
        (r : Option ℕ × Frames)
        → IsFound held s r
        → ((t1 : Frames) → IsCounted held t1 → IsFound held t1 (wait_for_frame ts t1))
        → IsFound held s (elim r.0 [ some id ↦ (some id, r.1) | none ↦ wait_for_frame ts r.1 ])
    first (some id, t1) h ih = h
    first (none, t1) h ih = later (wait_for_frame ts t1) (ih t1 h.0)
      where
        later : (q : Option ℕ × Frames) → IsFound held t1 q → IsFound held s q
        later (none, u) k = (k.0, k.1 ∙ h.1)
        later (some id, u) k = (k.0, k.1 ∙ h.1)
