-- ===== src/Bridge/Frames/Counts.antt =====
-- stream_server/src/zmq_bridge.c: every reference to a converted frame is counted.
use myworkspace.Prelude.{
  ℕ, ◌+◌, ◌-◌, ◌*◌, ◌%◌, ◌^◌, ◌≤◌, ◌<◌, ◌≡◌, refl, Option, none, some, false, arith, ◌==◌,
  if◌then◌else◌, if-holds, Option-cases, inl, inr, length,
}
use myworkspace.Recorder.{update}
use myworkspace.Bridge.{BgrFrame}
use myworkspace.Bridge.Frames.{
  Frames, free_bgr_frame, use_bgr_frame, retain_bgr_frame, new_frame, free_old, keep_in_cache,
}

-- Whether a slot of the cache holds a frame, as a number.
abbrev pub holds : Option ℕ → ℕ → ℕ
holds none id = 0
holds (some j) id = if j == id then 1 else 0

abbrev pub in_cache : Frames → ℕ → ℕ
in_cache s id = holds (s.cache (s.frames id).stream_id) id

-- One reference more, or less, to a frame.
abbrev pub more : ℕ → (ℕ → ℕ) → ℕ → ℕ
more id held j = if id == j then held j + 1 else held j

abbrev pub less : ℕ → (ℕ → ℕ) → ℕ → ℕ
less id held j = if id == j then held j - 1 else held j

-- The buffer has the rows that the sizes tell.
abbrev pub IsFull : BgrFrame → Type 0
IsFull f = length f.bgr ≡ f.stride * f.height

-- The counts are right, and the buffers are full, where `held` counts the references from outside the cache.
pub record IsCounted (held : ℕ → ℕ) (s : Frames) : Type 0 where
  pub counts : (id : ℕ) → s.refs id ≡ in_cache s id + held id
  pub slots :
      (sid id : ℕ)
      → s.cache sid ≡ some id
      → ((s.frames id).stream_id ≡ sid) × (id < s.next) × (sid < s.cache_count)
  pub fresh : (id : ℕ) → s.next ≤ id → s.refs id ≡ 0
  pub full : (id : ℕ) → IsFull (s.frames id)
  pub sound : s.faulted ≡ false

-- A frame that somebody holds can be read.
pub use-held :
    {held : ℕ → ℕ} {s : Frames} → IsCounted held s → (id : ℕ) → 1 ≤ held id → use_bgr_frame id s ≡ s
unfolding use_bgr_frame
use-held v id lt = ground (arith, v.counts id)

-- And so can one in the cache.
pub use-cached :
    {held : ℕ → ℕ} {s : Frames}
    → IsCounted held s
    → (sid id : ℕ) → s.cache sid ≡ some id
    → use_bgr_frame id s ≡ s
unfolding use_bgr_frame
use-cached v sid id e = ground (arith, v.counts id, v.slots sid id e)

in_cache_le : (s : Frames) (id : ℕ) → in_cache s id ≤ 1
in_cache_le s id = holds_le (s.cache (s.frames id).stream_id) id
  where
    holds_le : (o : Option ℕ) (id : ℕ) → holds o id ≤ 1
    holds_le none id = omega arith
    holds_le (some j) id = ground arith

module _ {held : ℕ → ℕ} {s : Frames} (v : IsCounted held s) (id : ℕ) where
  pub free-IsCounted : 1 ≤ held id → IsCounted (less id held) (free_bgr_frame id s)
  unfolding free_bgr_frame
  free-IsCounted lt =
      if-holds (IsCounted (less id held)) (s.refs id == 0) _ _
        (λ e. absurd (ground (arith, v.counts id)))
        (λ e. record {
          counts = λ j. ground (arith, v.counts j, v.counts id);
          slots = v.slots;
          fresh = λ j le. ground (arith, v.fresh j le);
          full = v.full;
          sound = v.sound;
        })

  pub retain-IsCounted :
      1 ≤ s.refs id → held id < 2 ^ 31 → IsCounted (more id held) (retain_bgr_frame id s)
  unfolding retain_bgr_frame
  retain-IsCounted lt small =
      if-holds (IsCounted (more id held)) (s.refs id == 0) _ _
        (λ e. absurd (ground (arith, v.counts id)))
        (λ e. record {
          counts = λ j. ground (arith, v.counts j, v.counts id, in_cache_le s id);
          slots = v.slots;
          fresh = λ j le. ground (arith, v.fresh j le);
          full = v.full;
          sound = v.sound;
        })

module _ {held : ℕ → ℕ} {s : Frames} (v : IsCounted held s) where
  -- No slot of the cache has a frame that is not there yet.
  pub next_not_cached : (sid : ℕ) → holds (s.cache sid) s.next ≡ 0
  next_not_cached sid = elim (Option-cases (s.cache sid)) [
    | inl e ↦ rw e refl
    | inr (id, e) ↦ rw e (ground (arith, (v.slots sid id e).1))
  ]

  pub new_frame-IsCounted : (f : BgrFrame) → IsFull f → IsCounted (more s.next held) (new_frame f s)
  unfolding new_frame
  new_frame-IsCounted f whole = record {
    counts = λ j. ground (
      arith,
      v.counts j,
      v.counts s.next,
      v.fresh s.next (omega arith),
      next_not_cached f.stream_id,
    );
    slots = λ sid id e. ground (arith, v.slots sid id e);
    fresh = λ j le. ground (arith, v.fresh j (omega arith));
    full = λ j. ground (arith, v.full j);
    sound = v.sound;
  }

pub cong-IsCounted :
    {s : Frames} (a b : ℕ → ℕ) → ((j : ℕ) → a j ≡ b j) → IsCounted a s → IsCounted b s
cong-IsCounted a b e v = record {
  counts = λ j. ground (arith, v.counts j, e j);
  slots = v.slots;
  fresh = v.fresh;
  full = v.full;
  sound = v.sound;
}

-- The reference of the slot that a frame takes over is one from outside, until it is freed.
pub with_old : Option ℕ → (ℕ → ℕ) → ℕ → ℕ
with_old none held = held
with_old (some old) held = more old held

module _ {held : ℕ → ℕ} {s : Frames} (v : IsCounted held s) (sid id : ℕ) where
  module _ (own : (s.frames id).stream_id ≡ sid) (there : id < s.next) (used : 1 ≤ held id)
      (small : held id < 2 ^ 31) (out : holds (s.cache sid) id ≡ 0)
      (slot : sid < s.cache_count) where
    abbrev slotted : Frames
    slotted = record s { cache = update s.cache sid (some id) }

    place-IsCounted :
        (o : Option ℕ) → s.cache sid ≡ o → IsCounted (with_old o held) (retain_bgr_frame id slotted)
    unfolding retain_bgr_frame with_old
    place-IsCounted o e =
        if-holds (IsCounted (with_old o held)) (s.refs id == 0) _ _
          (λ e. absurd (ground (arith, v.counts id)))
          (λ _. record {
            counts = placed_counts o e;
            slots = λ k j f. ground (arith, v.slots k j);
            fresh = λ j le. ground (arith, v.fresh j le);
            full = v.full;
            sound = v.sound;
          })
      where
        placed_counts :
            (o : Option ℕ)
            → s.cache sid ≡ o
            → (j : ℕ)
            → update s.refs id ((s.refs id + 1) % 2 ^ 32) j
              ≡ holds (update s.cache sid (some id) (s.frames j).stream_id) j + with_old o held j
        placed_counts none e j = ground (arith, v.counts j, v.counts id)
        placed_counts (some old) e j = ground (arith, v.counts j, v.counts id, v.slots sid old e)

-- A slot is emptied, its reference one from outside until it is freed.
pub drop_slot-IsCounted :
    {held : ℕ → ℕ} {s : Frames}
    → IsCounted held s
    → (sid : ℕ) (o : Option ℕ) → s.cache sid ≡ o
    → IsCounted (with_old o held) (record s { cache = update s.cache sid none })
unfolding with_old
drop_slot-IsCounted {held} {s} v sid o e = record {
  counts = dropped_counts o e;
  slots = λ k j f. ground (arith, v.slots k j);
  fresh = v.fresh;
  full = v.full;
  sound = v.sound;
}
  where
    dropped_counts :
        (o : Option ℕ)
        → s.cache sid ≡ o
        → (j : ℕ)
        → s.refs j ≡ holds (update s.cache sid none (s.frames j).stream_id) j + with_old o held j
    dropped_counts none e j = ground (arith, v.counts j)
    dropped_counts (some old) e j = ground (arith, v.counts j, v.slots sid old e)

-- Freeing what a slot had leaves the counts of before.
pub free_old-IsCounted :
    {held : ℕ → ℕ} {s : Frames} (o : Option ℕ)
    → IsCounted (with_old o held) s
    → IsCounted held (free_old o s)
unfolding with_old free_old
free_old-IsCounted none v = v
free_old-IsCounted {held} (some old) v =
    cong-IsCounted (less old (more old held)) held (λ j. ground arith)
      (free-IsCounted v old (ground arith))

module _ {held : ℕ → ℕ} {s : Frames} (v : IsCounted held s) (sid id : ℕ) where
  pub keep_in_cache-IsCounted :
      (s.frames id).stream_id ≡ sid
      → id < s.next
      → 1 ≤ held id
      → held id < 2 ^ 31
      → holds (s.cache sid) id ≡ 0
      → sid < s.cache_count
      → IsCounted held (keep_in_cache sid id s)
  unfolding keep_in_cache
  keep_in_cache-IsCounted own there used small out slot =
      free_old-IsCounted (s.cache sid)
        (place-IsCounted v sid id own there used small out slot (s.cache sid) refl)
