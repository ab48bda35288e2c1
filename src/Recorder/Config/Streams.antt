-- ===== src/Recorder/Config/Streams.antt =====
-- compressed_recorder.c, `parse_streams_spec`: which streams a list selects.
use myworkspace.Prelude.{
  ℕ, zero, suc, ◌+◌, ◌-◌, ◌≡◌, refl, List, [], ◌∷◌, Bool, true, false, ◌&&◌, ◌||◌, ltb, leb, ◌==◌,
  if◌then◌else◌, arith, take, Bool-cases, inl, inr,
}
use myworkspace.Recorder.{update}
use myworkspace.Recorder.Params.{is_empty}
use myworkspace.Recorder.Config.{
  Scan, range, one, neither, skip_spaces, tokens, enable_from, enable_up_to, enable_scan,
  enable_item, enable_items, parse_streams_spec, means_all,
}

-- What an item means: a range in either order, or one number, cut to the streams 1 to `limit`.
abbrev pub selects : ℕ → Scan → ℕ → Bool
selects limit (range a b) i =
    (leb 1 i && leb i limit) && ((leb a i && leb i b) || (leb b i && leb i a))
selects limit (one a) i = (leb 1 i && leb i limit) && i == a
selects limit neither i = false

enable_from-eq :
    (n sid : ℕ) (enabled : ℕ → Bool) (i : ℕ)
    → enable_from n sid enabled i ≡ ((leb 1 i && (leb sid i && ltb i (sid + n))) || enabled i)
unfolding enable_from
enable_from-eq zero sid enabled i = ground arith
enable_from-eq (suc n) sid enabled i =
    ground
      (arith, enable_from-eq n (sid + 1) (if ltb 0 sid then update enabled sid true else enabled) i)

enable_scan-eq :
    (limit : ℕ) (s : Scan) (enabled : ℕ → Bool) (i : ℕ)
    → enable_scan limit s enabled i ≡ (selects limit s i || enabled i)
unfolding enable_scan enable_up_to
enable_scan-eq limit (range a b) enabled i = ground (
  arith,
  enable_from-eq ((if ltb limit b then limit else b) + 1 - a) a enabled i,
  enable_from-eq ((if ltb limit a then limit else a) + 1 - b) b enabled i,
)
enable_scan-eq limit (one a) enabled i = ground arith
enable_scan-eq limit neither enabled i = refl

module _ (scan : List ℕ → Scan) where
  abbrev pub item_selects : ℕ → List ℕ → ℕ → Bool
  item_selects limit item i =
      if is_empty (skip_spaces item) then false else selects limit (scan (skip_spaces item)) i

  abbrev pub any_selects : ℕ → List (List ℕ) → ℕ → Bool
  any_selects limit [] i = false
  any_selects limit (item ∷ items) i = item_selects limit item i || any_selects limit items i

  enable_items-eq :
      (limit : ℕ) (items : List (List ℕ)) (enabled : ℕ → Bool) (i : ℕ)
      → enable_items scan limit items enabled i ≡ (any_selects limit items i || enabled i)
  unfolding enable_items enable_item
  enable_items-eq limit [] enabled i = refl
  enable_items-eq limit (item ∷ items) enabled i = ground (
    arith,
    enable_items-eq limit items (enable_item scan limit item enabled) i,
    enable_scan-eq limit (scan (skip_spaces item)) enabled i,
  )

  -- A stream is enabled exactly if the list is empty, "all" or "*" and the stream is between 1 and
  -- the limit, or some item of the list selects it; no item selects a stream outside 1 to the limit.
  pub parse_streams_spec-eq :
      (limit : ℕ) (spec : List ℕ) (i : ℕ)
      → parse_streams_spec scan limit spec i ≡ (
          if means_all spec
          then leb 1 i && leb i limit
          else any_selects limit (tokens [] (take 255 spec)) i)
  unfolding parse_streams_spec
  parse_streams_spec-eq limit spec i = elim (Bool-cases (means_all spec)) [
    | inl all ↦ rw all (ground (arith, enable_from-eq limit 1 (λ j. false) i))
    | inr some ↦
        rw some (ground (arith, enable_items-eq limit (tokens [] (take 255 spec)) (λ j. false) i))
  ]
