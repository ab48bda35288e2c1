-- ===== src/Bridge/Roi.antt =====
-- stream_server/src/zmq_bridge.c: the resolved region is what the request and the frame share.
use myworkspace.Prelude.{
  ℕ, ◌+◌, ◌-◌, ◌*◌, ◌≤◌, ◌<◌, ◌≡◌, ◌↔◌, refl, Option, none, some, true, false, not, ◌&&◌, ◌||◌,
  ◌==◌, Bool, ltb, arith, length, if-holds,
}
use myworkspace.Prelude.Int.{ℤ, pos_part, pos, ◌+ℤ◌, ◌≤ℤ◌, +ℤ_parts, leb_ℤ}
use myworkspace.Bridge.{BgrFrame, RoiRequest, ResolvedRoi, near_edge, far_edge, resolve_bgr_roi}

-- The pixel in column `i` and row `j` lies in the region.
abbrev pub InRoi : ResolvedRoi → ℕ → ℕ → Type 0
InRoi r i j = (r.x ≤ i) × (i < r.x + r.w) × (r.y ≤ j) × (j < r.y + r.h)

abbrev pub InFrame : BgrFrame → ℕ → ℕ → Type 0
InFrame f i j = (i < f.width) × (j < f.height)

-- The point `i` of a span that starts at `at` and has `len` points.
abbrev pub InSpan : ℤ → ℤ → ℕ → Type 0
InSpan at len i = (at ≤ℤ pos i) × (pos (i + 1) ≤ℤ at +ℤ len)

abbrev pub InRequest : RoiRequest → ℕ → ℕ → Type 0
InRequest r i j = InSpan r.x r.w i × InSpan r.y r.h j

-- A resolved region is not empty and has the pixels that the frame and the request share, it is cut
-- out exactly if it is not the whole frame; with no region they share none.
abbrev pub IsShared : BgrFrame → RoiRequest → Option ResolvedRoi → Type 0
IsShared f r none = (i j : ℕ) → InFrame f i j → ¬ InRequest r i j
IsShared f r (some roi) =
    (0 < roi.w)
    × (0 < roi.h)
    × ((i j : ℕ) → InRoi roi i j ↔ (InFrame f i j × InRequest r i j))
    × ((roi.applied ≡ false) ↔ ((i j : ℕ) → InFrame f i j → InRoi roi i j))

-- A frame that the conversion made: not empty, rows of at least three bytes a pixel, and that many.
pub record IsWhole (f : BgrFrame) : Type 0 where
  pub wide : 0 < f.width
  pub high : 0 < f.height
  pub room : f.width * 3 ≤ f.stride
  pub full : length f.bgr ≡ f.stride * f.height

module _ (at len : ℤ) (size : ℕ) where
  -- The clamped span has the points of the frame that the request has.
  span_lem :
      (i : ℕ)
      → ((near_edge at ≤ i) × (pos (i + 1) ≤ℤ far_edge at len size))
        ↔ ((i < size) × InSpan at len i)
  unfolding near_edge far_edge ◌+ℤ◌
  span_lem i = ground arith

  span_empty : (i : ℕ) → far_edge at len size ≤ℤ pos (near_edge at) → i < size → ¬ InSpan at len i
  unfolding near_edge far_edge ◌+ℤ◌
  span_empty i e lt p = ground arith

span_none : (at len : ℤ) (i : ℕ) → len ≤ℤ pos 0 → ¬ InSpan at len i
span_none at len i e p = omega (arith, +ℤ_parts at len)

-- What the region has on one axis: `n` points from `at`, as many as the clamped span.
abbrev IsCut : ℤ → ℤ → ℕ → ℕ → ℕ → Type 0
IsCut at len size start n =
    (0 < n) × ((i : ℕ) → ((start ≤ i) × (i < start + n)) ↔ ((i < size) × InSpan at len i))

cut_lem :
    (at len : ℤ) (size : ℕ)
    → ¬ (far_edge at len size ≤ℤ pos (near_edge at))
    → IsCut at len size (near_edge at) (pos_part (far_edge at len size) - near_edge at)
cut_lem at len size h = (omega arith, λ i. ground (arith, span_lem at len size i))

module _ (f : BgrFrame) (r : RoiRequest) where
  cuts-IsShared :
      (x y w h sw sh : ℕ) (applied : Bool)
      → IsCut r.x r.w f.width x w
      → IsCut r.y r.h f.height y h
      → 0 < f.width
      → 0 < f.height
      → applied ≡ not (x == 0 && y == 0 && w == f.width && h == f.height)
      → IsShared f r (
          some (record {
            x = x;
            y = y;
            w = w;
            h = h;
            source_width = sw;
            source_height = sh;
            applied = applied;
          }))
  cuts-IsShared x y w h sw sh applied cx cy fw fh e = (
    cx.0,
    cy.0,
    λ i j. ground (arith, cx.1 i, cy.1 j),
    (
      λ whole i j p. ground arith,
      λ all.
          let first = all 0 0 (fw, fh) in
          let last = all (f.width - 1) (f.height - 1) (omega arith, omega arith) in
          let wide = ((cx.1 (x + w - 1)).0 (omega arith, omega arith)).0 in
          let high = ((cy.1 (y + h - 1)).0 (omega arith, omega arith)).0 in ground arith,
    ),
  )

  -- The region that a request resolves to, at any frame whose rows hold their pixels: every
  -- pixel of it is one that the frame and the request share, and each of these is in it.
  pub resolve_bgr_roi-IsShared :
      0 < f.width
      → 0 < f.height
      → f.width * 3 ≤ f.stride
      → r.requested ≡ true
      → IsShared f r (resolve_bgr_roi f r)
  unfolding resolve_bgr_roi
  resolve_bgr_roi-IsShared fw fh room asked =
      if-holds (IsShared f r) (f.width == 0 || f.height == 0 || ltb f.stride (f.width * 3)) _ _
        (λ e. absurd (ground arith))
        (λ _.
          if-holds (IsShared f r) (not r.requested) _ _ (λ e. absurd (ground arith))
            (λ _.
              if-holds (IsShared f r) (leb_ℤ r.w (pos 0) || leb_ℤ r.h (pos 0)) _ _
                (λ e i j _ p. ground (arith, span_none r.x r.w i, span_none r.y r.h j))
                (λ _.
                  if-holds (IsShared f r)
                    (leb_ℤ (far_edge r.x r.w f.width) (pos (near_edge r.x))
                      || leb_ℤ (far_edge r.y r.h f.height) (pos (near_edge r.y)))
                    _ _
                    (λ e i j q p.
                      ground (arith, span_empty r.x r.w f.width i, span_empty r.y r.h f.height j))
                    (λ e.
                      cuts-IsShared _ _ _ _ f.width f.height _
                        (cut_lem r.x r.w f.width (λ q. ground arith))
                        (cut_lem r.y r.h f.height (λ q. ground arith)) fw fh refl))))
