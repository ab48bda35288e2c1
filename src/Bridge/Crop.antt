-- ===== src/Bridge/Crop.antt =====
-- stream_server/src/zmq_bridge.c: `crop_bgr_frame`, which copies a region row by row, and that it reads
-- inside the source buffer and copies each pixel from where it was. Whether the two allocations succeed
-- is an argument; the buffer of a frame is there.
use myworkspace.Prelude.{
  ℕ, zero, suc, ◌+◌, ◌-◌, ◌*◌, ◌≤◌, ◌<◌, ◌≡◌, refl, List, [], ◌∷◌, ◌++◌, Option, none, some, Bool,
  not, ◌&&◌, ◌||◌, ◌==◌, arith, ltb, if◌then◌else◌, length, take, drop, get_or, length-append,
  length-take, length-drop, inl, inr, Bool-cases, subst,
}
use myworkspace.Bridge.{BgrFrame, RoiRequest, ResolvedRoi, read_at, resolve_bgr_roi}
use myworkspace.Bridge.Roi.{IsWhole, IsShared, resolve_bgr_roi-IsShared}

-- `overrun` is a read outside the source buffer.
pub data Crop : Type 0 where
  cropped : BgrFrame → Crop
  refused : Crop
  overrun : Crop

-- The loop over the rows, from `row` on; `line` is the bytes of one.
unfoldable pub crop_rows : List ℕ → ℕ → ℕ → ℕ → ℕ → ℕ → Option (List ℕ)
crop_rows src stride first line row zero = some []
crop_rows src stride first line row (suc left) = elim (read_at (row * stride + first) line src) [
  | none ↦ none
  | some bytes ↦ elim (crop_rows src stride first line (row + 1) left) [
    | none ↦ none
    | some rest ↦ some (bytes ++ rest)
  ]
]

unfoldable pub crop_bgr_frame : Bool → Bool → BgrFrame → ResolvedRoi → Crop
crop_bgr_frame has_buffer has_frame f roi =
    if roi.w == 0 || roi.h == 0 || ltb f.stride (f.width * 3)
    then refused
    else if not has_buffer
    then refused
    else elim (crop_rows f.bgr f.stride (roi.x * 3) (roi.w * 3) roi.y roi.h) [
      | none ↦ overrun
      | some bgr ↦
          if not has_frame
          then refused
          else cropped (record f {
            width = roi.w;
            height = roi.h;
            stride = roi.w * 3;
            source_width = roi.source_width;
            source_height = roi.source_height;
            roi_x = roi.x;
            roi_y = roi.y;
            bgr = bgr;
          })
    ]

get_or-take : (n i : ℕ) (xs : List ℕ) → i < n → get_or (take n xs) i 0 ≡ get_or xs i 0
get_or-take zero i xs h = absurd (omega arith)
get_or-take (suc n) i [] h = refl
get_or-take (suc n) zero (x ∷ xs) h = refl
get_or-take (suc n) (suc i) (x ∷ xs) h = get_or-take n i xs (omega arith)

get_or-drop : (m i : ℕ) (xs : List ℕ) → get_or (drop m xs) i 0 ≡ get_or xs (m + i) 0
get_or-drop zero i xs = ground arith
get_or-drop (suc m) i [] = refl
get_or-drop (suc m) i (x ∷ xs) = ground (arith, get_or-drop m i xs)

get_or-append :
    (xs ys : List ℕ) (i : ℕ)
    → get_or (xs ++ ys) i 0
      ≡ (if ltb i (length xs) then get_or xs i 0 else get_or ys (i - length xs) 0)
get_or-append [] ys i = ground arith
get_or-append (x ∷ xs) ys zero = ground arith
get_or-append (x ∷ xs) ys (suc i) = ground (arith, get_or-append xs ys i)

-- A read inside the buffer gives the bytes that are there.
read_at_lem :
    (at n : ℕ) (xs : List ℕ)
    → at + n ≤ length xs
    → (ys : List ℕ) × (read_at at n xs ≡ some ys)
      × (length ys ≡ n)
      × ((i : ℕ) → i < n → get_or ys i 0 ≡ get_or xs (at + i) 0)
unfolding read_at
read_at_lem at n xs h = (
  take n (drop at xs),
  ground arith,
  omega (arith, length-take n (drop at xs), length-drop at xs),
  λ i p. rw (get_or-take n i (drop at xs) p) (get_or-drop at i xs),
)

module _ (src : List ℕ) (stride first line : ℕ) where
  -- The bytes of the rows from `row` on, `left` of them.
  abbrev IsRows : ℕ → ℕ → List ℕ → Type 0
  IsRows row left ys =
      (length ys ≡ left * line)
      × ((r i : ℕ)
          → r < left
          → i < line
          → get_or ys (r * line + i) 0 ≡ get_or src ((row + r) * stride + first + i) 0)

  row-IsRows :
      (row left : ℕ) (bytes rest : List ℕ)
      → length bytes ≡ line
      → ((i : ℕ) → i < line → get_or bytes i 0 ≡ get_or src (row * stride + first + i) 0)
      → IsRows (row + 1) left rest
      → IsRows row (suc left) (bytes ++ rest)
  row-IsRows row left bytes rest len at next =
      (grind (arith, length-append bytes rest), λ r i p q. after r i p q)
    where
      after :
          (r i : ℕ)
          → r < suc left
          → i < line
          → get_or (bytes ++ rest) (r * line + i) 0 ≡ get_or src ((row + r) * stride + first + i) 0
      after zero i p q = ground (arith, get_or-append bytes rest i, at i)
      after (suc r) i p q =
          let shift : suc r * line + i ≡ line + (r * line + i) = grind arith in
          let down : row + suc r ≡ row + 1 + r = omega arith in
          rw (shift, down)
            (ground
              (arith, get_or-append bytes rest (line + (r * line + i)), next.1 r i (omega arith) q))

  crop_rows-suc :
      (row left : ℕ) {bytes rest : List ℕ}
      → read_at (row * stride + first) line src ≡ some bytes
      → crop_rows src stride first line (row + 1) left ≡ some rest
      → crop_rows src stride first line row (suc left) ≡ some (bytes ++ rest)
  unfolding crop_rows
  crop_rows-suc row left e f = ground arith

  crop_rows_lem :
      (left row : ℕ)
      → first + line ≤ stride
      → (row + left) * stride ≤ length src
      → (ys : List ℕ) × (crop_rows src stride first line row left ≡ some ys) × IsRows row left ys
  unfolding crop_rows
  crop_rows_lem zero row fits room = ([], refl, (omega arith, λ r i p. absurd (omega arith)))
  crop_rows_lem (suc left) row fits room =
      let read = read_at_lem (row * stride + first) line src (grind arith) in
      let rest = crop_rows_lem left (row + 1) fits (grind arith) in
      (
        read.0 ++ rest.0,
        crop_rows-suc row left read.1 rest.1,
        row-IsRows row left read.0 rest.0 read.2 read.3 rest.2,
      )

-- A region inside the frame.
abbrev pub Inside : BgrFrame → ResolvedRoi → Type 0
Inside f roi = (0 < roi.w) × (0 < roi.h) × (roi.x + roi.w ≤ f.width) × (roi.y + roi.h ≤ f.height)

-- What cutting a region out of a frame gives: its sizes, rows without padding, and each byte of a
-- pixel, `i` its number in the row, from where the frame has it.
pub record IsRegion (f : BgrFrame) (roi : ResolvedRoi) (g : BgrFrame) : Type 0 where
  pub width : g.width ≡ roi.w
  pub height : g.height ≡ roi.h
  pub stride : g.stride ≡ roi.w * 3
  pub full : length g.bgr ≡ g.stride * g.height
  pub bytes :
      (r i : ℕ)
      → r < roi.h
      → i < roi.w * 3
      → get_or g.bgr (r * g.stride + i) 0
        ≡ get_or f.bgr ((roi.y + r) * f.stride + (roi.x * 3 + i)) 0

rows_fit : (a b s : ℕ) → a ≤ b → a * s ≤ s * b
rows_fit a b s h = grind arith

module _ (f : BgrFrame) (roi : ResolvedRoi) (v : IsWhole f) (inside : Inside f roi) where
  copied_bytes :
      (ys : List ℕ) × (crop_rows f.bgr f.stride (roi.x * 3) (roi.w * 3) roi.y roi.h ≡ some ys)
      × IsRows f.bgr f.stride (roi.x * 3) (roi.w * 3) roi.y roi.h ys
  copied_bytes =
      crop_rows_lem f.bgr f.stride (roi.x * 3) (roi.w * 3) roi.h roi.y (omega (arith, v.room))
        (rw v.full (rows_fit (roi.y + roi.h) f.height f.stride inside.3))

  region : BgrFrame
  region = record f {
    width = roi.w;
    height = roi.h;
    stride = roi.w * 3;
    source_width = roi.source_width;
    source_height = roi.source_height;
    roi_x = roi.x;
    roi_y = roi.y;
    bgr = copied_bytes.0;
  }

  region-IsRegion : IsRegion f roi region
  unfolding region
  region-IsRegion = record {
    width = refl;
    height = refl;
    stride = refl;
    full = grind (arith, copied_bytes.2);
    bytes = λ r i p q. ground (arith, copied_bytes.2.1 r i p q);
  }

  crop_inside :
      (has_buffer has_frame : Bool)
      → crop_bgr_frame has_buffer has_frame f roi
        ≡ (if has_buffer && has_frame then cropped region else refused)
  unfolding crop_bgr_frame region
  crop_inside has_buffer has_frame = ground (arith, v.room, copied_bytes.1)

shared-Inside :
    (f : BgrFrame) (r : RoiRequest) (roi : ResolvedRoi) → IsShared f r (some roi) → Inside f roi
shared-Inside f r roi s =
    let corner = (s.2 (roi.x + roi.w - 1) (roi.y + roi.h - 1)).0 (omega (arith, s.0, s.1)) in
    omega (arith, s.0, s.1, corner)

module _ (f : BgrFrame) (r : RoiRequest) {roi : ResolvedRoi}
    (e : resolve_bgr_roi f r ≡ some roi) where
  resolved-sizes : (0 < f.width) × (0 < f.height) × (f.width * 3 ≤ f.stride)
  unfolding resolve_bgr_roi
  resolved-sizes = ground arith

  resolved-Inside : Inside f roi
  resolved-Inside = elim (Bool-cases r.requested) [
    | inl asked ↦ shared-Inside f r roi (
        subst (IsShared f r) e
          (resolve_bgr_roi-IsShared f r resolved-sizes.0 resolved-sizes.1 resolved-sizes.2 asked))
    | inr plain ↦ unfold resolve_bgr_roi in ground (arith, resolved-sizes)
  ]

  -- Cutting out of a frame, whose buffer has the rows that its sizes tell, the region that a request
  -- resolved to reads inside the buffer: where both allocations succeed it gives that region with
  -- every pixel's bytes, and else it is refused.
  pub crop_bgr_frame-resolved :
      length f.bgr ≡ f.stride * f.height
      → (g : BgrFrame) × IsRegion f roi g
        × ((has_buffer has_frame : Bool)
            → crop_bgr_frame has_buffer has_frame f roi
              ≡ (if has_buffer && has_frame then cropped g else refused))
  crop_bgr_frame-resolved full =
      let v : IsWhole f = record {
        wide = resolved-sizes.0;
        high = resolved-sizes.1;
        room = resolved-sizes.2;
        full = full;
      } in
      (
        region f roi v resolved-Inside,
        region-IsRegion f roi v resolved-Inside,
        crop_inside f roi v resolved-Inside,
      )
