-- ===== src/Tap/Scan/Sound.antt =====
-- h264_tap.c, `annexb_contains_nal_type`: what it finds is there, and its rounds suffice.
use myworkspace.Prelude.{
  ℕ, zero, suc, ◌+◌, ◌≤◌, ◌<◌, ◌≡◌, ◌⊎◌, ◌==◌, List, length, true, false, ltb, arith, ◌&&◌, not,
  Bool-cases, inl, inr, refl, sym,
}
use myworkspace.Protocol.{byte_at}
use myworkspace.Tap.Scan.{
  code3_at, code4_at, code_len_at, nal_type_of, scan, annexb_contains_nal_type,
}

-- A unit of the type behind a start code at `at`.
pub record HasUnit (p : List ℕ) (nal_type : ℕ) : Type 0 where
  pub at : ℕ
  pub len : ℕ
  pub code : ((len ≡ 3) × (code3_at p at ≡ true)) ⊎ ((len ≡ 4) × (code4_at p at ≡ true))
  pub inside : at + len < length p
  pub type : nal_type_of (byte_at p (at + len)) ≡ nal_type

scan-HasUnit :
    (rounds : ℕ) (p : List ℕ) (nal_type i : ℕ)
    → scan rounds p nal_type i ≡ true
    → HasUnit p nal_type
unfolding scan code_len_at
scan-HasUnit zero p nal_type i e = absurd (ground arith)
scan-HasUnit (suc rounds) p nal_type i e =
    let sc = code_len_at p i in
    elim (Bool-cases (
      not (sc == 0)
      && (ltb (i + sc) (length p) && (nal_type_of (byte_at p (i + sc)) == nal_type)))) [
        | inl h ↦ record {
          at = i;
          len = sc;
          code = ground arith;
          inside = ground arith;
          type = ground arith;
        }
        | inr h ↦ scan-HasUnit rounds p nal_type (i + sc + 1) (ground arith)
      ]

scan_past :
    (rounds : ℕ) (p : List ℕ) (nal_type i : ℕ) → length p ≤ i → scan rounds p nal_type i ≡ false
unfolding scan
scan_past zero p nal_type i past = refl
scan_past (suc rounds) p nal_type i past = ground arith

-- All numbers of rounds that cover the bytes left give the same.
scan_rounds :
    (a b : ℕ) (p : List ℕ) (nal_type i : ℕ)
    → length p ≤ i + a
    → length p ≤ i + b
    → scan a p nal_type i ≡ scan b p nal_type i
unfolding scan
scan_rounds zero b p nal_type i fa fb = sym (scan_past b p nal_type i (omega arith))
scan_rounds (suc a) zero p nal_type i fa fb = scan_past (suc a) p nal_type i (omega arith)
scan_rounds (suc a) (suc b) p nal_type i fa fb =
    let sc = code_len_at p i in ground (arith, scan_rounds a b p nal_type (i + sc + 1))

-- If a packet is said to contain a unit of a type, it has a start code of three or four bytes with a
-- byte of that type behind it, all inside the packet. More rounds of the loop than the packet has bytes
-- change nothing.
pub annexb_contains_nal_type_lem :
    (p : List ℕ) (nal_type : ℕ)
    → (annexb_contains_nal_type p nal_type ≡ true → HasUnit p nal_type)
      × ((rounds : ℕ)
          → 5 ≤ length p
          → length p ≤ rounds
          → scan rounds p nal_type 0 ≡ annexb_contains_nal_type p nal_type)
unfolding annexb_contains_nal_type
annexb_contains_nal_type_lem p nal_type = (
  λ e. scan-HasUnit (length p) p nal_type 0 (ground arith),
  λ rounds long enough. ground (arith, scan_rounds rounds (length p) p nal_type 0),
)
