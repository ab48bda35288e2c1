-- ===== src/Tap/Scan.antt =====
-- h264_tap.c: looking for start codes and for the type of a NAL unit.
pub mod Sound
use myworkspace.Prelude.{
  ℕ, zero, suc, ◌+◌, ◌%◌, List, [], ◌∷◌, length, Bool, true, false, not, ◌&&◌, ◌||◌, ◌==◌, leb, ltb,
  if◌then◌else◌,
}
use myworkspace.Protocol.{byte_at}

-- Three bytes 0 0 1, or four bytes 0 0 0 1, at `i`.
abbrev pub code3_at : List ℕ → ℕ → Bool
code3_at p i = byte_at p i == 0 && (byte_at p (i + 1) == 0 && byte_at p (i + 2) == 1)

abbrev pub code4_at : List ℕ → ℕ → Bool
code4_at p i =
    byte_at p i == 0
    && (byte_at p (i + 1) == 0 && (byte_at p (i + 2) == 0 && byte_at p (i + 3) == 1))

unfoldable pub has_start_code : List ℕ → Bool
has_start_code p = (leb 4 (length p) && code4_at p 0) || (leb 3 (length p) && code3_at p 0)

-- `sc` of the loop; 0 where there is no start code.
unfoldable pub code_len_at : List ℕ → ℕ → ℕ
code_len_at p i = if code3_at p i then 3 else if code4_at p i then 4 else 0

-- `& 0x1F`.
abbrev pub nal_type_of : ℕ → ℕ
nal_type_of byte = byte % 32

-- The loop from `i` on, at most `rounds` of it.
unfoldable pub scan : ℕ → List ℕ → ℕ → ℕ → Bool
scan zero p nal_type i = false
scan (suc rounds) p nal_type i =
    let sc = code_len_at p i in
    let skipped = scan rounds p nal_type (i + sc + 1) in
    if not (ltb (i + 4) (length p))
    then false
    else if not (sc == 0)
        && (ltb (i + sc) (length p) && (nal_type_of (byte_at p (i + sc)) == nal_type))
    then true
    else skipped

-- Each round moves on, so as many rounds as there are bytes are enough.
unfoldable pub annexb_contains_nal_type : List ℕ → ℕ → Bool
annexb_contains_nal_type p nal_type =
    if ltb (length p) 5 then false else scan (length p) p nal_type 0
