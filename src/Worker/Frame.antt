-- ===== src/Worker/Frame.antt =====
-- video_callbacks.c: `is_idr_frame`.
use myworkspace.Prelude.{
  ℕ, zero, suc, ◌+◌, ◌-◌, ◌%◌, List, length, Bool, true, false, ◌==◌, ◌&&◌, ltb, if◌then◌else◌,
}
use myworkspace.Protocol.{byte_at}

abbrev pub start_code4_at : List ℕ → ℕ → Bool
start_code4_at d i =
    byte_at d i == 0
    && (byte_at d (i + 1) == 0 && (byte_at d (i + 2) == 0 && byte_at d (i + 3) == 1))

abbrev pub start_code3_at : List ℕ → ℕ → Bool
start_code3_at d i = byte_at d i == 0 && (byte_at d (i + 1) == 0 && byte_at d (i + 2) == 1)

-- The loop from `i` on. It moves on by a byte at least, so as many rounds as there are bytes are enough.
unfoldable pub idr_scan : ℕ → List ℕ → ℕ → Bool
idr_scan zero d i = false
idr_scan (suc rounds) d i =
    let past4 = idr_scan rounds d (i + 4) in
    let past3 = idr_scan rounds d (i + 3) in
    let next = idr_scan rounds d (i + 1) in
    if ltb i (length d - 4)
    then if start_code4_at d i
      then if byte_at d (i + 4) % 32 == 5 then true else past4
      else if start_code3_at d i
      then if byte_at d (i + 3) % 32 == 5 then true else past3
      else next
    else false

unfoldable pub is_idr_frame : List ℕ → Bool
is_idr_frame d = if ltb (length d) 5 then false else idr_scan (length d) d 0
