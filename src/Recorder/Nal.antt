-- ===== src/Recorder/Nal.antt =====
-- compressed_recorder.c: the search for start codes and the walk over a payload's NAL units.
-- `SIZE_MAX` as a position is `none`. The length that the C functions take beside the buffer is the
-- length of the list.
pub mod Scan
use myworkspace.Prelude.{
  ℕ, zero, suc, ◌+◌, ◌-◌, ◌≤◌, ◌<◌, List, [], ◌∷◌, Option, none, some, Bool, true, false, ◌&&◌, leb,
  ltb, ◌==◌, if◌then◌else◌, length, take, drop, is_some,
}
use myworkspace.Protocol.{byte_at}

abbrev pub is_start_code3 : List ℕ → ℕ → Bool
is_start_code3 d i = byte_at d i == 0 && byte_at d (i + 1) == 0 && byte_at d (i + 2) == 1

abbrev pub is_start_code4 : List ℕ → ℕ → Bool
is_start_code4 d i =
    byte_at d i == 0 && byte_at d (i + 1) == 0 && byte_at d (i + 2) == 0 && byte_at d (i + 3) == 1

unfoldable pub start_code_len_at : List ℕ → ℕ → ℕ
start_code_len_at d pos =
    if leb (pos + 3) (length d) && is_start_code3 d pos
    then 3
    else if leb (pos + 4) (length d) && is_start_code4 d pos
    then 4
    else 0

-- The `for` loop, with a bound on its rounds.
unfoldable pub find_loop : ℕ → List ℕ → ℕ → Option (ℕ × ℕ)
find_loop zero d i = none
find_loop (suc k) d i =
    let rest = find_loop k d (i + 1) in
    if leb (i + 3) (length d)
    then (if ltb 0 (start_code_len_at d i) then some (i, start_code_len_at d i) else rest)
    else none

-- The position of the first start code from `start` on, and its length. `length d` rounds are
-- enough, since the loop ends where fewer than three bytes are left.
unfoldable pub find_start_code : List ℕ → ℕ → Option (ℕ × ℕ)
find_start_code d start = find_loop (length d) d start

unfoldable pub payload_has_start_code : List ℕ → Bool
payload_has_start_code d = is_some (find_start_code d 0)

-- `while (nal_end > nal_start && data[nal_end - 1] == 0) nal_end--;`
unfoldable pub trim_end : List ℕ → ℕ → ℕ → ℕ
trim_end d nal_start zero = zero
trim_end d nal_start (suc e) =
    let rest = trim_end d nal_start e in
    if ltb nal_start (suc e) && byte_at d e == 0 then rest else suc e

-- `data + nal_start`, `nal_end - nal_start` bytes of it.
abbrev pub slice : List ℕ → ℕ → ℕ → List ℕ
slice d nal_start nal_end = take (nal_end - nal_start) (drop nal_start d)
