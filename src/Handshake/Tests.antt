-- ===== src/Handshake/Tests.antt =====
-- A handshake in three pieces.
use myworkspace.Prelude.{ℕ, ◌≡◌, List, [], ◌∷◌, some, none, false, arith, refl}
use mathlib.Core.List.{flatten}
use myworkspace.Handshake.{Scanner, Fed, feed, lines, until_nul, trim_line, parse_sub_line}
use myworkspace.Handshake.Pieces.{feed_all, feed_all-flatten}

-- Every SUB line asks for stream 700.
abbrev scanner : Scanner
scanner = record { scan_sub = λ line. some 700; scan_int = λ line. none }

-- "AUTH k" in two pieces, with a carriage return, and the SUB line begun in the second.
abbrev pieces : List (List ℕ)
pieces =
    (b'A' ∷ b'U' ∷ [])
    ∷ (b'T' ∷ b'H' ∷ b' ' ∷ b'k' ∷ 13 ∷ 10 ∷ b'S' ∷ [])
    ∷ (b'U' ∷ b'B' ∷ b' ' ∷ b'7' ∷ 10 ∷ b'x' ∷ [])
    ∷ []

subscribed_last : feed_all scanner (b'k' ∷ []) (Fed.more false []) pieces ≡ Fed.subscribed 20
unfolding feed lines until_nul trim_line parse_sub_line
subscribed_last = refl

feed_all-flatten_example :
    feed_all scanner (b'k' ∷ []) (Fed.more false []) pieces
    ≡ feed scanner (b'k' ∷ []) false [] (flatten pieces)
feed_all-flatten_example = feed_all-flatten scanner (b'k' ∷ []) pieces false (
  (ground arith, (ground arith, tt)),
  (
    (
      ground arith,
      (
        ground arith,
        (ground arith, (ground arith, (ground arith, (ground arith, (ground arith, tt))))),
      ),
    ),
    (
      (
        ground arith,
        (ground arith, (ground arith, (ground arith, (ground arith, (ground arith, tt))))),
      ),
      tt,
    ),
  ),
)
