-- ===== src/Auth/Tests.antt =====
-- Lines and sockets for the theorems of the check.
use myworkspace.Prelude.{
  ℕ, List, [], ◌∷◌, ◌++◌, ◌<◌, ◌≡◌, ◌↔◌, length, some, none, true, false, refl, arith,
}
use myworkspace.Auth.{AuthNet, AuthResult, token_limit, check_line, first_line, read_and_check}
use myworkspace.Auth.Line.{check_line_lem}
use myworkspace.Auth.Waits.{read_and_check-running}

abbrev word : List ℕ
word = b'k' ∷ b'e' ∷ b'y' ∷ []

check_line_lem_example :
    ((check_line (b'A' ∷ b'U' ∷ b'T' ∷ b'H' ∷ b' ' ∷ (word ++ (10 ∷ []))) word ≡ true)
      ↔ (word ≡ word))
    × ((line : List ℕ) → token_limit < length word → check_line line word ≡ false)
check_line_lem_example = check_line_lem word word (ground arith) (omega arith)

-- The peer has sent "AU" and waits.
abbrev waiting : AuthNet ℕ
waiting = record {
  set_recv_timeout_ms = λ fd ms w. ms;
  peek = λ fd n w. (some (b'A' ∷ b'U' ∷ []), w);
  recv = λ fd n w. (some (b'A' ∷ b'U' ∷ []), w);
}

begun : first_line (b'A' ∷ b'U' ∷ []) ≡ none
unfolding first_line
begun = refl

read_and_check-running_example :
    (read_and_check waiting 1000 4 (b'k' ∷ []) 3000 0).0 ≡ AuthResult.running
read_and_check-running_example =
    read_and_check-running waiting 4 (b'A' ∷ b'U' ∷ []) (λ w. refl) begun (omega arith) 1000 b'k' []
      3000 0
