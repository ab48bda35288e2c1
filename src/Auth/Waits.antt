-- ===== src/Auth/Waits.antt =====
-- auth.c: a line that is begun and not ended.
use myworkspace.Prelude.{ℕ, zero, suc, ◌<◌, ◌≡◌, List, ◌∷◌, length, none, some, arith, refl}
use myworkspace.Auth.{
  AuthNet, AuthResult, line_limit, first_line, on_peek, auth_loop, read_and_check,
}

module _ {W : Type 0} (net : AuthNet W) (fd : ℕ) (bytes : List ℕ) where
  auth_loop-running :
      ((w : W) → (net.peek fd line_limit w).0 ≡ some bytes)
      → first_line bytes ≡ none
      → length bytes < line_limit
      → (rounds : ℕ) (token : List ℕ) (w : W)
      → (auth_loop net rounds fd token w).0 ≡ AuthResult.running
  unfolding auth_loop on_peek
  auth_loop-running waits open_line short zero token w = refl
  auth_loop-running waits open_line short (suc rounds) token w =
      let (got, w1) = net.peek fd line_limit w in
      ground (arith, waits w, open_line, auth_loop-running waits open_line short rounds token w1)

  -- As long as the peer has sent some bytes without a line feed, fewer than 511, and sends no more, so
  -- that every peek finds them at once, the check does not return, whatever the timeout: no number of
  -- rounds ends it.
  pub read_and_check-running :
      ((w : W) → (net.peek fd line_limit w).0 ≡ some bytes)
      → first_line bytes ≡ none
      → length bytes < line_limit
      → (rounds x : ℕ) (token : List ℕ) (timeout_ms : ℕ) (w : W)
      → (read_and_check net rounds fd (x ∷ token) timeout_ms w).0 ≡ AuthResult.running
  unfolding read_and_check
  read_and_check-running waits open_line short rounds x token timeout_ms w =
      auth_loop-running waits open_line short rounds (x ∷ token) _
