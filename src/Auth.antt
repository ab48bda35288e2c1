-- ===== src/Auth.antt =====
-- strem_agent_server/src/auth.c: the check of the line "AUTH <token>" on a new connection. The buffer
-- is a C string, so the end of the list stands for the byte 0 behind it, and a byte 0 ends it early.
pub mod Line
pub mod Waits
mod Tests
use myworkspace.Prelude.{
  ℕ, zero, suc, List, [], ◌∷◌, length, bytes_eq, Option, none, some, Bool, true, false, ◌==◌, ◌||◌,
  leb, if◌then◌else◌,
}

-- What the code calls: `setsockopt` with SO_RCVTIMEO, and `recv` with and without MSG_PEEK, which gives
-- `none` for 0 and for an error.
pub record AuthNet (W : Type 0) : Type 0 where
  pub set_recv_timeout_ms : ℕ → ℕ → W → W
  pub peek : ℕ → ℕ → W → Option (List ℕ) × W
  pub recv : ℕ → ℕ → W → Option (List ℕ) × W

-- `sizeof(buf) - 1` and `sizeof(got) - 1`.
abbrev pub line_limit : ℕ
line_limit = 511

abbrev pub token_limit : ℕ
token_limit = 255

-- What is returned: 0, -1, or that the loop has not ended within the rounds given.
pub data AuthResult : Type 0 where
  accepted refused running : AuthResult

-- The bytes up to `strchr(buf, '\n')`, with it.
unfoldable pub first_line : List ℕ → Option (List ℕ)
first_line [] = none
first_line (x ∷ xs) =
    let rest = first_line xs in
    if x == 0
    then none
    else if x == 10
    then some (x ∷ [])
    else elim rest [ none ↦ none | some line ↦ some (x ∷ line) ]

unfoldable pub skip_blanks : List ℕ → List ℕ
skip_blanks [] = []
skip_blanks (x ∷ xs) =
    let rest = skip_blanks xs in
    if x == 32 || (x == 9 || (x == 13 || x == 10)) then rest else x ∷ xs

-- `strncmp(p, "AUTH ", 5)`, and what stands behind it.
unfoldable pub after_auth : List ℕ → Option (List ℕ)
after_auth (a ∷ u ∷ t ∷ h ∷ s ∷ rest) =
    if bytes_eq (a ∷ u ∷ t ∷ h ∷ s ∷ []) (b'A' ∷ b'U' ∷ b'T' ∷ b'H' ∷ b' ' ∷ [])
    then some rest
    else none
after_auth _ = none

-- The loop that fills `got`, with room for `room` more bytes.
unfoldable pub read_token : ℕ → List ℕ → List ℕ
read_token zero xs = []
read_token (suc room) [] = []
read_token (suc room) (x ∷ xs) =
    let rest = read_token room xs in if x == 0 || (x == 10 || x == 13) then [] else x ∷ rest

-- A complete line against the token.
unfoldable pub check_line : List ℕ → List ℕ → Bool
check_line line token = elim (after_auth (skip_blanks line)) [
  | none ↦ false
  | some rest ↦ bytes_eq (read_token token_limit rest) token
]

module _ {W : Type 0} (net : AuthNet W) where
  -- The line is taken off the socket; a short read is refused.
  unfoldable pub consume : ℕ → List ℕ → List ℕ → W → AuthResult × W
  consume fd line token w =
      let (got, w1) = net.recv fd (length line) w in
      elim got [
        | none ↦ (AuthResult.refused, w1)
        | some bytes ↦ (
          (if length bytes == length line
              then (if check_line line token then AuthResult.accepted else AuthResult.refused)
              else AuthResult.refused),
          w1,
        )
      ]

  -- One round with the bytes that are there; `next` is the loop from there on.
  unfoldable pub on_peek : (W → AuthResult × W) → ℕ → List ℕ → Option (List ℕ) × W → AuthResult × W
  on_peek next fd token (none, w) = (AuthResult.refused, w)
  on_peek next fd token (some bytes, w) = elim (first_line bytes) [
    | none ↦ if leb line_limit (length bytes) then (AuthResult.refused, w) else next w
    | some line ↦ consume fd line token w
  ]

  unfoldable pub auth_loop : ℕ → ℕ → List ℕ → W → AuthResult × W
  auth_loop zero fd token w = (AuthResult.running, w)
  auth_loop (suc rounds) fd token w =
      on_peek (auth_loop rounds fd token) fd token (net.peek fd line_limit w)

  -- An empty token stands for none.
  unfoldable pub read_and_check : ℕ → ℕ → List ℕ → ℕ → W → AuthResult × W
  read_and_check rounds fd [] timeout_ms w = (AuthResult.accepted, w)
  read_and_check rounds fd (x ∷ token) timeout_ms w =
      auth_loop rounds fd (x ∷ token)
        (net.set_recv_timeout_ms fd (if timeout_ms == 0 then 3000 else timeout_ms) w)
