-- ===== src/Auth/Line.antt =====
-- auth.c: which lines pass.
use myworkspace.Prelude.{
  ℕ, zero, suc, ◌≤◌, ◌<◌, ◌≡◌, ◌≢◌, ◌↔◌, ◌++◌, List, [], ◌∷◌, length, bytes_eq, Option, none, some,
  true, false, arith, refl, ap, sym, ◌∙◌, Bool-cases, inl, inr, All, bytes_eq_sound, bytes_eq_refl,
}
use myworkspace.Auth.{after_auth, skip_blanks, read_token, check_line, token_limit}

-- A byte that can stand in a token.
abbrev pub IsPlain : ℕ → Type 0
IsPlain x = (x ≢ 0) × (x ≢ 10) × (x ≢ 13)

read_token-plain :
    (room : ℕ) (t : List ℕ) → All IsPlain t → length t ≤ room → read_token room (t ++ (10 ∷ [])) ≡ t
unfolding read_token
read_token-plain zero [] plain fits = refl
read_token-plain (suc room) [] plain fits = refl
read_token-plain zero (x ∷ t) plain fits = absurd (omega arith)
read_token-plain (suc room) (x ∷ t) (px, pt) fits =
    ground (arith, read_token-plain room t pt (omega arith))

length-read_token : (room : ℕ) (xs : List ℕ) → length (read_token room xs) ≤ room
unfolding read_token
length-read_token zero xs = omega arith
length-read_token (suc room) [] = omega arith
length-read_token (suc room) (x ∷ xs) = ground (arith, length-read_token room xs)

long_token-refused :
    (behind : Option (List ℕ)) (token : List ℕ)
    → token_limit < length token
    → (elim behind [ none ↦ false | some rest ↦ bytes_eq (read_token token_limit rest) token ])
      ≡ false
long_token-refused none token long = refl
long_token-refused (some rest) token long =
    let got = read_token token_limit rest in
    elim (Bool-cases (bytes_eq got token)) [
      | inl e ↦ absurd (
          omega (arith, length-read_token token_limit rest, ap length (bytes_eq_sound got token e)))
      | inr e ↦ e
    ]

-- For a sent token of at most 255 bytes, none of them 0, a line feed or a carriage return, the line
-- "AUTH <token>" passes exactly if the sent token is the agent's. An agent's token of more than 255
-- bytes is refused for every line.
pub check_line_lem :
    (t token : List ℕ)
    → All IsPlain t
    → length t ≤ token_limit
    → ((check_line (b'A' ∷ b'U' ∷ b'T' ∷ b'H' ∷ b' ' ∷ (t ++ (10 ∷ []))) token ≡ true)
        ↔ (t ≡ token))
      × ((line : List ℕ) → token_limit < length token → check_line line token ≡ false)
unfolding check_line after_auth skip_blanks
check_line_lem t token plain fits =
    let got = read_token-plain token_limit t plain fits in
    (
      (
        λ e. sym got ∙ bytes_eq_sound (read_token token_limit (t ++ (10 ∷ []))) token e,
        λ e. ap (λ r. bytes_eq r token) (got ∙ e) ∙ bytes_eq_refl token,
      ),
      λ line long. ground (arith, long_token-refused (after_auth (skip_blanks line)) token long),
    )
