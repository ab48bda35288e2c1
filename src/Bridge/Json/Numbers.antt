-- ===== src/Bridge/Json/Numbers.antt =====
-- stream_server/src/zmq_bridge.c: the integer behind a key is read as it is written.
use myworkspace.Prelude.{
  ℕ, zero, suc, ◌+◌, ◌-◌, ◌*◌, ◌^◌, ◌≤◌, ◌<◌, ◌≡◌, refl, List, [], ◌∷◌, ◌++◌, none, some, Bool,
  true, false, ◌||◌, ◌==◌, arith, ltb, leb, if◌then◌else◌, length, take-length-append,
  drop-length-append, bytes_eq_refl, All, ◌∙◌,
}
use myworkspace.Prelude.Int.{ℤ, pos, sub_ℕ}
use myworkspace.Bridge.Json.{
  is_json_ws, starts, find_json_key, skip_json_ws, is_digit, read_digits, signed, parse_number,
  after_digits, parse_int, after_colon, behind_key, parse_json_int_key,
}

abbrev pub AllDigits : List ℕ → Type 0
AllDigits = All (λ c. is_digit c ≡ true)

abbrev pub AllBlank : List ℕ → Type 0
AllBlank = All (λ c. is_json_ws c ≡ true)

-- What a numeral says, behind digits that said `v`.
abbrev pub number : ℕ → List ℕ → ℕ
number v [] = v
number v (c ∷ cs) = number (v * 10 + (c - b'0')) cs

-- The text does not go on with a byte of a kind.
abbrev pub EndsBefore : (ℕ → Bool) → List ℕ → Type 0
EndsBefore kind [] = Unit
EndsBefore kind (c ∷ cs) = kind c ≡ false

number-ge : (v : ℕ) (ds : List ℕ) → v ≤ number v ds
number-ge v [] = omega arith
number-ge v (c ∷ cs) = omega (arith, number-ge (v * 10 + (c - b'0')) cs)

read_digits_end :
    (v : ℕ) (any : Bool) (rest : List ℕ)
    → EndsBefore is_digit rest
    → read_digits v any rest ≡ some (any, v)
unfolding read_digits
read_digits_end v any [] e = refl
read_digits_end v any (c ∷ cs) e = rw e refl

read_digits-cons :
    (v : ℕ) (any : Bool) (c : ℕ) (cs : List ℕ)
    → is_digit c ≡ true
    → read_digits v any (c ∷ cs) ≡ (
        if ltb (2 ^ 31) (v * 10 + (c - b'0'))
        then none
        else read_digits (v * 10 + (c - b'0')) true cs)
unfolding read_digits
read_digits-cons v any c cs e = rw e refl

-- The digits are read to their end, and a value past 2^31 is refused at once.
read_digits_lem :
    (v : ℕ) (any : Bool) (ds rest : List ℕ)
    → v ≤ 2 ^ 31
    → AllDigits ds
    → EndsBefore is_digit rest
    → read_digits v any (ds ++ rest)
      ≡ (if leb (number v ds) (2 ^ 31) then some (any || ltb 0 (length ds), number v ds) else none)
read_digits_lem v any [] rest le all e = rw (read_digits_end v any rest e) (ground arith)
read_digits_lem v any (c ∷ cs) rest le all e =
    let v2 = v * 10 + (c - b'0') in
    let read_on = λ (p : v2 ≤ 2 ^ 31). read_digits_lem v2 true cs rest p all.1 e in
    rw (read_digits-cons v any c (cs ++ rest) all.0) (ground (arith, number-ge v2 cs, read_on))

-- The key is found behind `before`, and nowhere sooner.
abbrev pub IsFirst : List ℕ → List ℕ → List ℕ → Type 0
IsFirst key [] rest = Unit
IsFirst key (c ∷ before) rest = (starts key (c ∷ before ++ rest) ≡ false) × IsFirst key before rest

starts_lem : (key rest : List ℕ) → starts key (key ++ rest) ≡ true
unfolding starts
starts_lem key rest = rw (take-length-append key rest) (bytes_eq_refl key)

find_json_key_lem :
    (k : ℕ) (ks before rest : List ℕ)
    → IsFirst (k ∷ ks) before (k ∷ ks ++ rest)
    → find_json_key (before ++ (k ∷ ks ++ rest)) (k ∷ ks) ≡ some (k ∷ ks ++ rest)
unfolding find_json_key
find_json_key_lem k ks [] rest h = rw (starts_lem (k ∷ ks) rest) refl
find_json_key_lem k ks (c ∷ before) rest h = rw h.0 (find_json_key_lem k ks before rest h.1)

skip_json_ws_lem :
    (ws rest : List ℕ) → AllBlank ws → EndsBefore is_json_ws rest → skip_json_ws (ws ++ rest) ≡ rest
unfolding skip_json_ws
skip_json_ws_lem [] [] all e = refl
skip_json_ws_lem [] (c ∷ cs) all e = rw e refl
skip_json_ws_lem (c ∷ ws) rest all e = rw all.0 (skip_json_ws_lem ws rest all.1 e)

colon_ends : EndsBefore is_json_ws (b':' ∷ [])
unfolding is_json_ws
colon_ends = refl

behind_key_lem :
    (key ws1 ws2 rest : List ℕ)
    → AllBlank ws1
    → AllBlank ws2
    → EndsBefore is_json_ws rest
    → behind_key key (key ++ (ws1 ++ b':' ∷ (ws2 ++ rest))) ≡ some rest
unfolding behind_key after_colon
behind_key_lem key ws1 ws2 rest b1 b2 e =
    rw
      (
        drop-length-append key (ws1 ++ b':' ∷ (ws2 ++ rest)),
        skip_json_ws_lem ws1 (b':' ∷ (ws2 ++ rest)) b1 colon_ends,
        skip_json_ws_lem ws2 rest b2 e,
      )
      refl

-- A written integer, its digits behind an optional minus, and what it says.
abbrev pub numeral : Bool → List ℕ → List ℕ
numeral minus ds = if minus then b'-' ∷ ds else ds

abbrev pub integer : Bool → ℕ → ℤ
integer minus n = if minus then sub_ℕ 0 n else pos n

-- The largest size of an `int`.
abbrev pub largest : Bool → ℕ
largest minus = if minus then 2 ^ 31 else 2 ^ 31 - 1

after_digits_lem :
    (minus : Bool) (count n : ℕ)
    → 0 < count
    → after_digits minus (if leb n (2 ^ 31) then some (ltb 0 count, n) else none)
      ≡ (if leb n (largest minus) then some (integer minus n) else none)
unfolding after_digits signed
after_digits_lem true count zero lt = ground arith
after_digits_lem true count (suc n) lt = ground arith
after_digits_lem false count n lt = ground arith

parse_number_lem :
    (minus : Bool) (d : ℕ) (ds rest : List ℕ)
    → AllDigits (d ∷ ds)
    → EndsBefore is_digit rest
    → parse_number minus (d ∷ ds ++ rest) ≡ (
        if leb (number 0 (d ∷ ds)) (largest minus)
        then some (integer minus (number 0 (d ∷ ds)))
        else none)
unfolding parse_number signed
parse_number_lem minus d ds rest all e =
    rw (read_digits_lem 0 false (d ∷ ds) rest (omega arith) all e)
      (after_digits_lem minus (suc (length ds)) (number 0 (d ∷ ds)) (omega arith))

digit_bounds : (c : ℕ) → is_digit c ≡ true → (b'0' ≤ c) × (c ≤ b'9')
unfolding is_digit
digit_bounds c e = ground arith

parse_int_lem :
    (minus : Bool) (d : ℕ) (ds rest : List ℕ)
    → is_digit d ≡ true
    → parse_int (numeral minus (d ∷ ds) ++ rest) ≡ parse_number minus (d ∷ ds ++ rest)
unfolding parse_int
parse_int_lem true d ds rest e = refl
parse_int_lem false d ds rest e = if-minus (digit_bounds d e)
  where
    if-minus :
        (b'0' ≤ d) × (d ≤ b'9')
        → (if d == b'-'
            then parse_number true (ds ++ rest)
            else parse_number false (d ∷ ds ++ rest))
          ≡ parse_number false (d ∷ ds ++ rest)
    if-minus h = ground (arith, h)

numeral_ends :
    (minus : Bool) (d : ℕ) (ds rest : List ℕ)
    → is_digit d ≡ true
    → EndsBefore is_json_ws (numeral minus (d ∷ ds) ++ rest)
unfolding is_json_ws
numeral_ends true d ds rest e = refl
numeral_ends false d ds rest e = ground (arith, digit_bounds d e)

parse_json_int_key-found :
    (json key : List ℕ) {at value : List ℕ}
    → find_json_key json key ≡ some at
    → behind_key key at ≡ some value
    → parse_json_int_key json key ≡ parse_int value
unfolding parse_json_int_key
parse_json_int_key-found json key e f = ground arith

module _ (k : ℕ) (ks ws1 ws2 : List ℕ) (minus : Bool) (d : ℕ) (ds after : List ℕ) where
  -- A key with its colon and a written integer, and what follows.
  abbrev pub written : List ℕ
  written = k ∷ ks ++ (ws1 ++ b':' ∷ (ws2 ++ (numeral minus (d ∷ ds) ++ after)))

  -- Where a key stands with a colon and a written integer behind it, blanks between them or not, the
  -- text not having the key sooner and the digits not going on, the integer is read as it is written
  -- if an `int` can hold it, and there is no value if it cannot.
  pub parse_json_int_key_lem :
      (before : List ℕ)
      → IsFirst (k ∷ ks) before written
      → AllBlank ws1
      → AllBlank ws2
      → AllDigits (d ∷ ds)
      → EndsBefore is_digit after
      → parse_json_int_key (before ++ written) (k ∷ ks) ≡ (
          if leb (number 0 (d ∷ ds)) (largest minus)
          then some (integer minus (number 0 (d ∷ ds)))
          else none)
  parse_json_int_key_lem before first b1 b2 all e =
      parse_json_int_key-found (before ++ written) (k ∷ ks) (find_json_key_lem k ks before _ first)
        (behind_key_lem (k ∷ ks) ws1 ws2 (numeral minus (d ∷ ds) ++ after) b1 b2
          (numeral_ends minus d ds after all.0))
      ∙ parse_int_lem minus d ds after all.0
      ∙ parse_number_lem minus d ds after all e
