-- ===== src/Bridge/Json.antt =====
-- stream_server/src/zmq_bridge.c: how the bridge reads a request's JSON. It looks for a key's text
-- anywhere and reads the integer behind it. A pointer and its end are the bytes from it on; `int` has
-- 32 bits, and `long long` holds every value that the loop lets past.
pub mod Numbers
use myworkspace.Prelude.{
  ℕ, zero, suc, ◌+◌, ◌-◌, ◌*◌, ◌^◌, List, [], ◌∷◌, Option, none, some, Bool, true, false, not, ◌&&◌,
  ◌||◌, ◌==◌, ltb, leb, if◌then◌else◌, length, take, drop, bytes_eq,
}
use Prim.Native.Char.{code}
use Prim.Native.String.{String}
use myworkspace.Prelude.Int.{ℤ, pos, negsuc}
use myworkspace.Bridge.{RoiRequest}

-- The bytes of a literal.
abbrev pub codes : String → List ℕ
codes String.[] = []
codes (String.◌∷◌ c s) = code c ∷ codes s

unfoldable pub is_json_ws : ℕ → Bool
is_json_ws c = c == b' ' || c == b'\t' || c == 13 || c == b'\n'

unfoldable pub starts : List ℕ → List ℕ → Bool
starts key text = bytes_eq (take (length key) text) key

-- A key is not empty.
unfoldable pub find_json_key : List ℕ → List ℕ → Option (List ℕ)
unfolding starts
find_json_key [] key = none
find_json_key (c ∷ cs) key = if starts key (c ∷ cs) then some (c ∷ cs) else find_json_key cs key

unfoldable pub skip_json_ws : List ℕ → List ℕ
unfolding is_json_ws
skip_json_ws [] = []
skip_json_ws (c ∷ cs) = if is_json_ws c then skip_json_ws cs else c ∷ cs

unfoldable pub is_digit : ℕ → Bool
is_digit c = leb b'0' c && leb c b'9'

-- The loop over the digits: whether there was one and the value, or `none` where it is too large.
unfoldable pub read_digits : ℕ → Bool → List ℕ → Option (Bool × ℕ)
unfolding is_digit
read_digits v any [] = some (any, v)
read_digits v any (c ∷ cs) =
    if is_digit c
    then (let v2 = v * 10 + (c - b'0') in if ltb (2 ^ 31) v2 then none else read_digits v2 true cs)
    else some (any, v)

-- `-v` where the sign is there, and nothing outside `int`.
unfoldable pub signed : Bool → ℕ → Option ℤ
signed minus v =
    if minus
    then some (elim v [ zero ↦ pos 0 | suc n ↦ negsuc n ])
    else if ltb v (2 ^ 31)
    then some (pos v)
    else none

unfoldable pub after_digits : Bool → Option (Bool × ℕ) → Option ℤ
unfolding signed
after_digits minus none = none
after_digits minus (some (any, v)) = if not any then none else signed minus v

unfoldable pub parse_number : Bool → List ℕ → Option ℤ
unfolding read_digits after_digits
parse_number minus text = after_digits minus (read_digits 0 false text)

-- An optional minus, and the number.
unfoldable pub parse_int : List ℕ → Option ℤ
unfolding parse_number
parse_int [] = none
parse_int (c ∷ cs) = if c == b'-' then parse_number true cs else parse_number false (c ∷ cs)

-- Behind the key: the colon and the value.
unfoldable pub after_colon : List ℕ → Option (List ℕ)
unfolding skip_json_ws
after_colon [] = none
after_colon (c ∷ cs) = if c == b':' then some (skip_json_ws cs) else none

unfoldable pub behind_key : List ℕ → List ℕ → Option (List ℕ)
unfolding skip_json_ws after_colon
behind_key key at = after_colon (skip_json_ws (drop (length key) at))

unfoldable pub parse_json_int_key : List ℕ → List ℕ → Option ℤ
unfolding find_json_key behind_key parse_int
parse_json_int_key json key = elim (find_json_key json key) [
  | none ↦ none
  | some at ↦ elim (behind_key key at) [ none ↦ none | some value ↦ parse_int value ]
]

abbrev pub stream_id_key : List ℕ
stream_id_key = codes "\"stream_id\""

abbrev pub timeout_key : List ℕ
timeout_key = codes "\"timeout_ms\""

abbrev pub roi_key : List ℕ
roi_key = codes "\"roi\""

unfoldable pub parse_stream_id_from_json : List ℕ → ℕ
unfolding parse_json_int_key
parse_stream_id_from_json json = elim (parse_json_int_key json stream_id_key) [
  | some (pos v) ↦ if ltb 0 v then v else 1
  | _ ↦ 1
]

unfoldable pub parse_timeout_ms_from_json : List ℕ → ℤ → ℤ
unfolding parse_json_int_key
parse_timeout_ms_from_json json default = elim (parse_json_int_key json timeout_key) [
  | some v ↦ v
  | none ↦ default
]

-- The loop that looks for the brace that closes the object: what stands before it. A brace inside a
-- string, which `str` tells, is none; `esc` tells that a backslash stands before the byte.
unfoldable pub next_depth : ℕ → Bool → ℕ → ℕ
next_depth depth str c =
    if str then depth else if c == b'{' then depth + 1 else if c == b'}' then depth - 1 else depth

unfoldable pub next_string : Bool → Bool → ℕ → Bool
next_string str esc c = if str then esc || not (c == b'"') else c == b'"'

unfoldable pub next_escape : Bool → Bool → ℕ → Bool
next_escape str esc c = str && not esc && c == b'\\'

unfoldable pub object_body : ℕ → Bool → Bool → List ℕ → Option (List ℕ)
unfolding next_depth next_string next_escape
object_body depth str esc [] = none
object_body depth str esc (c ∷ cs) =
    let rest =
      object_body (next_depth depth str c) (next_string str esc c) (next_escape str esc c) cs in
    if not str && c == b'}' && depth == 1
    then some []
    else elim rest [ none ↦ none | some body ↦ some (c ∷ body) ]

abbrev pub no_request : RoiRequest
no_request = record { requested = false; x = pos 0; y = pos 0; w = pos 0; h = pos 0 }

-- The first of two keys that is there with a number.
unfoldable pub parse_either : List ℕ → List ℕ → List ℕ → Option ℤ
unfolding parse_json_int_key
parse_either json a b = elim (parse_json_int_key json a) [
  | some v ↦ some v
  | none ↦ parse_json_int_key json b
]

unfoldable pub parse_fields : List ℕ → Option RoiRequest
unfolding parse_json_int_key parse_either
parse_fields body = elim (parse_json_int_key body (codes "\"x\"")) [
  | none ↦ none
  | some x ↦ elim (parse_json_int_key body (codes "\"y\"")) [
    | none ↦ none
    | some y ↦ elim (parse_either body (codes "\"w\"") (codes "\"width\"")) [
      | none ↦ none
      | some w ↦ elim (parse_either body (codes "\"h\"") (codes "\"height\"")) [
        | none ↦ none
        | some h ↦ some (record { requested = true; x = x; y = y; w = w; h = h })
      ]
    ]
  ]
]

unfoldable pub parse_roi_value : List ℕ → Option RoiRequest
unfolding starts object_body parse_fields
parse_roi_value [] = none
parse_roi_value (c ∷ cs) =
    if starts (codes "null") (c ∷ cs)
    then some no_request
    else if not (c == b'{')
    then none
    else elim (object_body 1 false false cs) [ none ↦ none | some body ↦ parse_fields body ]

-- `none` is the request that is refused, and the one that asks for no region is not.
unfoldable pub parse_roi_from_json : List ℕ → Option RoiRequest
unfolding find_json_key behind_key parse_roi_value
parse_roi_from_json json = elim (find_json_key json roi_key) [
  | none ↦ some no_request
  | some at ↦ elim (behind_key roi_key at) [ none ↦ none | some value ↦ parse_roi_value value ]
]
