-- ===== src/Protocol/Tests.antt =====
-- Runs of the header code.
use myworkspace.Prelude.{◌≡◌, refl, List, [], ◌∷◌, some, none, ℕ}
use myworkspace.Protocol.{parse_header, check_header, build_header, be32, be16, put32, put16}
use myworkspace.Protocol.Agent.{tlv_parse_header}

abbrev zeros : List ℕ
zeros = 0 ∷ 0 ∷ 0 ∷ 0 ∷ 0 ∷ 0 ∷ 0 ∷ []

-- A video packet of stream 2 with 1000 bytes of payload.
abbrev wire : List ℕ
wire = 0 ∷ 0 ∷ 3 ∷ 239 ∷ 1 ∷ 0 ∷ 2 ∷ []

wire-built : build_header (some zeros) 1 2 1000 ≡ some wire
unfolding build_header put32 put16
wire-built = refl

wire-read : parse_header (some wire) ≡ some (record { length = 1007; type = 1; stream_id = 2 })
unfolding parse_header check_header be32 be16
wire-read = refl

-- The agent takes a header of type 9, which the server refuses.
abbrev odd_wire : List ℕ
odd_wire = 0 ∷ 0 ∷ 0 ∷ 7 ∷ 9 ∷ 0 ∷ 2 ∷ []

odd_refused : parse_header (some odd_wire) ≡ none
unfolding parse_header check_header be32 be16
odd_refused = refl

odd_taken : tlv_parse_header (some odd_wire) ≡ some (record { length = 7; type = 9; stream_id = 2 })
unfolding tlv_parse_header be32 be16
odd_taken = refl
