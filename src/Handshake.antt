-- ===== src/Handshake.antt =====
-- strem_agent_server/src/h264_tap.c: the lines that a client of the agent's tap sends first, AUTH where a
-- token is set and then SUB. The buffer is its bytes; as the code looks for a line with `strchr`, a byte
-- 0 hides what is behind it.
pub mod Pieces
mod Tests
use myworkspace.Prelude.{
  ℕ, zero, suc, ◌+◌, ◌-◌, ◌*◌, List, [], ◌∷◌, ◌++◌, length, Option, none, some, Bool, true, false,
  not, ◌||◌, ◌==◌, ltb, if◌then◌else◌, bytes_eq, take, drop, add64,
}
use myworkspace.Protocol.Agent.{agent_max_streams}

abbrev pub line_feed : ℕ
line_feed = 10

-- `sscanf` with "SUB %d" and with "%d": the number, 0 where it is negative.
pub record Scanner : Type 0 where
  pub scan_sub : List ℕ → Option ℕ
  pub scan_int : List ℕ → Option ℕ

-- What `recv` on the client's non-blocking socket gives.
pub data Recv : Type 0 where
  got : List ℕ → Recv
  closed interrupted would_block broken : Recv

pub record HandshakeNet (W : Type 0) : Type 0 where
  pub recv : ℕ → ℕ → W → Recv × W
  pub monotonic_ns : W → ℕ × W
  pub nanosleep : W → W

-- After some bytes: -1, 0 with the stream, or on with what is left of the buffer.
pub data Fed : Type 0 where
  refused : Fed
  subscribed : ℕ → Fed
  more : Bool → List ℕ → Fed

abbrev pub is_blank : ℕ → Bool
is_blank c = c == 13 || (c == 32 || c == 9)

unfoldable pub trim_line : List ℕ → List ℕ
trim_line [] = []
trim_line (c ∷ cs) =
    let rest = trim_line cs in
    elim rest [ [] ↦ if is_blank c then [] else c ∷ [] | d ∷ ds ↦ c ∷ (d ∷ ds) ]

-- What a C string of these bytes is.
unfoldable pub until_nul : List ℕ → List ℕ
until_nul [] = []
until_nul (c ∷ cs) = let rest = until_nul cs in if c == 0 then [] else c ∷ rest

abbrev pub sub_range : ℕ → ℕ
sub_range n = if ltb n 1 then 1 else if ltb agent_max_streams n then agent_max_streams else n

abbrev pub or_else : Option ℕ → Option ℕ → Option ℕ
or_else none b = b
or_else (some n) b = some n

abbrev pub auth_word : List ℕ
auth_word = b'A' ∷ b'U' ∷ b'T' ∷ b'H' ∷ b' ' ∷ []

module _ (scanner : Scanner) (token : List ℕ) where
  unfoldable pub parse_sub_line : List ℕ → Option ℕ
  parse_sub_line line = elim (or_else (scanner.scan_sub line) (scanner.scan_int line)) [
    | none ↦ none
    | some n ↦ some (sub_range n)
  ]

  passes : List ℕ → Bool
  passes line = if bytes_eq (take 5 line) auth_word then bytes_eq (drop 5 line) token else false

  sub_end : Option ℕ → Fed
  sub_end none = Fed.refused
  sub_end (some sid) = Fed.subscribed sid

  -- The loop over the complete lines: `line` is what has been passed of the one at hand, `whole` the
  -- buffer, which stays as it is until a line has been taken out of it.
  unfoldable pub lines : Bool → Bool → List ℕ → List ℕ → List ℕ → Fed
  unfolding passes sub_end
  lines authed moved whole line [] = Fed.more authed (if moved then line else whole)
  lines authed moved whole line (c ∷ cs) =
      let on = lines authed moved whole (line ++ (c ∷ [])) cs in
      let next = lines true true whole [] cs in
      if c == line_feed
      then (if not authed
          then (if passes (trim_line line) then next else Fed.refused)
          else sub_end (parse_sub_line (trim_line line)))
      else on

  -- One successful `recv`.
  unfoldable pub feed : Bool → List ℕ → List ℕ → Fed
  feed authed buf bytes = lines authed false (buf ++ bytes) [] (until_nul (buf ++ bytes))

  module _ {W : Type 0} (net : HandshakeNet W) where
    -- -1 is `some none`; `none` is that the rounds have not been enough.
    on_fed : (Bool → List ℕ → W → Option (Option ℕ) × W) → Fed → W → Option (Option ℕ) × W
    on_fed next Fed.refused w = (some none, w)
    on_fed next (Fed.subscribed sid) w = (some (some sid), w)
    on_fed next (Fed.more authed buf) w = next authed buf w

    on_greeting :
        (Bool → List ℕ → W → Option (Option ℕ) × W)
        → Bool
        → List ℕ
        → Recv × W
        → Option (Option ℕ) × W
    unfolding on_fed
    on_greeting next authed buf (Recv.got [], w) = (some none, w)
    on_greeting next authed buf (Recv.got (c ∷ cs), w) = on_fed next (feed authed buf (c ∷ cs)) w
    on_greeting next authed buf (Recv.closed, w) = (some none, w)
    on_greeting next authed buf (Recv.interrupted, w) = next authed buf w
    on_greeting next authed buf (Recv.would_block, w) = next authed buf (net.nanosleep w)
    on_greeting next authed buf (Recv.broken, w) = (some none, w)

    unfoldable pub handshake_loop : ℕ → ℕ → ℕ → Bool → List ℕ → W → Option (Option ℕ) × W
    unfolding on_greeting
    handshake_loop zero fd deadline authed buf w = (none, w)
    handshake_loop (suc rounds) fd deadline authed buf w =
        let (now, w1) = net.monotonic_ns w in
        if ltb now deadline
        then on_greeting (handshake_loop rounds fd deadline) authed buf
            (net.recv fd (1023 - length buf) w1)
        else (some none, w1)

    unfoldable pub do_handshake : ℕ → ℕ → W → Option (Option ℕ) × W
    do_handshake rounds fd w =
        let (now, w1) = net.monotonic_ns w in
        handshake_loop rounds fd (add64 now (3000 * 1000000)) (length token == 0) [] w1
