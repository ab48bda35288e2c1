-- ===== src/Bridge/Serve/Parts.antt =====
-- stream_server/src/zmq_bridge.c: what the loop makes of the parts of a message.
use myworkspace.Prelude.{
  ℕ, ◌<◌, ◌≡◌, refl, List, [], ◌∷◌, ◌++◌, some, Bool, true, false, arith, if◌then◌else◌, length,
}
use myworkspace.Bridge.Json.{codes}
use myworkspace.Bridge.Serve.{Part, BridgeRequest, take_request}

abbrev pub part : List ℕ → Bool → Part
part bytes more = record { bytes = bytes; more = more }

-- A client's message as the socket delivers it, its JSON there or left out.
abbrev pub command_parts : Bool → BridgeRequest → List Part
command_parts true r = part r.cmd true ∷ part r.json false ∷ []
command_parts false r = part r.cmd false ∷ []

abbrev pub request_parts : Bool → BridgeRequest → List Part
request_parts has_json r =
    part r.identity true
    ∷ (if r.delim then part [] true ∷ command_parts has_json r else command_parts has_json r)

-- A message with a command, behind an empty part or not and with its JSON or without, is taken whole and
-- nothing behind it: the request is the one that was sent, with `{}` for the JSON that is left out.
pub take_request-request_parts :
    (has_json : Bool) (r : BridgeRequest) (q : List Part)
    → 0 < length r.cmd
    → take_request (request_parts has_json r ++ q)
      ≡ (some (record r { json = if has_json then r.json else codes "{}" }), q)
unfolding take_request
take_request-request_parts has_json r q cmd = split has_json r.delim q refl
  where
    split :
        (has_json delim : Bool) (q : List Part)
        → r.delim ≡ delim
        → take_request (request_parts has_json r ++ q)
          ≡ (some (record r { json = if has_json then r.json else codes "{}" }), q)
    split true true q e = ground arith
    split false true [] e = ground arith
    split false true (j ∷ q) e = ground arith
    split true false q e = ground arith
    split false false [] e = ground arith
    split false false (j ∷ q) e = ground arith

-- A message that ends with its empty part takes the next message's identity for its command, and leaves
-- that message's other parts to be taken for a message.
pub empty_request_takes_next :
    (identity : List ℕ) (has_json : Bool) (r : BridgeRequest) (q : List Part)
    → r.delim ≡ true
    → take_request (part identity true ∷ part [] false ∷ (request_parts has_json r ++ q)) ≡ (
      some (record { identity = identity; delim = true; cmd = r.identity; json = [] }),
      command_parts has_json r ++ q,
    )
unfolding take_request
empty_request_takes_next identity has_json r q e = rw e refl
