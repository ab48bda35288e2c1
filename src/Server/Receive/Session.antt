-- ===== src/Server/Receive/Session.antt =====
-- server.c, `client_handler`, against the packets that a client writes.
use myworkspace.Prelude.{
  ℕ, zero, suc, ◌<◌, ◌≡◌, List, [], ◌∷◌, length, map, Option, none, some, Bool, true, if◌then◌else◌,
  arith, refl, sym, ap, subst, ◌∙◌, All,
}
use mathlib.Core.List.{flatten}
use myworkspace.Protocol.{PacketHeader}
use myworkspace.Server.Receive.{ConnNet, PacketIn, read_packet, client_loop, on_packet}
use myworkspace.Server.Receive.Exact.{DeliversAll}
use myworkspace.Server.Receive.Packet.{
  Packet, IsSendable, header_of, payload_of, encode, Read, read_packet-Read, read_packet-end,
}

-- What the packets do, one after the other.
abbrev pub handle_all :
    {S : Type 0} → (PacketHeader → Option (List ℕ) → S → S) → List Packet → S → S
handle_all handle [] s = s
handle_all handle (p ∷ ps) s = handle_all handle ps (handle (header_of p) (payload_of p) s)

module _ {W : Type 0} {net : ConnNet W} {incoming : ℕ → W → List ℕ}
    (laws : DeliversAll net incoming) where
  module _ {S : Type 0} (handle : PacketHeader → Option (List ℕ) → S → S) where
    -- The loop has ended in the state `s`.
    abbrev Ended : S → Bool × (W × S) → Type 0
    Ended s out = (out.0 ≡ true) × (out.1.1 ≡ s)

    on_packet-Ended :
        (p : Packet) (rest : List ℕ) (fd : ℕ) (goal : S) (next : ℕ → W → S → Bool × (W × S)) (s : S)
        (r : Option PacketIn × W)
        → Read p rest (incoming fd r.1) r.0
        → ((size : ℕ) (w : W)
            → incoming fd w ≡ rest
            → Ended goal (next size w (handle (header_of p) (payload_of p) s)))
        → Ended goal (on_packet net handle next s r)
    unfolding on_packet
    on_packet-Ended p rest fd goal next s (none, w) h ih = absurd (ground (arith, h.whole))
    on_packet-Ended p rest fd goal next s (some k, w) h ih =
        let same : k ≡ h.packet = ground (arith, h.whole) in
        subst (λ head. Ended goal (next k.recv_buf_size w (handle head k.payload s)))
          (sym (ap (λ k. k.header) same ∙ h.header))
          (subst (λ d. Ended goal (next k.recv_buf_size w (handle (header_of p) d s)))
            (sym (ap (λ k. k.payload) same ∙ h.payload)) (ih k.recv_buf_size w h.left))

    on_packet-end :
        (next : ℕ → W → S → Bool × (W × S)) (s : S) (r : Option PacketIn × W)
        → r.0 ≡ none
        → Ended s (on_packet net handle next s r)
    unfolding on_packet
    on_packet-end next s (none, w) e = (refl, refl)
    on_packet-end next s (some k, w) e = absurd (ground (arith, e))

    -- A loop that runs does what follows its guard.
    Ended-running :
        (goal : S) (w : W) (x y : Bool × (W × S))
        → Ended goal x
        → Ended goal (if net.is_running w then x else y)
    Ended-running goal w x y h =
        subst (λ b. Ended goal (if b then x else y)) (sym (laws.running w)) h

    -- The packets of a client that has sent them and closed, each of a known type, of a stream 1 to 256 and
    -- within the limit: whatever the pieces are in which the socket gives the bytes, if no timeout comes in
    -- between, memory can be had and the server is not stopped, each packet is passed on once, in order,
    -- with its header and its payload, and then the loop ends.
    pub client_loop-handle_all :
        (ps : List Packet) (rounds fd size : ℕ) (w : W) (s : S)
        → All IsSendable ps
        → incoming fd w ≡ flatten (map encode ps)
        → length ps < rounds
        → let (ended, (w1, s1)) = client_loop net handle rounds fd size w s in
          (ended ≡ true) × (s1 ≡ handle_all handle ps s)
    unfolding client_loop flatten
    client_loop-handle_all ps zero fd size w s ok split enough = absurd (omega arith)
    client_loop-handle_all [] (suc rounds) fd size w s ok split enough = Ended-running s w _ _ (
        on_packet-end (client_loop net handle rounds fd) s (read_packet net fd size w)
          (read_packet-end laws fd size w split))
    client_loop-handle_all (p ∷ ps) (suc rounds) fd size w s (ok, oks) split enough =
        let s1 = handle (header_of p) (payload_of p) s in
        let rest = flatten (map encode ps) in
        Ended-running (handle_all handle ps s1) w _ _ (
          on_packet-Ended p rest fd (handle_all handle ps s1) (client_loop net handle rounds fd) s
            (read_packet net fd size w) (read_packet-Read laws p rest fd size w ok split)
            (λ size w e. client_loop-handle_all ps rounds fd size w s1 oks e (omega arith)))
