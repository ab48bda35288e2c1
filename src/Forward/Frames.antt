-- ===== src/Forward/Frames.antt =====
-- strem_agent_server/src/main.c and src/control_socket.c put together: from the frames of a control
-- connection to the calls of the host.
use myworkspace.Prelude.{
  ℕ, zero, suc, ◌≤◌, ◌<◌, ◌≡◌, refl, sym, ap, subst, ◌∙◌, List, [], ◌∷◌, ◌++◌, append_assoc,
  append-nil, length, length-append, map, Option, none, some, Bool, true, ◌||◌, ◌==◌, ltb, arith,
  All, if-holds, append-split,
}
use mathlib.Core.List.{flatten}
use myworkspace.Protocol.{be32, put32}
use myworkspace.Protocol.RoundTrip.{be32-put32}
use myworkspace.Server.Receive.{ConnNet, recv_exact}
use myworkspace.Server.Receive.Exact.{DeliversAll, recv_exact-Taken, recv_exact-end}
use myworkspace.Forward.{max_frame, after_length, read_frame, on_frame, ctrl_loop}

abbrev pub framed : List ℕ → List ℕ
framed d = put32 (length d) ++ d

abbrev pub IsFrame : List ℕ → Type 0
IsFrame d = (1 ≤ length d) × (length d ≤ max_frame)

-- The datagrams, one after the other.
abbrev pub send_all_on : {S : Type 0} → (List ℕ → S → S) → List (List ℕ) → S → S
send_all_on send [] s = s
send_all_on send (d ∷ ds) s = send_all_on send ds (send d s)

-- A read got just `d`, and left `rest`.
abbrev IsRead : {W : Type 0} → (W → List ℕ) → List ℕ → List ℕ → Option (List ℕ) × W → Type 0
IsRead incoming d rest r = (r.0 ≡ some d) × (incoming r.1 ≡ rest)

put32-length : (n : ℕ) → length (put32 n) ≡ 4
unfolding put32
put32-length n = refl

module _ {W : Type 0} {net : ConnNet W} {incoming : ℕ → W → List ℕ}
    (laws : DeliversAll net incoming) where
  exact-IsRead :
      (fd n : ℕ) (w : W) (d rest : List ℕ)
      → incoming fd w ≡ d ++ rest
      → length d ≡ n
      → IsRead (incoming fd) d rest (recv_exact net fd n w)
  exact-IsRead fd n w d rest e len =
      let t = recv_exact-Taken laws fd n w (omega (arith, ap length e, length-append d rest)) in
      let cut =
        append-split t.front d (incoming fd (recv_exact net fd n w).1) rest (t.count ∙ sym len)
          (sym t.split ∙ e) in
      (t.whole ∙ ap some cut.0, cut.1)

  after_length-IsRead :
      (fd : ℕ) (d rest : List ℕ) (r : Option (List ℕ) × W)
      → IsFrame d
      → IsRead (incoming fd) (put32 (length d)) (d ++ rest) r
      → IsRead (incoming fd) d rest (after_length net fd r)
  unfolding after_length
  after_length-IsRead fd d rest (none, w) ok h = cc
  after_length-IsRead fd d rest (some lenb, w) ok h =
      let same : lenb ≡ put32 (length d) = ground (arith, h.0) in
      let size : be32 lenb 0 ≡ length d =
        ap (λ (b : List ℕ). be32 b 0) (same ∙ sym (append-nil (put32 (length d))))
        ∙ be32-put32 (length d) [] (omega arith) in
      if-holds (IsRead (incoming fd) d rest) (be32 lenb 0 == 0 || ltb max_frame (be32 lenb 0)) _ _
        (λ e. absurd (ground (arith, size)))
        (λ _. exact-IsRead fd (be32 lenb 0) w d rest h.1 (sym size))

  read_frame-IsRead :
      (fd : ℕ) (d rest : List ℕ) (w : W)
      → IsFrame d
      → incoming fd w ≡ framed d ++ rest
      → IsRead (incoming fd) d rest (read_frame net fd w)
  unfolding read_frame
  read_frame-IsRead fd d rest w ok e = after_length-IsRead fd d rest (recv_exact net fd 4 w) ok (
      exact-IsRead fd 4 w (put32 (length d)) (d ++ rest)
        (e ∙ append_assoc (put32 (length d)) d rest) (put32-length (length d)))

  read_frame-end : (fd : ℕ) (w : W) → incoming fd w ≡ [] → (read_frame net fd w).0 ≡ none
  unfolding read_frame
  read_frame-end fd w e = ends (recv_exact net fd 4 w) (recv_exact-end laws fd 4 w (omega arith) e)
    where
      ends : (r : Option (List ℕ) × W) → r.0 ≡ none → (after_length net fd r).0 ≡ none
      ends (none, w1) f = refl
      ends (some b, w1) f = cc

  module _ {S : Type 0} (send : List ℕ → S → S) where
    abbrev Ended : S → Bool × (W × S) → Type 0
    Ended s out = (out.0 ≡ true) × (out.1.1 ≡ s)

    on_frame-Ended :
        (fd : ℕ) (d rest : List ℕ) (goal : S) (next : W → S → Bool × (W × S)) (s : S)
        (r : Option (List ℕ) × W)
        → IsRead (incoming fd) d rest r
        → ((w : W) → incoming fd w ≡ rest → Ended goal (next w (send d s)))
        → Ended goal (on_frame net send next s r)
    unfolding on_frame
    on_frame-Ended fd d rest goal next s (none, w) h ih = cc
    on_frame-Ended fd d rest goal next s (some k, w) h ih =
        let same : k ≡ d = ground (arith, h.0) in
        subst (λ b. Ended goal (next w (send b s))) (sym same) (ih w h.1)

    on_frame-end :
        (next : W → S → Bool × (W × S)) (s : S) (r : Option (List ℕ) × W)
        → r.0 ≡ none
        → Ended s (on_frame net send next s r)
    unfolding on_frame
    on_frame-end next s (none, w) e = (refl, refl)
    on_frame-end next s (some k, w) e = absurd (ground (arith, e))

    -- The frames of a control client that has sent them and closed, each of 1 to 4096 bytes: whatever
    -- the pieces are in which the socket gives them, without a timeout in between, each is sent on once
    -- as one datagram, in order, and then the loop ends.
    pub ctrl_loop-send_all_on :
        (ds : List (List ℕ)) (rounds fd : ℕ) (w : W) (s : S)
        → All IsFrame ds
        → incoming fd w ≡ flatten (map framed ds)
        → length ds < rounds
        → (let (ended, (w1, s1)) = ctrl_loop net send rounds fd w s in
            (ended ≡ true) × (s1 ≡ send_all_on send ds s))
    unfolding ctrl_loop flatten
    ctrl_loop-send_all_on ds zero fd w s ok split enough = absurd (omega arith)
    ctrl_loop-send_all_on [] (suc rounds) fd w s ok split enough =
        on_frame-end (ctrl_loop net send rounds fd) s (read_frame net fd w)
          (read_frame-end fd w split)
    ctrl_loop-send_all_on (d ∷ ds) (suc rounds) fd w s (ok, oks) split enough =
        on_frame-Ended fd d (flatten (map framed ds)) (send_all_on send ds (send d s))
          (ctrl_loop net send rounds fd) s (read_frame net fd w)
          (read_frame-IsRead fd d (flatten (map framed ds)) w ok split)
          (λ w1 e. ctrl_loop-send_all_on ds rounds fd w1 (send d s) oks e (omega arith))
