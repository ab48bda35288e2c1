-- ===== src/Server/Receive/Exact.antt =====
-- server.c, `recv_exact`: the bytes it collects.
use myworkspace.Prelude.{
  ℕ, zero, suc, ◌-◌, ◌≤◌, ◌≡◌, ◌++◌, List, [], ◌∷◌, length, Option, none, some, true, ◌==◌,
  if-holds, arith, refl, sym, ap, subst, ◌∙◌, append_assoc, length-append,
}
use myworkspace.Server.Receive.{got, closed, ConnNet, prepend, on_recv, recv_loop, recv_exact}

-- What a stream socket whose peer has sent `incoming` and closed documents: a `recv` gives a first part
-- of what is left, at most what it is asked for, and the end of the stream only when nothing is left.
-- No timeout comes in between, memory can be had, and the server is not stopped.
pub record DeliversAll {W : Type 0} (net : ConnNet W) (incoming : ℕ → W → List ℕ) : Type 0 where
  pub bytes : ℕ → ℕ → W → List ℕ
  pub delivers :
      (fd n : ℕ) (w : W)
      → 1 ≤ n
      → 1 ≤ length (incoming fd w)
      → ((net.recv fd n w).0 ≡ got (bytes fd n w))
        × (1 ≤ length (bytes fd n w))
        × (length (bytes fd n w) ≤ n)
        × (incoming fd w ≡ bytes fd n w ++ incoming fd (net.recv fd n w).1)
  pub ends : (fd n : ℕ) (w : W) → incoming fd w ≡ [] → (net.recv fd n w).0 ≡ closed
  pub memory : (n : ℕ) (w : W) → (net.realloc n w).0 ≡ true
  pub quiet : (fd n : ℕ) (w : W) → incoming fd (net.realloc n w).1 ≡ incoming fd w
  pub running : (w : W) → net.is_running w ≡ true

-- `n` bytes have been taken off the front.
pub record Taken (n : ℕ) (before after : List ℕ) (result : Option (List ℕ)) : Type 0 where
  pub front : List ℕ
  pub whole : result ≡ some front
  pub count : length front ≡ n
  pub split : before ≡ front ++ after

Taken-prepend :
    {W : Type 0} (n : ℕ) (bs before middle : List ℕ) (rest : W → List ℕ) (r : Option (List ℕ) × W)
    → before ≡ bs ++ middle
    → length bs ≤ n
    → Taken (n - length bs) middle (rest r.1) r.0
    → Taken n before (rest (prepend bs r).1) (prepend bs r).0
Taken-prepend n bs before middle rest (none, w) e le h = absurd (ground (arith, h.whole))
Taken-prepend n bs before middle rest (some x, w) e le h = record {
  front = bs ++ h.front;
  whole = ap (λ r. elim r [ none ↦ none | some y ↦ some (bs ++ y) ]) h.whole;
  count = omega (arith, length-append bs h.front, h.count);
  split = e ∙ (ap (λ ys. bs ++ ys) h.split ∙ sym (append_assoc bs h.front (rest w)));
}

Taken-zero : (n : ℕ) (before : List ℕ) → n ≡ 0 → Taken n before before (some [])
Taken-zero n before e = record { front = []; whole = refl; count = sym e; split = refl }

module _ {W : Type 0} {net : ConnNet W} {incoming : ℕ → W → List ℕ}
    (laws : DeliversAll net incoming) where
  on_recv-Taken :
      (fd n : ℕ) (before : List ℕ) (next : ℕ → W → Option (List ℕ) × W) (bs : List ℕ) (w : W)
      → 1 ≤ length bs
      → length bs ≤ n
      → before ≡ bs ++ incoming fd w
      → Taken
          (n - length bs)
          (incoming fd w)
          (incoming fd (next (n - length bs) w).1)
          (next (n - length bs) w).0
      → let out = on_recv net next n (got bs, w) in Taken n before (incoming fd out.1) out.0
  unfolding on_recv
  on_recv-Taken fd n before next [] w some_bytes le e h = absurd (omega arith)
  on_recv-Taken fd n before next (x ∷ bs) w some_bytes le e h =
      Taken-prepend n (x ∷ bs) before (incoming fd w) (incoming fd) (next (n - length (x ∷ bs)) w) e
        le h

  recv_loop-Taken :
      (rounds fd n : ℕ) (w : W)
      → n ≤ rounds
      → n ≤ length (incoming fd w)
      → let out = recv_loop net rounds fd n w in Taken n (incoming fd w) (incoming fd out.1) out.0
  unfolding recv_loop
  recv_loop-Taken zero fd n w enough there =
      if-holds (λ (r : Option (List ℕ) × W). Taken n (incoming fd w) (incoming fd r.1) r.0) (n == 0)
        _ _ (λ e. Taken-zero n (incoming fd w) (omega arith)) (λ e. absurd (ground arith))
  recv_loop-Taken (suc rounds) fd n w enough there =
      let bs = laws.bytes fd n w in
      let w1 = (net.recv fd n w).1 in
      if-holds (λ (r : Option (List ℕ) × W). Taken n (incoming fd w) (incoming fd r.1) r.0) (n == 0)
        _ _ (λ e. Taken-zero n (incoming fd w) (ground arith))
        (λ e.
          let some_left : 1 ≤ n = ground arith in
          let (is_got, some_bytes, le, split) = laws.delivers fd n w some_left (omega arith) in
          subst
            (λ r.
              let out = on_recv net (recv_loop net rounds fd) n (r, w1) in
              Taken n (incoming fd w) (incoming fd out.1) out.0)
            (sym is_got)
            (on_recv-Taken fd n (incoming fd w) (recv_loop net rounds fd) bs w1 some_bytes le split
              (recv_loop-Taken rounds fd (n - length bs) w1 (omega arith)
                (omega (arith, ap length split, length-append bs (incoming fd w1))))))

  -- A `recv_exact` within what the peer has sent gets exactly its number of bytes, the next ones.
  pub recv_exact-Taken :
      (fd n : ℕ) (w : W)
      → n ≤ length (incoming fd w)
      → let out = recv_exact net fd n w in Taken n (incoming fd w) (incoming fd out.1) out.0
  unfolding recv_exact
  recv_exact-Taken fd n w there = recv_loop-Taken n fd n w (omega arith) there

  -- Behind the last byte it fails.
  pub recv_exact-end :
      (fd n : ℕ) (w : W) → 1 ≤ n → incoming fd w ≡ [] → (recv_exact net fd n w).0 ≡ none
  unfolding recv_exact recv_loop on_recv
  recv_exact-end fd zero w some_left nothing = absurd (omega arith)
  recv_exact-end fd (suc n) w some_left nothing = ground (arith, laws.ends fd (suc n) w nothing)
