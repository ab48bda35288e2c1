-- ===== src/Sender/Send/Wire.antt =====
-- tcp_sender.c, `send_all`: what the peer gets.
use myworkspace.Prelude.{
  ℕ, zero, suc, ◌+◌, ◌≡◌, ◌++◌, List, [], ◌∷◌, take, drop, append-nil, append_assoc, if◌then◌else◌,
  arith, refl, ap, ◌∙◌, take-append-drop, sym, subst, ◌≢◌, Bool, true, false, ltb, ◌==◌,
}
use myworkspace.Sender.{Progress}
use myworkspace.Sender.Net.{Net, SendResult}
use myworkspace.Sender.Send.{max_retries, on_result, send_loop, send_all}

abbrev pub taken : SendResult → ℕ
taken (SendResult.sent n) = n
taken _ = 0

-- What is documented of `send` on a stream socket: it takes a first part of the bytes, puts it behind
-- what went before, and takes nothing where it fails; `usleep` and `realloc` send nothing.
pub record SocketLaws {W : Type 0} (net : Net W) (wire : ℕ → W → List ℕ) : Type 0 where
  pub send_takes :
      (fd : ℕ) (d : List ℕ) (w : W)
      → wire fd (net.send fd d w).1 ≡ wire fd w ++ take (taken (net.send fd d w).0) d
  pub sleep_sends : (fd t : ℕ) (w : W) → wire fd (net.usleep t w) ≡ wire fd w
  pub realloc_sends : (fd n : ℕ) (w : W) → wire fd (net.realloc n w).1 ≡ wire fd w

-- What a send that started at `before` with `d` to send may have put on the wire.
pub record Sent (before d after : List ℕ) (result : Progress) : Type 0 where
  pub count : ℕ
  pub bytes : after ≡ before ++ take count d
  pub whole : result ≡ Progress.succeeded → after ≡ before ++ d

zero_add : (m : ℕ) → 0 + m ≡ m
zero_add m = omega arith

suc_add : (n m : ℕ) → suc n + m ≡ suc (n + m)
suc_add n m = omega arith

take-nil : (n : ℕ) → take {A = ℕ} n [] ≡ []
take-nil zero = refl
take-nil (suc n) = refl

take-append-take-drop : (n m : ℕ) (xs : List ℕ) → take n xs ++ take m (drop n xs) ≡ take (n + m) xs
take-append-take-drop zero m xs = ap (λ k. take k xs) (sym (zero_add m))
take-append-take-drop (suc n) m [] = take-nil m ∙ sym (take-nil (suc n + m))
take-append-take-drop (suc n) m (x ∷ xs) =
    ap (λ ys. x ∷ ys) (take-append-take-drop n m xs) ∙ ap (λ k. take k (x ∷ xs)) (sym (suc_add n m))

Sent-more :
    {a d after : List ℕ} {r : Progress} (n : ℕ)
    → Sent (a ++ take n d) (drop n d) after r
    → Sent a d after r
Sent-more {a} {d} n h = record {
  count = n + h.count;
  bytes =
      h.bytes
      ∙ rw (append_assoc a (take n d) (take h.count (drop n d)), take-append-take-drop n h.count d);
  whole = λ e. h.whole e ∙ rw (append_assoc a (take n d) (drop n d), take-append-drop n d);
}

Sent-none : {a d : List ℕ} {r : Progress} → r ≢ Progress.succeeded → Sent a d a r
Sent-none {a} unsent = record {
  count = 0;
  bytes = sym (append-nil a);
  whole = λ e. absurd (unsent e);
}

Sent-from : {a b d after : List ℕ} {r : Progress} → a ≡ b → Sent a d after r → Sent b d after r
Sent-from {d} {after} {r} e h = subst (λ x. Sent x d after r) e h

module _ {W : Type 0} {net : Net W} {wire : ℕ → W → List ℕ} (laws : SocketLaws net wire) where
  if-Sent :
      {before d : List ℕ} (fd : ℕ) (b : Bool) {x y : Progress × W}
      → Sent before d (wire fd x.1) x.0
      → Sent before d (wire fd y.1) y.0
      → let out = if b then x else y in Sent before d (wire fd out.1) out.0
  if-Sent fd true hx hy = hx
  if-Sent fd false hx hy = hy

  on_result-Sent :
      (fd : ℕ) (next : List ℕ → ℕ → W → Progress × W)
      → ((rest : List ℕ) (retry : ℕ) (w : W)
          → Sent (wire fd w) rest (wire fd (next rest retry w).1) (next rest retry w).0)
      → (rest : List ℕ) (retry : ℕ) (r : SendResult) (w w1 : W)
      → wire fd w1 ≡ wire fd w ++ take (taken r) rest
      → let out = on_result net next rest retry (r, w1) in
        Sent (wire fd w) rest (wire fd out.1) out.0
  unfolding on_result
  on_result-Sent fd next ih rest retry (SendResult.sent n) w w1 e =
      if-Sent fd (n == 0) (record { count = n; bytes = e; whole = λ h. ground arith })
        (Sent-more n (Sent-from e (ih (drop n rest) 0 w1)))
  on_result-Sent fd next ih rest retry SendResult.interrupted w w1 e =
      Sent-from (e ∙ append-nil (wire fd w)) (ih rest retry w1)
  on_result-Sent fd next ih rest retry SendResult.would_block w w1 e =
      Sent-from (laws.sleep_sends fd 100 w1 ∙ (e ∙ append-nil (wire fd w)))
        (ih rest (retry + 1) (net.usleep 100 w1))
  on_result-Sent fd next ih rest retry SendResult.broken w w1 e =
      Sent-from (e ∙ append-nil (wire fd w)) (Sent-none (λ h. ground arith))

  send_loop-Sent :
      (rounds fd : ℕ) (rest : List ℕ) (retry : ℕ) (w : W)
      → let out = send_loop net rounds fd rest retry w in
        Sent (wire fd w) rest (wire fd out.1) out.0
  unfolding send_loop
  send_loop-Sent zero fd rest retry w = Sent-none (λ h. ground arith)
  send_loop-Sent (suc rounds) fd [] retry w = record {
    count = 0;
    bytes = sym (append-nil (wire fd w));
    whole = λ e. sym (append-nil (wire fd w));
  }
  send_loop-Sent (suc rounds) fd (x ∷ rest) retry w =
      let (r, w1) = net.send fd (x ∷ rest) w in
      if-Sent fd (ltb retry max_retries)
        (on_result-Sent fd (send_loop net rounds fd) (send_loop-Sent rounds fd) (x ∷ rest) retry r w
          w1 (laws.send_takes fd (x ∷ rest) w))
        (Sent-none (λ h. ground arith))

  -- Given that `send` appends the first part of the bytes that it takes: whatever `send_all` returns,
  -- the peer gets a first part of the bytes, and all of them where it returns 0.
  pub send_all-Sent :
      (rounds fd : ℕ) (d : List ℕ) (w : W)
      → let out = send_all net rounds fd d w in Sent (wire fd w) d (wire fd out.1) out.0
  unfolding send_all
  send_all-Sent rounds fd d w = send_loop-Sent rounds fd d 0 w
