-- ===== src/Sender/Send/Ends.antt =====
-- tcp_sender.c, `send_all`: its loop ends.
use myworkspace.Prelude.{
  ℕ, zero, suc, ◌+◌, ◌-◌, ◌*◌, ◌≤◌, ◌<◌, ◌≡◌, ◌≢◌, List, [], ◌∷◌, length, drop, length-drop, arith,
  refl,
}
use myworkspace.Sender.{Progress}
use myworkspace.Sender.Net.{Net, SendResult}
use myworkspace.Sender.Send.{max_retries, on_result, send_loop, send_all}

-- `signals w` bounds the signals that can still interrupt a call: each interruption uses one up, and
-- nothing adds any.
pub record FewSignals {W : Type 0} (net : Net W) (signals : W → ℕ) : Type 0 where
  pub interrupts :
      (fd : ℕ) (d : List ℕ) (w : W)
      → (net.send fd d w).0 ≡ SendResult.interrupted
      → signals (net.send fd d w).1 < signals w
  pub sends : (fd : ℕ) (d : List ℕ) (w : W) → signals (net.send fd d w).1 ≤ signals w
  pub sleeps : (t : ℕ) (w : W) → signals (net.usleep t w) ≤ signals w

-- What is left to do bounds the rounds: each byte may be preceded by 100 retries.
abbrev rounds_left : ℕ → ℕ → ℕ → ℕ
rounds_left len retry signals = 101 * len + (101 - retry) + signals

module _ {W : Type 0} {net : Net W} {signals : W → ℕ} (few : FewSignals net signals) where
  on_result-ends :
      (rounds : ℕ) (next : List ℕ → ℕ → W → Progress × W)
      → ((rest : List ℕ) (retry : ℕ) (w : W)
          → retry ≤ max_retries
          → rounds_left (length rest) retry (signals w) ≤ rounds
          → (next rest retry w).0 ≢ Progress.running)
      → (rest : List ℕ) (retry : ℕ) (r : SendResult) (before : ℕ) (w : W) → 1 ≤ length rest
      → retry < max_retries
      → rounds_left (length rest) retry before ≤ suc rounds
      → (r ≡ SendResult.interrupted → signals w < before)
      → signals w ≤ before
      → (on_result net next rest retry (r, w)).0 ≢ Progress.running
  unfolding on_result
  on_result-ends rounds next ends rest retry (SendResult.sent n) before w some_rest lt enough fewer
        le =
      ground (arith, length-drop n rest, ends (drop n rest) 0 w)
  on_result-ends rounds next ends rest retry SendResult.interrupted before w some_rest lt enough
        fewer le =
      ends rest retry w (omega arith) (ground (arith, fewer refl))
  on_result-ends rounds next ends rest retry SendResult.would_block before w some_rest lt enough
        fewer le =
      ends rest (retry + 1) (net.usleep 100 w) (omega arith) (omega (arith, few.sleeps 100 w))
  on_result-ends rounds next ends rest retry SendResult.broken before w some_rest lt enough fewer
        le =
      ground arith

  send_loop-ends :
      (rounds fd : ℕ) (rest : List ℕ) (retry : ℕ) (w : W)
      → retry ≤ max_retries
      → rounds_left (length rest) retry (signals w) ≤ rounds
      → (send_loop net rounds fd rest retry w).0 ≢ Progress.running
  unfolding send_loop
  send_loop-ends zero fd rest retry w le enough = ground arith
  send_loop-ends (suc rounds) fd [] retry w le enough = ground arith
  send_loop-ends (suc rounds) fd (x ∷ rest) retry w le enough =
      let (r, w1) = net.send fd (x ∷ rest) w in
      ground (
        arith,
        on_result-ends rounds (send_loop net rounds fd) (send_loop-ends rounds fd) (x ∷ rest) retry
            r (signals w) w1 (omega arith),
        few.interrupts fd (x ∷ rest) w,
        few.sends fd (x ∷ rest) w,
      )

  -- Where interruptions by signals use up `signals w`, `send_all` returns: 101 rounds for each
  -- byte, 101 more and one for each signal are enough.
  pub send_all-ends :
      (rounds fd : ℕ) (d : List ℕ) (w : W)
      → 101 * length d + 101 + signals w ≤ rounds
      → (send_all net rounds fd d w).0 ≢ Progress.running
  unfolding send_all
  send_all-ends rounds fd d w enough = send_loop-ends rounds fd d 0 w (omega arith) enough
