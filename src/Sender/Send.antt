-- ===== src/Sender/Send.antt =====
-- tcp_sender.c, `send_all`.
pub mod Wire
pub mod Ends
use myworkspace.Prelude.{ℕ, zero, suc, ◌+◌, List, [], ◌∷◌, drop, ltb, ◌==◌, if◌then◌else◌}
use myworkspace.Sender.{Progress}
use myworkspace.Sender.Net.{Net, SendResult}

abbrev pub max_retries : ℕ
max_retries = 100

module _ {W : Type 0} (net : Net W) where
  -- One `send`, its result looked at; `next` is the loop from there on.
  unfoldable pub on_result :
      (List ℕ → ℕ → W → Progress × W) → List ℕ → ℕ → SendResult × W → Progress × W
  on_result next rest retry (SendResult.sent n, w) =
      if n == 0 then (Progress.failed, w) else next (drop n rest) 0 w
  on_result next rest retry (SendResult.interrupted, w) = next rest retry w
  on_result next rest retry (SendResult.would_block, w) = next rest (retry + 1) (net.usleep 100 w)
  on_result next rest retry (SendResult.broken, w) = (Progress.failed, w)

  -- `rest` is `data + sent` with its `length - sent` bytes.
  unfoldable pub send_loop : ℕ → ℕ → List ℕ → ℕ → W → Progress × W
  send_loop zero fd rest retry w = (Progress.running, w)
  send_loop (suc rounds) fd [] retry w = (Progress.succeeded, w)
  send_loop (suc rounds) fd (x ∷ rest) retry w =
      if ltb retry max_retries
      then on_result (send_loop rounds fd) (x ∷ rest) retry (net.send fd (x ∷ rest) w)
      else (Progress.failed, w)

  -- The loop has no bound of its own on interrupted calls: `rounds` bounds them here.
  unfoldable pub send_all : ℕ → ℕ → List ℕ → W → Progress × W
  send_all rounds fd data_sent w = send_loop rounds fd data_sent 0 w
