-- ===== src/Tap/Tests.antt =====
-- Runs of the tap over a socket that takes two bytes at a time, and its theorems at concrete clients.
use myworkspace.Prelude.{
  ℕ, ◌≡◌, refl, sym, List, [], ◌∷◌, ◌++◌, some, true, false, arith, take, length, min,
}
use myworkspace.Tap.{TapClient, closed_client, pending}
use myworkspace.Tap.Net.{TapNet, TapSend, Peek}
use myworkspace.Tap.Scan.{has_start_code}
use myworkspace.Tap.Flush.Whole.{TapLaws, IsBuffered}
use myworkspace.Tap.Publish.{frame_of, flush_then_send}
use myworkspace.Tap.Publish.Whole.{Published, may_take, flush_then_send-Step}
use myworkspace.Tap.Clients.{place}
use myworkspace.Tap.Clients.Stale.{broken_client_keeps_frame}

-- The state is what the peers got.
abbrev net : TapNet (List ℕ)
net = record {
  realloc = λ n w. (true, w);
  monotonic_ns = λ w. (5_000_000_000, w);
  send = λ fd d w. (TapSend.took (min 2 (length d)), w ++ take (min 2 (length d)) d);
  peek = λ fd w. (Peek.nothing_yet, w);
  close = λ fd w. w;
}

took-is : (m n : ℕ) → TapSend.took m ≡ TapSend.took n → m ≡ n
took-is m n e = ground arith

net-TapLaws : TapLaws net (λ fd w. w)
net-TapLaws = record {
  takes = λ fd d w n e. (omega (arith, took-is _ _ e), rw (sym (took-is _ _ e)));
  blocks = λ fd d w e. ground arith;
  realloc_sends = λ fd n w. refl;
  clock_sends = λ fd w. refl;
}

abbrev idr : List ℕ
idr = 0 ∷ 0 ∷ 0 ∷ 1 ∷ 0x65 ∷ 7 ∷ []

-- A client that waits for three bytes to go out.
abbrev client : TapClient
client = record closed_client {
  fd = some 4;
  stream_id = 1;
  active = true;
  out_buf = 1 ∷ 2 ∷ 3 ∷ 4 ∷ [];
  out_cap = 64;
  out_len = 4;
  out_off = 1;
  out_start_ns = 4_900_000_000;
}

client-IsBuffered : IsBuffered client
client-IsBuffered = omega arith

flush_then_send-Step_example :
    let out = flush_then_send net client idr true (1 ∷ []) in
    Published client out.0 (1 ∷ []) out.1 (frame_of client idr) (may_take client true)
flush_then_send-Step_example =
    flush_then_send-Step net-TapLaws client idr true (1 ∷ []) refl client-IsBuffered

abbrev broken_net : TapNet (List ℕ)
broken_net = record net { send = λ fd d w. (TapSend.broken, w) }

broken_client_keeps_frame_example :
    let c1 = (flush_then_send broken_net client idr true []).0 in
    let next = record c1 { fd = some 9; stream_id = 3; active = true } in
    (c1.active ≡ false)
    × (place 9 3 (c1 ∷ []) ≡ (true, next ∷ []))
    × (pending next ≡ frame_of closed_client idr)
unfolding frame_of has_start_code
broken_client_keeps_frame_example =
    broken_client_keeps_frame broken_net client idr true [] [] 9 3 refl (omega arith) refl
      (λ n w. refl) (omega arith)
