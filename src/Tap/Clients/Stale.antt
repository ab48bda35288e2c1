-- ===== src/Tap/Clients/Stale.antt =====
-- h264_tap.c: a slot whose client is closed in the middle of publishing.
use myworkspace.Prelude.{
  ℕ, zero, suc, ◌*◌, ◌-◌, ◌≤◌, ◌<◌, ◌≡◌, List, ◌∷◌, length, Bool, true, false, arith, refl, some,
}
use myworkspace.Tap.{TapClient, closed_client, pending}
use myworkspace.Tap.Net.{TapNet, TapSend}
use myworkspace.Tap.Flush.{
  client_close, on_sent, flush_loop, flush_out_buf, ensure_out_buf, double_until,
}
use myworkspace.Tap.Publish.{
  frame_of, leave_recovery, fill_and_send, write_frame, send_frame, flush_then_send,
}
use myworkspace.Tap.Publish.Whole.{take_all}
use myworkspace.Tap.Clients.{place}

double_until-enough : (rounds need cap : ℕ) → need ≤ cap → double_until rounds need cap ≡ cap
unfolding double_until
double_until-enough zero need cap le = refl
double_until-enough (suc rounds) need cap le = ground arith

place-free :
    (c : TapClient) (clients : List TapClient) (fd sid : ℕ)
    → c.active ≡ false
    → place fd sid (c ∷ clients)
      ≡ (true, record c { fd = some fd; stream_id = sid; active = true } ∷ clients)
unfolding place
place-free c clients fd sid shut = rw shut

pending-filled :
    (c : TapClient) (frame : List ℕ)
    → c.out_buf ≡ frame
    → c.out_len ≡ length frame
    → c.out_off ≡ 0
    → pending c ≡ frame
pending-filled c frame buf len off = rw (off, len, buf, take_all frame)

module _ {W : Type 0} (net : TapNet W) where
  flush_loop-broken :
      (rounds : ℕ) (c : TapClient) (w : W)
      → 1 ≤ rounds
      → c.out_off < c.out_len
      → (net.send c.fd (pending c) w).0 ≡ TapSend.broken
      → (flush_loop net rounds c w).0 ≡ true × ((flush_loop net rounds c w).1.0 ≡ closed_client)
  unfolding flush_loop on_sent client_close
  flush_loop-broken zero c w some_round waits broken = absurd (omega arith)
  flush_loop-broken (suc rounds) c w some_round waits broken = ground arith

  flush_out_buf-broken :
      (c : TapClient) (w : W)
      → c.active ≡ true
      → c.out_off < c.out_len
      → (net.send c.fd (pending c) w).0 ≡ TapSend.broken
      → ((flush_out_buf net c w).0 ≡ true) × ((flush_out_buf net c w).1.0 ≡ closed_client)
  unfolding flush_out_buf
  flush_out_buf-broken c w is_active waits broken =
      ground (arith, flush_loop-broken (c.out_len - c.out_off) c w)

  closed-filled :
      (d : List ℕ) (is_idr : Bool) (w : W)
      → ((n : ℕ) (w1 : W) → (net.realloc n w1).0 ≡ true)
      → length (frame_of closed_client d) ≤ 256 * 1024
      → let c = (send_frame net closed_client d is_idr w).0 in
        (c.active ≡ false)
        × (c.out_buf ≡ frame_of closed_client d)
        × (c.out_len ≡ length (frame_of closed_client d))
        × (c.out_off ≡ 0)
  unfolding send_frame write_frame fill_and_send ensure_out_buf flush_out_buf leave_recovery
  closed-filled d is_idr w room small =
      let need = length (frame_of closed_client d) in
      ground (
        arith,
        double_until-enough 64 need (256 * 1024) small,
        room (double_until 64 need (256 * 1024)) w,
      )

  flush_then_send-filled :
      (c : TapClient) (d : List ℕ) (is_idr : Bool) (w : W)
      → c.active ≡ true
      → c.out_off < c.out_len
      → (net.send c.fd (pending c) w).0 ≡ TapSend.broken
      → ((n : ℕ) (w1 : W) → (net.realloc n w1).0 ≡ true)
      → length (frame_of closed_client d) ≤ 256 * 1024
      → let c1 = (flush_then_send net c d is_idr w).0 in
        (c1.active ≡ false)
        × (c1.out_buf ≡ frame_of closed_client d)
        × (c1.out_len ≡ length (frame_of closed_client d))
        × (c1.out_off ≡ 0)
  unfolding flush_then_send
  flush_then_send-filled c d is_idr w is_active waits broken room small =
      let (cleared, (c1, w1)) = flush_out_buf net c w in
      ground (
        arith,
        flush_out_buf-broken c w is_active waits broken,
        closed-filled d is_idr w1 room small,
      )

  -- If the older data of an active client cannot be sent, the client is closed, and a packet whose
  -- frame has at most 256 KiB is still written into its slot, where the allocator gives the
  -- buffer: the slot is free and has bytes to be sent. The next connection that is placed there,
  -- whatever it subscribes to, gets the slot and these bytes.
  pub broken_client_keeps_frame :
      (c : TapClient) (d : List ℕ) (is_idr : Bool) (w : W) (clients : List TapClient) (fd sid : ℕ)
      → c.active ≡ true
      → c.out_off < c.out_len
      → (net.send c.fd (pending c) w).0 ≡ TapSend.broken
      → ((n : ℕ) (w1 : W) → (net.realloc n w1).0 ≡ true)
      → length (frame_of closed_client d) ≤ 256 * 1024
      → let c1 = (flush_then_send net c d is_idr w).0 in
        let next = record c1 { fd = some fd; stream_id = sid; active = true } in
        (c1.active ≡ false)
        × (place fd sid (c1 ∷ clients) ≡ (true, next ∷ clients))
        × (pending next ≡ frame_of closed_client d)
  broken_client_keeps_frame c d is_idr w clients fd sid is_active waits broken room small =
      let c1 = (flush_then_send net c d is_idr w).0 in
      let next = record c1 { fd = some fd; stream_id = sid; active = true } in
      let (shut, buf, len, off) =
        flush_then_send-filled c d is_idr w is_active waits broken room small in
      (
        shut,
        place-free c1 clients fd sid shut,
        pending-filled next (frame_of closed_client d) buf len off,
      )
