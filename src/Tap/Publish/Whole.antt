-- ===== src/Tap/Publish/Whole.antt =====
-- h264_tap.c, `h264_tap_publish`: a client's byte stream is made of whole packets.
use myworkspace.Prelude.{
  empty_lem, ℕ, ◌≡◌, ◌⊎◌, inl, inr, ◌++◌, List, [], ◌∷◌, length, take, Bool, true, false, not, ltb,
  ◌==◌, ◌&&◌, ◌||◌, if◌then◌else◌, arith, refl, sym, ap, ap₂, subst, ◌*◌, ◌∙◌, append-nil, Option,
}
use myworkspace.Tap.{TapClient, closed_client, pending}
use myworkspace.Tap.Net.{TapNet}
use myworkspace.Tap.Flush.{ensure_out_buf, flush_out_buf, double_until}
use myworkspace.Tap.Flush.Whole.{
  TapLaws, IsBuffered, SameBut, Flushed, flush_out_buf-After, length-pending,
}
use myworkspace.Tap.Publish.{
  frame_of, leave_recovery, fill_and_send, write_frame, send_frame, flush_then_send,
}

-- What publishing makes of a client `c`: it is closed; or its stream of bytes, sent and waiting, is what
-- it was; or one whole frame longer, which only happens where the client may take the packet.
pub data Published (c d : TapClient) (sent sent' frame : List ℕ) (allowed : Bool) : Type 0 where
  shut : d.active ≡ false → Published c d sent sent' frame allowed
  kept :
      IsBuffered d → sent' ++ pending d ≡ sent ++ pending c → Published c d sent sent' frame allowed
  added :
      IsBuffered d
      → allowed ≡ true
      → sent' ++ pending d ≡ (sent ++ pending c) ++ frame
      → Published c d sent sent' frame allowed

-- A client that recovers takes only an IDR.
abbrev pub may_take : TapClient → Bool → Bool
may_take c is_idr = not c.need_idr || is_idr

pub take_all : (xs : List ℕ) → take (length xs) xs ≡ xs
take_all [] = refl
take_all (x ∷ xs) = ap (λ ys. x ∷ ys) (take_all xs)

leave_recovery-same :
    (is_idr : Bool) (c : TapClient)
    → let d = leave_recovery is_idr c in
      (d.active ≡ c.active)
      × (d.out_len ≡ c.out_len)
      × (d.out_off ≡ c.out_off)
      × (d.out_buf ≡ c.out_buf)
unfolding leave_recovery
leave_recovery-same is_idr c = ground arith

leave_recovery-pending :
    (is_idr : Bool) (c : TapClient) → pending (leave_recovery is_idr c) ≡ pending c
unfolding leave_recovery
leave_recovery-pending is_idr c = ground arith

-- The cached sets and the recovery decide a frame.
frame_of-same : {c c1 : TapClient} → SameBut c c1 → (d : List ℕ) → frame_of c1 d ≡ frame_of c d
unfolding frame_of
frame_of-same h d = rw (h.need_idr, h.sps, h.pps)

Published-behind :
    {c c1 d : TapClient} {sent sent1 sent2 frame frame1 : List ℕ} {allowed allowed1 : Bool}
    → sent1 ++ pending c1 ≡ sent ++ pending c
    → frame1 ≡ frame
    → allowed1 ≡ allowed
    → Published c1 d sent1 sent2 frame1 allowed1
    → Published c d sent sent2 frame allowed
Published-behind e ef ea (shut off) = shut off
Published-behind e ef ea (kept buffered bytes) = kept buffered (bytes ∙ e)
Published-behind e ef ea (added buffered may bytes) =
    added buffered (sym ea ∙ may) (bytes ∙ ap₂ (λ s f. s ++ f) e ef)

module _ {W : Type 0} {net : TapNet W} {wire : Option ℕ → W → List ℕ}
    (laws : TapLaws net wire) where
  -- What a client's step makes of it, the bytes on its own wire.
  abbrev pub Step : TapClient → List ℕ → Bool → W → TapClient × W → Type 0
  Step c d is_idr w out =
      Published c out.0 (wire c.fd w) (wire c.fd out.1) (frame_of c d) (may_take c is_idr)

  if-Step :
      (c : TapClient) (d : List ℕ) (is_idr : Bool) (w : W) (b : Bool) (x y : TapClient × W)
      → (b ≡ true → Step c d is_idr w x)
      → (b ≡ false → Step c d is_idr w y)
      → Step c d is_idr w (if b then x else y)
  if-Step c d is_idr w true x y hx hy = hx refl
  if-Step c d is_idr w false x y hx hy = hy refl

  ensure_out_buf-same :
      (c : TapClient) (need : ℕ) (w : W)
      → let (d, w1) = ensure_out_buf net c need w in
        (d ≡ record c { out_cap = d.out_cap }) × (wire c.fd w1 ≡ wire c.fd w)
  unfolding ensure_out_buf
  ensure_out_buf-same c need w =
      let cap = double_until 64 need (if c.out_cap == 0 then 256 * 1024 else c.out_cap) in
      ground (arith, laws.realloc_sends c.fd cap w)

  -- After the flush of a frame just written into an empty buffer.
  Flushed-Step :
      (c f : TapClient) (d : List ℕ) (is_idr : Bool) (w w1 : W) (out : Bool × (TapClient × W))
      → pending c ≡ []
      → may_take c is_idr ≡ true
      → wire c.fd w1 ≡ wire c.fd w
      → pending f ≡ frame_of c d
      → (out.1.0 ≡ closed_client) ⊎ Flushed f out.1.0 (wire c.fd w1) (wire c.fd out.1.1) out.0
      → Step c d is_idr w (leave_recovery is_idr out.1.0, out.1.1)
  Flushed-Step c f d is_idr w w1 out empty allowed quiet filled (inl closed) =
      shut (ground (arith, leave_recovery-same is_idr out.1.0))
  Flushed-Step c f d is_idr w w1 out empty allowed quiet filled (inr h) =
      let same = leave_recovery-same is_idr out.1.0 in
      added
        (record {
          order = ground (arith, same, h.buffered.order);
          room = ground (arith, same, h.buffered.room);
        })
        allowed
        (ap (λ p. wire c.fd out.1.1 ++ p) (leave_recovery-pending is_idr out.1.0)
          ∙ (h.bytes
              ∙ (ap₂ (λ s p. s ++ p) quiet filled
                  ∙ ap (λ s. s ++ frame_of c d)
                      (sym (ap (λ p. wire c.fd w ++ p) empty ∙ append-nil (wire c.fd w))))))

  fill_and_send-Step :
      (c : TapClient) (d : List ℕ) (is_idr : Bool) (k : ℕ) (w w1 : W)
      → c.active ≡ true
      → IsBuffered c
      → pending c ≡ []
      → may_take c is_idr ≡ true
      → wire c.fd w1 ≡ wire c.fd w
      → Step c d is_idr w (fill_and_send net (frame_of c d) is_idr (record c { out_cap = k }, w1))
  unfolding fill_and_send
  fill_and_send-Step c d is_idr k w w1 is_active buffered empty allowed quiet =
      let frame = frame_of c d in
      let (now, w2) = net.monotonic_ns w1 in
      let filled = record c {
        out_cap = k;
        out_buf = frame;
        out_len = length frame;
        out_off = 0;
        out_start_ns = now;
      } in
      if-Step c d is_idr w (k == 0 || ltb k (length frame)) _ _
        (λ e.
          kept (record { order = buffered.order; room = buffered.room })
            (ap (λ s. s ++ pending c) quiet))
        (λ e.
          Flushed-Step c filled d is_idr w w2 (flush_out_buf net filled w2) empty allowed
            (laws.clock_sends c.fd w1 ∙ quiet) (take_all frame)
            (flush_out_buf-After laws filled w2 is_active
              (record { order = omega arith; room = omega arith })))

  write_frame-Step :
      (c : TapClient) (d : List ℕ) (is_idr : Bool) (w : W)
      → c.active ≡ true
      → IsBuffered c
      → pending c ≡ []
      → may_take c is_idr ≡ true
      → Step c d is_idr w (write_frame net c d is_idr w)
  unfolding write_frame
  write_frame-Step c d is_idr w is_active buffered empty allowed =
      let frame = frame_of c d in
      let (c1, w1) = ensure_out_buf net c (length frame) w in
      let (same, quiet) = ensure_out_buf-same c (length frame) w in
      subst (λ x. Step c d is_idr w (fill_and_send net frame is_idr (x, w1))) (sym same)
        (fill_and_send-Step c d is_idr c1.out_cap w w1 is_active buffered empty allowed quiet)

  closed_send_frame :
      (d : List ℕ) (is_idr : Bool) (w : W)
      → (send_frame net closed_client d is_idr w).0.active ≡ false
  unfolding send_frame write_frame fill_and_send ensure_out_buf flush_out_buf leave_recovery
  closed_send_frame d is_idr w = ground arith

  send_frame-Step :
      (c : TapClient) (d : List ℕ) (is_idr : Bool) (w : W)
      → c.active ≡ true
      → IsBuffered c
      → pending c ≡ []
      → Step c d is_idr w (send_frame net c d is_idr w)
  unfolding send_frame
  send_frame-Step c d is_idr w is_active buffered empty =
      if-Step c d is_idr w (c.need_idr && not is_idr) _ _ (λ e. kept buffered refl)
        (λ e. write_frame-Step c d is_idr w is_active buffered empty (ground arith))

  -- A step behind a flush of older data that leaves nothing waiting.
  behind-flush :
      (c c1 : TapClient) (d : List ℕ) (is_idr : Bool) (w w1 : W) (out : TapClient × W)
      → Flushed c c1 (wire c.fd w) (wire c.fd w1) true
      → Step c1 d is_idr w1 out
      → Step c d is_idr w out
  behind-flush c c1 d is_idr w w1 out h step =
      Published-behind h.bytes (frame_of-same h.same d) (ground (arith, h.same.need_idr)) (
        subst
          (λ f. Published c1 out.0 (wire f w1) (wire f out.1) (frame_of c1 d) (may_take c1 is_idr))
          h.same.fd step)

  after_flush-Step :
      (c : TapClient) (d : List ℕ) (is_idr : Bool) (w : W) (r : Bool × (TapClient × W))
      → c.active ≡ true
      → (r.1.0 ≡ closed_client) ⊎ Flushed c r.1.0 (wire c.fd w) (wire c.fd r.1.1) r.0
      → Step c d is_idr w (if r.0 then send_frame net r.1.0 d is_idr r.1.1 else r.1)
  after_flush-Step c d is_idr w (true, (c1, w1)) is_active (inl closed) =
      shut (ground (arith, closed_send_frame d is_idr w1))
  after_flush-Step c d is_idr w (false, (c1, w1)) is_active (inl closed) = shut (ground arith)
  after_flush-Step c d is_idr w (true, (c1, w1)) is_active (inr h) =
      behind-flush c c1 d is_idr w w1 _ h (
        send_frame-Step c1 d is_idr w1 (h.same.active ∙ is_active) h.buffered
          (empty_lem (pending c1) (ground (arith, h.clear refl, length-pending c1))))
  after_flush-Step c d is_idr w (false, (c1, w1)) is_active (inr h) = kept h.buffered h.bytes

  -- Given that `send` takes a first part of the bytes: for an active client whose bytes to be sent
  -- lie inside its buffer, the part of publishing behind the stall check either closes it or keeps
  -- its byte stream, what is sent and what waits to be, whole: it is as before, or as before with
  -- the packet's frame behind it (the packet with a start code, behind the cached parameter sets
  -- where the client recovers). A client that recovers gets no frame but an IDR's.
  pub flush_then_send-Step :
      (c : TapClient) (d : List ℕ) (is_idr : Bool) (w : W)
      → c.active ≡ true
      → IsBuffered c
      → Step c d is_idr w (flush_then_send net c d is_idr w)
  unfolding flush_then_send
  flush_then_send-Step c d is_idr w is_active buffered =
      if-Step c d is_idr w (ltb c.out_off c.out_len) _ _
        (λ e.
          after_flush-Step c d is_idr w (flush_out_buf net c w) is_active
            (flush_out_buf-After laws c w is_active buffered))
        (λ e.
          send_frame-Step c d is_idr w is_active buffered
            (empty_lem (pending c) (ground (arith, length-pending c))))
