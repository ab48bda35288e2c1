-- ===== src/Tap/Flush/Whole.antt =====
-- h264_tap.c, `flush_out_buf`: partial sends lose and repeat nothing.
use myworkspace.Prelude.{
  empty_lem, ℕ, zero, suc, ◌+◌, ◌-◌, ◌≤◌, ◌≡◌, ◌⊎◌, inl, inr, ◌++◌, List, [], ◌∷◌, length, take,
  drop, min, Bool, true, false, not, ltb, ◌==◌, if◌then◌else◌, arith, refl, sym, ap, ◌∙◌,
  append_assoc, take-append-drop, length-take, length-drop, Option,
}
use myworkspace.Tap.{TapClient, closed_client, pending}
use myworkspace.Tap.Net.{TapNet, TapSend}
use myworkspace.Tap.Flush.{emptied, client_close, on_sent, flush_loop, flush_out_buf}

-- What `send` documents: of the bytes it takes a first part, behind what went before; where it fails it
-- takes none. The clock and the allocator send nothing.
pub record TapLaws {W : Type 0} (net : TapNet W) (wire : Option ℕ → W → List ℕ) : Type 0 where
  pub takes :
      (fd : Option ℕ) (d : List ℕ) (w : W) (n : ℕ)
      → (net.send fd d w).0 ≡ TapSend.took n
      → (n ≤ length d) × (wire fd (net.send fd d w).1 ≡ wire fd w ++ take n d)
  pub blocks :
      (fd : Option ℕ) (d : List ℕ) (w : W)
      → (net.send fd d w).0 ≡ TapSend.would_block
      → wire fd (net.send fd d w).1 ≡ wire fd w
  pub realloc_sends : (fd : Option ℕ) (n : ℕ) (w : W) → wire fd (net.realloc n w).1 ≡ wire fd w
  pub clock_sends : (fd : Option ℕ) (w : W) → wire fd (net.monotonic_ns w).1 ≡ wire fd w

-- The bytes to be sent lie inside the buffer.
pub record IsBuffered (c : TapClient) : Type 0 where
  pub order : c.out_off ≤ c.out_len
  pub room : c.out_len ≤ length c.out_buf

-- The same client, but for how far it has been sent.
pub record SameBut (c d : TapClient) : Type 0 where
  pub fd : d.fd ≡ c.fd
  pub stream_id : d.stream_id ≡ c.stream_id
  pub active : d.active ≡ c.active
  pub need_idr : d.need_idr ≡ c.need_idr
  pub sps : d.sps ≡ c.sps
  pub pps : d.pps ≡ c.pps

-- A flush that leaves the client open: what is sent and what waits make up what was sent and waited.
pub record Flushed (c d : TapClient) (sent sent' : List ℕ) (cleared : Bool) : Type 0 where
  pub same : SameBut c d
  pub buffered : IsBuffered d
  pub bytes : sent' ++ pending d ≡ sent ++ pending c
  pub clear : cleared ≡ true → (d.out_len ≡ 0) × (d.out_off ≡ 0)

pub length-pending :
    (c : TapClient) → length (pending c) ≡ min c.out_len (length c.out_buf) - c.out_off
length-pending c =
    omega (arith, length-drop c.out_off (take c.out_len c.out_buf), length-take c.out_len c.out_buf)

zero_add : (m : ℕ) → 0 + m ≡ m
zero_add m = omega arith

suc_add : (n m : ℕ) → suc n + m ≡ suc (n + m)
suc_add n m = omega arith

drop-nil : (n : ℕ) → drop {A = ℕ} n [] ≡ []
drop-nil zero = refl
drop-nil (suc n) = refl

drop-drop : (m n : ℕ) (xs : List ℕ) → drop (m + n) xs ≡ drop n (drop m xs)
drop-drop zero n xs = ap (λ k. drop k xs) (zero_add n)
drop-drop (suc m) n [] = drop-nil (suc m + n) ∙ sym (drop-nil n)
drop-drop (suc m) n (x ∷ xs) = ap (λ k. drop k (x ∷ xs)) (suc_add m n) ∙ drop-drop m n xs

-- Taking `n` bytes off the front of what waits.
advance :
    (c : TapClient) (n : ℕ) (sent : List ℕ)
    → (sent ++ take n (pending c)) ++ pending (record c { out_off = c.out_off + n })
      ≡ sent ++ pending c
advance c n sent = rw (
  drop-drop c.out_off n (take c.out_len c.out_buf),
  append_assoc sent (take n (pending c)) (drop n (pending c)),
  take-append-drop n (pending c),
)

Flushed-end :
    (c : TapClient) (sent : List ℕ) → c.out_len ≤ c.out_off → Flushed c (emptied c) sent sent true
Flushed-end c sent le = record {
  same = ground arith;
  buffered = record { order = omega arith; room = omega arith };
  bytes = ap (λ xs. sent ++ xs) (sym (empty_lem (pending c) (omega (arith, length-pending c))));
  clear = λ e. (refl, refl);
}

-- A flush from a client that has been sent `n` bytes further is one from the client.
Flushed-advance :
    (c d : TapClient) (n : ℕ) (sent sent1 sent2 : List ℕ) (cleared : Bool)
    → sent1 ≡ sent ++ take n (pending c)
    → Flushed (record c { out_off = c.out_off + n }) d sent1 sent2 cleared
    → Flushed c d sent sent2 cleared
Flushed-advance c d n sent sent1 sent2 cleared e h = record {
  same = record {
    fd = h.same.fd;
    stream_id = h.same.stream_id;
    active = h.same.active;
    need_idr = h.same.need_idr;
    sps = h.same.sps;
    pps = h.same.pps;
  };
  buffered = h.buffered;
  bytes =
      h.bytes
      ∙ (ap (λ s. s ++ pending (record c { out_off = c.out_off + n })) e ∙ advance c n sent);
  clear = h.clear;
}

module _ {W : Type 0} {net : TapNet W} {wire : Option ℕ → W → List ℕ}
    (laws : TapLaws net wire) where
  -- The client is closed, or flushed.
  abbrev pub After : TapClient → W → Bool × (TapClient × W) → Type 0
  After c w out =
      (out.1.0 ≡ closed_client) ⊎ Flushed c out.1.0 (wire c.fd w) (wire c.fd out.1.1) out.0

  if-After :
      (c : TapClient) (w : W) (b : Bool) (x y : Bool × (TapClient × W))
      → (b ≡ true → After c w x)
      → (b ≡ false → After c w y)
      → After c w (if b then x else y)
  if-After c w true x y hx hy = hx refl
  if-After c w false x y hx hy = hy refl

  After-advance :
      (c : TapClient) (n : ℕ) (w w1 : W) (out : Bool × (TapClient × W))
      → wire c.fd w1 ≡ wire c.fd w ++ take n (pending c)
      → After (record c { out_off = c.out_off + n }) w1 out
      → After c w out
  After-advance c n w w1 out e (inl closed) = inl closed
  After-advance c n w w1 out e (inr h) =
      inr (Flushed-advance c out.1.0 n (wire c.fd w) (wire c.fd w1) (wire c.fd out.1.1) out.0 e h)

  on_sent-After :
      (rounds : ℕ) (next : TapClient → W → Bool × (TapClient × W))
      → ((d : TapClient) (w1 : W)
          → IsBuffered d
          → d.out_len ≤ d.out_off + rounds
          → After d w1 (next d w1))
      → (c : TapClient) (r : TapSend) (w w1 : W) → IsBuffered c
      → c.out_len ≤ c.out_off + suc rounds
      → ((n : ℕ)
          → r ≡ TapSend.took n
          → (n ≤ length (pending c)) × (wire c.fd w1 ≡ wire c.fd w ++ take n (pending c)))
      → (r ≡ TapSend.would_block → wire c.fd w1 ≡ wire c.fd w)
      → After c w (on_sent net next c (r, w1))
  unfolding on_sent client_close
  on_sent-After rounds next ih c (TapSend.took n) w w1 buffered enough takes blocks =
      if-After c w (n == 0) _ _ (λ e. inl refl)
        (λ e. After-advance c n w w1 _ (takes n refl).1 (
          ih (record c { out_off = c.out_off + n }) w1
            (record {
              order = ground (arith, (takes n refl).0, length-pending c);
              room = buffered.room;
            })
            (ground arith)))
  on_sent-After rounds next ih c TapSend.would_block w w1 buffered enough takes blocks =
      inr (record {
        same = ground arith;
        buffered = buffered;
        bytes = ap (λ s. s ++ pending c) (blocks refl);
        clear = λ e. ground arith;
      })
  on_sent-After rounds next ih c TapSend.broken w w1 buffered enough takes blocks = inl refl

  flush_loop-After :
      (rounds : ℕ) (c : TapClient) (w : W)
      → IsBuffered c
      → c.out_len ≤ c.out_off + rounds
      → After c w (flush_loop net rounds c w)
  unfolding flush_loop
  flush_loop-After zero c w buffered enough = inr (Flushed-end c (wire c.fd w) (omega arith))
  flush_loop-After (suc rounds) c w buffered enough =
      let d = pending c in
      if-After c w (ltb c.out_off c.out_len) _ _
        (λ e.
          on_sent-After rounds (flush_loop net rounds) (flush_loop-After rounds) c
            (net.send c.fd d w).0 w (net.send c.fd d w).1 buffered enough (laws.takes c.fd d w)
            (laws.blocks c.fd d w))
        (λ e. inr (Flushed-end c (wire c.fd w) (ground arith)))

  -- Given that `send` takes a first part of the bytes: flushing an active client, whose bytes to be
  -- sent lie inside its buffer, closes it, or the bytes sent and the bytes that still wait make up what
  -- was sent and waited before, in order; where it returns true, none wait.
  pub flush_out_buf-After :
      (c : TapClient) (w : W) → c.active ≡ true → IsBuffered c → After c w (flush_out_buf net c w)
  unfolding flush_out_buf
  flush_out_buf-After c w is_active buffered =
      if-After c w (not c.active) _ _ (λ e. absurd (ground arith))
        (λ e. flush_loop-After (c.out_len - c.out_off) c w buffered (omega arith))
