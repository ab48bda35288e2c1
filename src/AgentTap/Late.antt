-- ===== src/AgentTap/Late.antt =====
-- h264_tap.c of the agent: a client that joins late.
use myworkspace.Prelude.{
  ℕ, ◌≤◌, ◌≡◌, List, [], ◌∷◌, length, Bool, true, false, not, ◌&&◌, ◌||◌, ◌==◌, ltb, if-holds,
  arith, refl, ◌∙◌, All,
}
use myworkspace.Tap.{TapConfig}
use myworkspace.Tap.Net.{TapNet}
use myworkspace.Tap.Scan.{has_start_code, annexb_contains_nal_type}
use myworkspace.Tap.Publish.{first_nal_type}
use myworkspace.AgentTap.{
  AgentClient, agent_publish_to, agent_cache, agent_drop_stalled, agent_gate, set_if,
}

-- It waits for an IDR and nothing waits for it.
pub record IsWaiting (sid : ℕ) (c : AgentClient) : Type 0 where
  pub active : c.active ≡ true
  pub stream : c.stream_id ≡ sid
  pub need_idr : c.need_idr ≡ true
  pub empty : c.out_len ≤ c.out_off

-- Packets of the stream, one after the other.
abbrev pub agent_publishes :
    {W : Type 0} → TapNet W → TapConfig → ℕ → List (List ℕ) → AgentClient → W → AgentClient × W
agent_publishes net config sid [] c w = (c, w)
agent_publishes net config sid (d ∷ ds) c w =
    let (c1, w1) = agent_publish_to net config sid d c w in agent_publishes net config sid ds c1 w1

module _ {W : Type 0} (net : TapNet W) (sent : W → List ℕ)
    (realloc_sends : (n : ℕ) (w : W) → sent (net.realloc n w).1 ≡ sent w) where
  -- The client waits and nothing more was sent.
  abbrev Quiet : ℕ → W → AgentClient × W → Type 0
  Quiet sid before out = IsWaiting sid out.0 × (sent out.1 ≡ sent before)

  set_if-Quiet :
      (sid : ℕ) (before : W) (old new : AgentClient) (r : Bool × W)
      → IsWaiting sid old
      → IsWaiting sid new
      → sent r.1 ≡ sent before
      → Quiet sid before (set_if net old new r)
  unfolding set_if
  set_if-Quiet sid before old new (true, w) h k e = (k, e)
  set_if-Quiet sid before old new (false, w) h k e = (h, e)

  agent_cache-Quiet :
      (sid : ℕ) (c : AgentClient) (d : List ℕ) (w : W)
      → IsWaiting sid c
      → Quiet sid w (agent_cache net c d w)
  unfolding agent_cache
  agent_cache-Quiet sid c d w h =
      let new : (s p : List ℕ) → IsWaiting sid (record c { sps = s; pps = p }) = λ s p. record {
        active = h.active;
        stream = h.stream;
        need_idr = h.need_idr;
        empty = h.empty;
      } in
      let P = Quiet sid w in
      if-holds P (not (has_start_code d)) _ _ (λ e. (h, refl))
        (λ e.
          if-holds P (first_nal_type d == 7) _ _
            (λ e.
              set_if-Quiet sid w c _ (net.realloc (length d) w) h (new d c.pps)
                (realloc_sends (length d) w))
            (λ e.
              if-holds P (first_nal_type d == 8) _ _
                (λ e.
                  set_if-Quiet sid w c _ (net.realloc (length d) w) h (new c.sps d)
                    (realloc_sends (length d) w))
                (λ e. (h, refl))))

  agent_drop_stalled-Quiet :
      (config : TapConfig) (sid : ℕ) (before : W) (c : AgentClient) (w : W)
      → Quiet sid before (c, w)
      → Quiet sid before (agent_drop_stalled net config c w)
  unfolding agent_drop_stalled
  agent_drop_stalled-Quiet config sid before c w k =
      if-holds (Quiet sid before) (ltb c.out_off c.out_len && not (c.out_start_ns == 0)) _ _
        (λ e. absurd (ground (arith, k.0.empty))) (λ e. k)

  agent_publish_to-Quiet :
      (config : TapConfig) (sid : ℕ) (d : List ℕ) (c : AgentClient) (w : W)
      → IsWaiting sid c
      → annexb_contains_nal_type d 5 ≡ false
      → Quiet sid w (agent_publish_to net config sid d c w)
  unfolding agent_publish_to agent_gate
  agent_publish_to-Quiet config sid d c w h no_idr =
      let k = agent_cache-Quiet sid c d w h in
      let (c1, w1) = agent_cache net c d w in
      let k2 = agent_drop_stalled-Quiet config sid w c1 w1 k in
      let (c2, w2) = agent_drop_stalled net config c1 w1 in
      let is_idr = annexb_contains_nal_type d 5 in
      let P = Quiet sid w in
      if-holds P (not c.active || not (c.stream_id == sid)) _ _ (λ e. (h, refl))
        (λ e.
          if-holds P (ltb c2.out_off c2.out_len) _ _ (λ e. absurd (ground (arith, k2.0.empty)))
            (λ e.
              if-holds P (c2.need_idr && not is_idr) _ _ (λ e. k2)
                (λ e. absurd (ground (arith, k2.0.need_idr, no_idr)))))

  -- Given that `realloc` sends nothing: a client of the stream that waits for an IDR, with nothing left to send to it, gets no byte until a
  -- packet has one: over any packets without an IDR unit nothing is sent to it, and it still waits.
  pub agent_publishes-Quiet :
      (config : TapConfig) (sid : ℕ) (ds : List (List ℕ)) (c : AgentClient) (w : W)
      → IsWaiting sid c
      → All (λ d. annexb_contains_nal_type d 5 ≡ false) ds
      → let (c1, w1) = agent_publishes net config sid ds c w in
        IsWaiting sid c1 × (sent w1 ≡ sent w)
  agent_publishes-Quiet config sid [] c w h none_has = (h, refl)
  agent_publishes-Quiet config sid (d ∷ ds) c w h (no_idr, none_has) =
      let (c1, w1) = agent_publish_to net config sid d c w in
      let (k, e) = agent_publish_to-Quiet config sid d c w h no_idr in
      let (k1, e1) = agent_publishes-Quiet config sid ds c1 w1 k none_has in (k1, e1 ∙ e)
