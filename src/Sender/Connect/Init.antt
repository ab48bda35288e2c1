-- ===== src/Sender/Connect/Init.antt =====
-- tcp_sender.c, `tcp_sender_init` with a configuration that is complete.
use myworkspace.Prelude.{
  ℕ, ◌≡◌, ◌≢◌, List, [], ◌∷◌, Bool, true, false, ◌==◌, ◌||◌, if-holds, arith, refl,
}
use myworkspace.Sender.{TcpSender, TcpSenderConfig, default_send_buffer_size}
use myworkspace.Sender.Net.{Net}
use myworkspace.Sender.Connect.{init, after_malloc, is_unset}

is_unset_lem : (host : List ℕ) → host ≢ [] → is_unset host ≡ false
is_unset_lem [] set = absurd (set refl)
is_unset_lem (c ∷ cs) set = refl

after_malloc_lem :
    {W : Type 0} (net : Net W) (config : TcpSenderConfig) (r : Bool × W)
    → (after_malloc net config r).0 ≡ r.0
unfolding after_malloc
after_malloc_lem net config (false, w) = refl
after_malloc_lem net config (true, w) = refl

-- Only the buffer can be missing.
pub init_lem :
    {W : Type 0} (net : Net W) (s : TcpSender) (config : TcpSenderConfig) (w : W)
    → config.port ≢ 0
    → config.host ≢ []
    → config.stream_id ≢ 0
    → (init net s config w).0 ≡ (net.malloc default_send_buffer_size w).0
unfolding init
init_lem {W = W} net s config w port host stream =
    let P = λ (r : Bool × (TcpSender × W)). r.0 ≡ (net.malloc default_send_buffer_size w).0 in
    if-holds P (config.port == 0 || is_unset config.host) _ _
      (λ e. absurd (ground (arith, is_unset_lem config.host host)))
      (λ e.
        if-holds P (config.stream_id == 0) _ _ (λ e. absurd (ground arith))
          (λ e. after_malloc_lem net config (net.malloc default_send_buffer_size w)))
