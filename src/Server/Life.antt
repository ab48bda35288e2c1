-- ===== src/Server/Life.antt =====
-- server.c: the start and the stop of the server's listening socket, and the wait for the handlers. The
-- closing of the clients' descriptors is in Clients, as is their list; the callback that the start
-- registers is `request_idr_for_stream_id` of Dispatch.
use myworkspace.Prelude.{
  ℕ, zero, suc, ◌*◌, ◌≡◌, List, Option, none, some, Bool, true, false, if◌then◌else◌, arith,
  is_some,
}

pub record ServerConfig : Type 0 where
  pub bind_host : List ℕ
  pub bind_port : ℕ
  pub max_connections : ℕ

-- The calls of the socket library and of the threads; `true` is success.
pub record ListenNet (W : Type 0) : Type 0 where
  pub socket : W → Option ℕ × W
  pub set_reuse : ℕ → W → W
  pub inet_pton : List ℕ → Bool
  pub bind : ℕ → List ℕ → ℕ → W → Bool × W
  pub listen : ℕ → ℕ → W → Bool × W
  pub set_nonblocking : ℕ → W → W
  pub create_accept_thread : W → Bool × W
  pub close : ℕ → W → W
  pub join_accept_thread : W → W
  pub usleep : ℕ → W → W
  pub clients_left : W → Bool

-- `listen_fd` is `none` for -1.
pub record Listener : Type 0 where
  pub config : ServerConfig
  pub listen_fd : Option ℕ
  pub running : Bool

unfoldable pub server_init : ServerConfig → Listener
server_init config = record { config = config; listen_fd = none; running = false }

module _ {W : Type 0} (net : ListenNet W) where
  -- The descriptor is closed and stays in `listen_fd`.
  give_up : Listener → ℕ → W → Bool × (Listener × W)
  give_up s fd w = (false, (s, net.close fd w))

  start_thread : Listener → ℕ → W → Bool × (Listener × W)
  unfolding give_up
  start_thread s fd w =
      let s1 = record s { running = true } in
      let (created, w1) = net.create_accept_thread (net.set_nonblocking fd w) in
      if created then (true, (s1, w1)) else give_up s1 fd w1

  start_listening : Listener → ℕ → W → Bool × (Listener × W)
  unfolding start_thread give_up
  start_listening s fd w =
      let (bound, w1) = net.bind fd s.config.bind_host s.config.bind_port w in
      let (listens, w2) = net.listen fd s.config.max_connections w1 in
      if bound then (if listens then start_thread s fd w2 else give_up s fd w2) else give_up s fd w1

  on_listen_fd : Listener → Option ℕ × W → Bool × (Listener × W)
  unfolding start_listening start_thread give_up
  on_listen_fd s (none, w) = (false, (record s { listen_fd = none }, w))
  on_listen_fd s (some fd, w) =
      let s1 = record s { listen_fd = some fd } in
      let w1 = net.set_reuse fd w in
      if net.inet_pton s.config.bind_host then start_listening s1 fd w1 else give_up s1 fd w1

  unfoldable pub server_start : Listener → W → Bool × (Listener × W)
  unfolding on_listen_fd start_listening start_thread give_up
  server_start s w = on_listen_fd s (net.socket w)

  close_listen : Option ℕ → W → W
  close_listen none w = w
  close_listen (some fd) w = net.close fd w

  unfoldable pub stop_listening : Listener → W → Listener × W
  unfolding close_listen
  stop_listening s w = (
    record s { running = false; listen_fd = none },
    net.join_accept_thread (close_listen s.listen_fd w),
  )

  -- The wait for the handlers: the limit of 6 s in steps of 50 ms is 120 rounds.
  unfoldable pub wait_clients : ℕ → W → W
  wait_clients zero w = w
  wait_clients (suc rounds) w =
      let rest = wait_clients rounds (net.usleep (50 * 1000) w) in
      if net.clients_left w then rest else w

  abbrev pub wait_rounds : ℕ
  wait_rounds = 120

  -- A server that started has an open socket and runs.
  pub server_start-running :
      (s : Listener) (w : W)
      → (server_start s w).0 ≡ true
      → let t = (server_start s w).1.0 in (t.running ≡ true) × (is_some t.listen_fd ≡ true)
  unfolding server_start
  server_start-running s w ok = started (net.socket w) ok
    where
      started :
          (r : Option ℕ × W)
          → (on_listen_fd s r).0 ≡ true
          → let t = (on_listen_fd s r).1.0 in (t.running ≡ true) × (is_some t.listen_fd ≡ true)
      started (none, w) ok = absurd (ground (arith, ok))
      started (some fd, w) ok = ground (arith, ok)
