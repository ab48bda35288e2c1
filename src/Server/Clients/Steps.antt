-- ===== src/Server/Clients/Steps.antt =====
-- server.c: the threads' steps in any order, and what holds in every state that they reach.
use myworkspace.Prelude.{
  ℕ, suc, ◌+◌, ◌-◌, ◌≤◌, ◌≡◌, List, [], ◌∷◌, length, map, Bool, true, false, ◌==◌, arith, refl, ap,
}
use myworkspace.Server.Clients.{
  ClientConn, Accepting, waiting, ended, admitted, spawning, Conns, unlink_client, is_linked,
  without, is_full, link, undo_link, spawn, enter_handler, leave_handler, stop_running,
  close_clients, without_fd,
}

abbrev pub one_if : Bool → ℕ
one_if true = 1
one_if false = 0

-- How often a client is in a list.
unfoldable pub times : ℕ → List ℕ → ℕ
times i [] = 0
times i (c ∷ cs) = one_if (c == i) + times i cs

unfoldable pub links : ℕ → List ClientConn → ℕ
links i [] = 0
links i (c ∷ cs) = one_if (c.conn == i) + links i cs

abbrev pub in_accept : ℕ → Accepting → ℕ
in_accept i waiting = 0
in_accept i ended = 0
in_accept i (admitted fd) = 0
in_accept i (spawning conn) = one_if (conn == i)

abbrev pub is_admitted : Accepting → ℕ
is_admitted waiting = 0
is_admitted ended = 0
is_admitted (admitted fd) = 1
is_admitted (spawning conn) = 0

-- One step of one of the threads.
pub data Step (max_connections : ℕ) : Conns → Conns → Type 0 where
  admit :
      (s : Conns) (fd : ℕ)
      → s.accepting ≡ waiting
      → is_full max_connections s ≡ false
      → Step max_connections s (record s { accepting = admitted fd })
  reject :
      (s : Conns)
      → s.accepting ≡ waiting
      → is_full max_connections s ≡ true
      → Step max_connections s s
  give_up :
      (s : Conns) (fd : ℕ)
      → s.accepting ≡ admitted fd
      → Step max_connections s (record s { accepting = waiting })
  insert : (s : Conns) (fd : ℕ) → s.accepting ≡ admitted fd → Step max_connections s (link s fd)
  spawn_failed :
      (s : Conns) (conn : ℕ)
      → s.accepting ≡ spawning conn
      → Step max_connections s (undo_link s conn)
  spawned :
      (s : Conns) (conn : ℕ) → s.accepting ≡ spawning conn → Step max_connections s (spawn s conn)
  accept_ends :
      (s : Conns) → s.accepting ≡ waiting → Step max_connections s (record s { accepting = ended })
  enter :
      (s : Conns) (conn : ℕ)
      → 1 ≤ times conn s.created
      → Step max_connections s (enter_handler s conn)
  leave :
      (s : Conns) (conn : ℕ)
      → 1 ≤ times conn s.handling
      → Step max_connections s (leave_handler s conn)
  stop : (s : Conns) → Step max_connections s (stop_running s)
  close_each : (s : Conns) → s.accepting ≡ ended → Step max_connections s (close_clients s)

pub data Steps (max_connections : ℕ) : Conns → Conns → Type 0 where
  done : (s : Conns) → Steps max_connections s s
  further :
      {s t u : Conns}
      → Steps max_connections s t
      → Step max_connections t u
      → Steps max_connections s u

pub record ConnsInv (max_connections : ℕ) (s : Conns) : Type 0 where
  pub count : s.client_count ≡ length s.clients
  pub room : length s.clients + is_admitted s.accepting ≤ max_connections
  pub fresh : (i : ℕ) → s.next_conn ≤ i → links i s.clients ≡ 0
  pub once : (i : ℕ) → links i s.clients ≤ 1
  pub threads :
      (i : ℕ) → times i s.created + times i s.handling + in_accept i s.accepting ≤ links i s.clients

pub links-unlink_client :
    (i conn : ℕ) (cs : List ClientConn)
    → links i (unlink_client conn cs) ≡ links i cs - one_if (conn == i)
unfolding links unlink_client
links-unlink_client i conn [] = ground arith
links-unlink_client i conn (c ∷ cs) = ground (arith, links-unlink_client i conn cs)

pub times-without :
    (i conn : ℕ) (cs : List ℕ) → times i (without conn cs) ≡ times i cs - one_if (conn == i)
unfolding times without
times-without i conn [] = ground arith
times-without i conn (c ∷ cs) = ground (arith, times-without i conn cs)

pub links-length : (i : ℕ) (cs : List ClientConn) → links i cs ≤ length cs
unfolding links
links-length i [] = omega arith
links-length i (c ∷ cs) = ground (arith, links-length i cs)

pub one_if_self : (conn : ℕ) → one_if (conn == conn) ≡ 1
one_if_self conn = ground arith

pub length-unlink_client :
    (conn : ℕ) (cs : List ClientConn)
    → 1 ≤ links conn cs
    → length (unlink_client conn cs) ≡ length cs - 1
unfolding links unlink_client
length-unlink_client conn [] there = absurd (omega arith)
length-unlink_client conn (c ∷ cs) there =
    ground (arith, length-unlink_client conn cs, links-length conn cs)

pub is_linked_lem : (conn : ℕ) (cs : List ClientConn) → 1 ≤ links conn cs → is_linked conn cs ≡ true
unfolding links
is_linked_lem conn [] there = absurd (omega arith)
is_linked_lem conn (c ∷ cs) there = ground (arith, is_linked_lem conn cs)

pub links-close : (i : ℕ) (cs : List ClientConn) → links i (map without_fd cs) ≡ links i cs
unfolding links
links-close i [] = refl
links-close i (c ∷ cs) = omega (arith, links-close i cs)

pub length-close : (cs : List ClientConn) → length (map without_fd cs) ≡ length cs
length-close [] = refl
length-close (c ∷ cs) = ap suc (length-close cs)
