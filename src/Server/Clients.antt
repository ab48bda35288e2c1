-- ===== src/Server/Clients.antt =====
-- server.c: the list of the connections, which the accepting thread, the handler threads and `server_stop`
-- share. Each operation is one critical section of `clients_lock` or what lies between two. A
-- `ClientConn*` is a number that no other allocation has, `fd == -1` is `none`; `created` are the handler
-- threads that have not looked at their client yet, `handling` those that have entered their loop.
pub mod Steps
pub mod Limit
pub mod Lost
use myworkspace.Prelude.{
  ℕ, ◌+◌, ◌-◌, List, [], ◌∷◌, map, Option, none, some, Bool, true, false, not, ◌==◌, leb,
  if◌then◌else◌, add64,
}

pub record ClientConn : Type 0 where
  pub conn : ℕ
  pub fd : Option ℕ
  pub current_stream_id : ℕ

-- Where the accepting thread is: before `accept`, past the check of the limit, past the insertion, or
-- at its end.
pub data Accepting : Type 0 where
  waiting ended : Accepting
  admitted : ℕ → Accepting
  spawning : ℕ → Accepting

pub record Conns : Type 0 where
  pub running : Bool
  pub accepting : Accepting
  pub clients : List ClientConn
  pub client_count : ℕ
  pub total_connections : ℕ
  pub next_conn : ℕ
  pub created : List ℕ
  pub handling : List ℕ

-- `server_init`, then `server_start`.
abbrev pub started_conns : Conns
started_conns = record {
  running = true;
  accepting = waiting;
  clients = [];
  client_count = 0;
  total_connections = 0;
  next_conn = 0;
  created = [];
  handling = [];
}

-- The client is taken out of the list where it is in it.
unfoldable pub unlink_client : ℕ → List ClientConn → List ClientConn
unlink_client conn [] = []
unlink_client conn (c ∷ cs) =
    let rest = unlink_client conn cs in if c.conn == conn then cs else c ∷ rest

abbrev pub is_linked : ℕ → List ClientConn → Bool
is_linked conn [] = false
is_linked conn (c ∷ cs) = if c.conn == conn then true else is_linked conn cs

-- A thread out of a list of threads.
unfoldable pub without : ℕ → List ℕ → List ℕ
without conn [] = []
without conn (c ∷ cs) = let rest = without conn cs in if c == conn then cs else c ∷ rest

unfoldable pub is_full : ℕ → Conns → Bool
is_full max_connections s = leb max_connections s.client_count

-- A client in front of the list.
unfoldable pub link : Conns → ℕ → Conns
link s fd = record s {
  accepting = spawning s.next_conn;
  clients = record { conn = s.next_conn; fd = some fd; current_stream_id = 0 } ∷ s.clients;
  client_count = s.client_count + 1;
  total_connections = add64 s.total_connections 1;
  next_conn = s.next_conn + 1;
}

-- `pthread_create` failed.
unfoldable pub undo_link : Conns → ℕ → Conns
undo_link s conn = record s {
  accepting = waiting;
  clients = unlink_client conn s.clients;
  client_count = (if is_linked conn s.clients then s.client_count - 1 else s.client_count);
}

unfoldable pub spawn : Conns → ℕ → Conns
spawn s conn = record s { accepting = waiting; created = conn ∷ s.created }

abbrev pub fd_of : ℕ → List ClientConn → Option ℕ
fd_of conn [] = none
fd_of conn (c ∷ cs) = if c.conn == conn then c.fd else fd_of conn cs

-- The start of `client_handler`: it returns at once where its descriptor has been closed.
unfoldable pub enter_handler : Conns → ℕ → Conns
enter_handler s conn =
    let others = record s { created = without conn s.created } in
    elim (fd_of conn s.clients) [
      | none ↦ others
      | some fd ↦ record others { handling = conn ∷ s.handling }
    ]

-- The end of `client_handler`: the count goes down whether the client was found or not.
unfoldable pub leave_handler : Conns → ℕ → Conns
leave_handler s conn = record s {
  handling = without conn s.handling;
  clients = unlink_client conn s.clients;
  client_count = s.client_count - 1;
}

abbrev pub without_fd : ClientConn → ClientConn
without_fd c = record c { fd = none }

-- `server_stop` before and after it has joined the accepting thread.
unfoldable pub stop_running : Conns → Conns
stop_running s = record s { running = false }

unfoldable pub close_clients : Conns → Conns
close_clients s = record s { clients = map without_fd s.clients }
