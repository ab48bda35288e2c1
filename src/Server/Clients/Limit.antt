-- ===== src/Server/Clients/Limit.antt =====
-- server.c: what holds in every state that the threads reach.
use myworkspace.Prelude.{ℕ, ◌+◌, ◌≤◌, ◌≡◌, ◌∷◌, length, none, some, ◌==◌, arith, refl, ap}
use myworkspace.Server.Clients.{
  Accepting, waiting, ended, admitted, spawning, Conns, started_conns, without, is_full, link,
  undo_link, spawn, fd_of, enter_handler, leave_handler, stop_running, close_clients,
}
use myworkspace.Server.Clients.Steps.{
  one_if, times, links, in_accept, is_admitted, Step, Steps, admit, reject, give_up, insert,
  spawn_failed, spawned, accept_ends, enter, leave, stop, close_each, done, further, ConnsInv,
  links-unlink_client, times-without, one_if_self, length-unlink_client, is_linked_lem, links-close,
  length-close,
}

module _ {max_connections : ℕ} (s : Conns) (v : ConnsInv max_connections s) where
  spawning-links :
      (conn i : ℕ)
      → s.accepting ≡ spawning conn
      → (1 ≤ links conn s.clients)
        × (times i s.created + times i s.handling + one_if (conn == i) ≤ links i s.clients)
  spawning-links conn i e = (
    omega (arith, v.threads conn, ap (in_accept conn) e, one_if_self conn),
    omega (arith, v.threads i, ap (in_accept i) e),
  )

  link-ConnsInv : (fd : ℕ) → s.accepting ≡ admitted fd → ConnsInv max_connections (link s fd)
  unfolding link links times
  link-ConnsInv fd e = record {
    count = omega (arith, v.count);
    room = ground (arith, v.room, e);
    fresh = λ i le. ground (arith, v.fresh i);
    once = λ i. ground (arith, v.fresh i, v.once i);
    threads = λ i. omega (arith, v.threads i, ap (in_accept i) e);
  }

  undo_link-ConnsInv :
      (conn : ℕ) → s.accepting ≡ spawning conn → ConnsInv max_connections (undo_link s conn)
  unfolding undo_link
  undo_link-ConnsInv conn e = record {
    count = ground (
      arith,
      v.count,
      is_linked_lem conn s.clients (spawning-links conn 0 e).0,
      length-unlink_client conn s.clients (spawning-links conn 0 e).0,
    );
    room = omega (arith, v.room, length-unlink_client conn s.clients (spawning-links conn 0 e).0);
    fresh = λ i le. omega (arith, v.fresh i le, links-unlink_client i conn s.clients);
    once = λ i. omega (arith, v.once i, links-unlink_client i conn s.clients);
    threads = λ i. omega (arith, (spawning-links conn i e).1, links-unlink_client i conn s.clients);
  }

  spawn-ConnsInv :
      (conn : ℕ) → s.accepting ≡ spawning conn → ConnsInv max_connections (spawn s conn)
  unfolding spawn times
  spawn-ConnsInv conn e = record {
    count = v.count;
    room = omega (arith, v.room);
    fresh = v.fresh;
    once = v.once;
    threads = λ i. omega (arith, (spawning-links conn i e).1);
  }

  enter_handler-ConnsInv :
      (conn : ℕ) → 1 ≤ times conn s.created → ConnsInv max_connections (enter_handler s conn)
  unfolding enter_handler times
  enter_handler-ConnsInv conn there =
      let fewer = λ (i : ℕ). times-without i conn s.created in
      let others : ConnsInv max_connections (record s { created = without conn s.created }) =
        record {
          count = v.count;
          room = v.room;
          fresh = v.fresh;
          once = v.once;
          threads = λ i. omega (arith, v.threads i, fewer i);
        } in
      elim (fd_of conn s.clients)
        as (λ o. ConnsInv max_connections (elim o [
          | none ↦ record s { created = without conn s.created }
          | some fd ↦ record s { created = without conn s.created; handling = conn ∷ s.handling }
        ])) [
          | none ↦ others
          | some fd ↦ record {
            count = v.count;
            room = v.room;
            fresh = v.fresh;
            once = v.once;
            threads = λ i. ground (arith, v.threads i, fewer i);
          }
        ]

  leave_handler-ConnsInv :
      (conn : ℕ) → 1 ≤ times conn s.handling → ConnsInv max_connections (leave_handler s conn)
  unfolding leave_handler
  leave_handler-ConnsInv conn there = record {
    count = omega (arith, v.count, v.threads conn, length-unlink_client conn s.clients);
    room = omega (arith, v.room, v.threads conn, length-unlink_client conn s.clients);
    fresh = λ i le. omega (arith, v.fresh i le, links-unlink_client i conn s.clients);
    once = λ i. omega (arith, v.once i, links-unlink_client i conn s.clients);
    threads = λ i.
        ground (
          arith,
          v.threads i,
          times-without i conn s.handling,
          links-unlink_client i conn s.clients,
        );
  }

  close_clients-ConnsInv : ConnsInv max_connections (close_clients s)
  unfolding close_clients
  close_clients-ConnsInv = record {
    count = omega (arith, v.count, length-close s.clients);
    room = omega (arith, v.room, length-close s.clients);
    fresh = λ i le. omega (arith, v.fresh i le, links-close i s.clients);
    once = λ i. omega (arith, v.once i, links-close i s.clients);
    threads = λ i. omega (arith, v.threads i, links-close i s.clients);
  }

  accepting-ConnsInv :
      (a : Accepting)
      → length s.clients + is_admitted a ≤ max_connections
      → ((i : ℕ) → in_accept i a ≡ 0)
      → ConnsInv max_connections (record s { accepting = a })
  accepting-ConnsInv a room idle = record {
    count = v.count;
    room = room;
    fresh = v.fresh;
    once = v.once;
    threads = λ i. omega (arith, v.threads i, idle i);
  }

Step-ConnsInv :
    {max_connections : ℕ} {s t : Conns}
    → ConnsInv max_connections s
    → Step max_connections s t
    → ConnsInv max_connections t
unfolding is_full stop_running
Step-ConnsInv v (admit s fd e full) =
    accepting-ConnsInv s v (admitted fd) (ground (arith, v.count, v.room)) (λ i. refl)
Step-ConnsInv v (reject s e full) = v
Step-ConnsInv v (give_up s fd e) =
    accepting-ConnsInv s v waiting (omega (arith, v.room)) (λ i. refl)
Step-ConnsInv v (insert s fd e) = link-ConnsInv s v fd e
Step-ConnsInv v (spawn_failed s conn e) = undo_link-ConnsInv s v conn e
Step-ConnsInv v (spawned s conn e) = spawn-ConnsInv s v conn e
Step-ConnsInv v (accept_ends s e) = accepting-ConnsInv s v ended (omega (arith, v.room)) (λ i. refl)
Step-ConnsInv v (enter s conn there) = enter_handler-ConnsInv s v conn there
Step-ConnsInv v (leave s conn there) = leave_handler-ConnsInv s v conn there
Step-ConnsInv v (stop s) = record {
  count = v.count;
  room = v.room;
  fresh = v.fresh;
  once = v.once;
  threads = v.threads;
}
Step-ConnsInv v (close_each s e) = close_clients-ConnsInv s v

pub Steps-ConnsInv :
    {max_connections : ℕ} {s t : Conns}
    → ConnsInv max_connections s
    → Steps max_connections s t
    → ConnsInv max_connections t
Steps-ConnsInv v (done s) = v
Steps-ConnsInv v (further run step) = Step-ConnsInv (Steps-ConnsInv v run) step

pub started_conns-ConnsInv : (max_connections : ℕ) → ConnsInv max_connections started_conns
unfolding links times
started_conns-ConnsInv max_connections = record {
  count = refl;
  room = omega arith;
  fresh = λ i le. refl;
  once = λ i. omega arith;
  threads = λ i. omega arith;
}

-- In whatever order the accepting thread, the handler threads and `server_stop` take their steps: the
-- count is the length of the list, the list is never longer than the limit, and the client of a handler
-- in its loop is in the list, once.
pub Steps-Limit :
    (max_connections : ℕ) (s : Conns)
    → Steps max_connections started_conns s
    → (s.client_count ≡ length s.clients)
      × (length s.clients ≤ max_connections)
      × ((conn : ℕ) → 1 ≤ times conn s.handling → links conn s.clients ≡ 1)
Steps-Limit max_connections s run =
    let v = Steps-ConnsInv (started_conns-ConnsInv max_connections) run in
    (v.count, omega (arith, v.room), λ conn there. omega (arith, v.threads conn, v.once conn))
