-- ===== src/Server/Clients/Lost.antt =====
-- server.c, `client_handler`: a client whose descriptor is closed before its handler looks at it.
use myworkspace.Prelude.{
  ℕ, ◌+◌, ◌≤◌, ◌<◌, ◌≡◌, List, ◌∷◌, length, none, some, true, ◌==◌, arith, ap, subst, sym,
  Bool-cases, inl, inr,
}
use myworkspace.Server.Clients.{
  Conns, started_conns, without, link, undo_link, spawn, fd_of, enter_handler, leave_handler,
  stop_running, close_clients,
}
use myworkspace.Server.Clients.Limit.{Steps-ConnsInv, started_conns-ConnsInv}
use myworkspace.Server.Clients.Steps.{
  Step, Steps, admit, reject, give_up, insert, spawn_failed, spawned, accept_ends, enter, leave,
  stop, close_each, done, further, ConnsInv, times, links, in_accept, one_if, links-unlink_client,
  times-without, links-close, links-length, one_if_self,
}

-- The client is in the list and no thread has it.
record IsLost (i : ℕ) (s : Conns) : Type 0 where
  linked : links i s.clients ≡ 1
  idle : times i s.created + times i s.handling + in_accept i s.accepting ≡ 0
  old : i < s.next_conn

is_same : (a b : ℕ) → a == b ≡ true → a ≡ b
is_same a b e = ground arith

other-thread :
    (i conn : ℕ) (cs : List ℕ) → times i cs ≡ 0 → 1 ≤ times conn cs → one_if (conn == i) ≡ 0
other-thread i conn cs off there = elim (Bool-cases (conn == i)) [
  | inl e ↦ absurd (omega (arith, off, there, ap (λ j. times j cs) (is_same conn i e)))
  | inr e ↦ ap one_if e
]

enter-IsLost :
    {i : ℕ} (s : Conns) (conn : ℕ)
    → IsLost i s
    → 1 ≤ times conn s.created
    → IsLost i (enter_handler s conn)
unfolding enter_handler times
enter-IsLost {i = i} s conn v there =
    let other = other-thread i conn s.created (omega (arith, v.idle)) there in
    let fewer = times-without i conn s.created in
    elim (fd_of conn s.clients)
      as (λ o. IsLost i (elim o [
        | none ↦ record s { created = without conn s.created }
        | some fd ↦ record s { created = without conn s.created; handling = conn ∷ s.handling }
      ])) [
        | none ↦ record { linked = v.linked; idle = omega (arith, v.idle, fewer); old = v.old }
        | some fd ↦ record {
          linked = v.linked;
          idle = omega (arith, v.idle, fewer, other);
          old = v.old;
        }
      ]

Step-IsLost :
    {max_connections i : ℕ} {s t : Conns} → IsLost i s → Step max_connections s t → IsLost i t
unfolding link undo_link spawn leave_handler stop_running close_clients links times
Step-IsLost v (admit s fd e full) = record {
  linked = v.linked;
  idle = omega (arith, v.idle);
  old = v.old;
}
Step-IsLost v (reject s e full) = v
Step-IsLost v (give_up s fd e) = record {
  linked = v.linked;
  idle = omega (arith, v.idle);
  old = v.old;
}
Step-IsLost {i = i} v (insert s fd e) = record {
  linked = ground (arith, v.linked, v.old);
  idle = ground (arith, v.idle, v.old);
  old = omega (arith, v.old);
}
Step-IsLost {i = i} v (spawn_failed s conn e) = record {
  linked =
      omega (arith, v.linked, v.idle, ap (in_accept i) e, links-unlink_client i conn s.clients);
  idle = omega (arith, v.idle);
  old = v.old;
}
Step-IsLost {i = i} v (spawned s conn e) = record {
  linked = v.linked;
  idle = omega (arith, v.idle, ap (in_accept i) e);
  old = v.old;
}
Step-IsLost v (accept_ends s e) = record {
  linked = v.linked;
  idle = omega (arith, v.idle);
  old = v.old;
}
Step-IsLost v (enter s conn there) = enter-IsLost s conn v there
Step-IsLost {i = i} v (leave s conn there) = record {
  linked = omega (
    arith,
    v.linked,
    links-unlink_client i conn s.clients,
    other-thread i conn s.handling (omega (arith, v.idle)) there,
  );
  idle = omega (arith, v.idle, times-without i conn s.handling);
  old = v.old;
}
Step-IsLost v (stop s) = record { linked = v.linked; idle = v.idle; old = v.old }
Step-IsLost {i = i} v (close_each s e) = record {
  linked = omega (arith, v.linked, links-close i s.clients);
  idle = v.idle;
  old = v.old;
}

Steps-IsLost :
    {max_connections i : ℕ} {s t : Conns} → IsLost i s → Steps max_connections s t → IsLost i t
Steps-IsLost v (done s) = v
Steps-IsLost v (further run step) = Step-IsLost (Steps-IsLost v run) step

entered-IsLost :
    {max_connections : ℕ} (s : Conns) (i : ℕ)
    → ConnsInv max_connections s
    → 1 ≤ times i s.created
    → fd_of i s.clients ≡ none
    → IsLost i (enter_handler s i)
unfolding enter_handler
entered-IsLost s i v there closed =
    let fewer = times-without i i s.created in
    subst
      (λ o. IsLost i (elim o [
        | none ↦ record s { created = without i s.created }
        | some fd ↦ record s { created = without i s.created; handling = i ∷ s.handling }
      ]))
      (sym closed)
      (record {
        linked = omega (arith, v.threads i, v.once i);
        idle = omega (arith, v.threads i, v.once i, fewer, one_if_self i);
        old = ground (arith, v.fresh i, v.threads i);
      })

-- A client whose descriptor `server_stop` has closed before its handler thread looks at it is lost: the
-- thread returns at once, and in every later state the client is still in the list, so that the list
-- that `server_stop` waits for is never empty.
pub enter_handler-Lost :
    (max_connections : ℕ) (s t : Conns) (conn : ℕ)
    → Steps max_connections started_conns s
    → 1 ≤ times conn s.created
    → fd_of conn s.clients ≡ none
    → Steps max_connections (enter_handler s conn) t
    → (links conn t.clients ≡ 1) × (1 ≤ length t.clients)
enter_handler-Lost max_connections s t conn run there closed later =
    let v = Steps-ConnsInv (started_conns-ConnsInv max_connections) run in
    let lost = Steps-IsLost (entered-IsLost s conn v there closed) later in
    (lost.linked, omega (arith, lost.linked, links-length conn t.clients))
