-- ===== src/Forward/Host.antt =====
-- strem_agent_server/src/main.c and src/control_socket.c put together: a control connection of the agent,
-- the datagrams that it sends on, and the host that they are meant for.
use myworkspace.Prelude.{
  ℕ, ◌+◌, ◌<◌, ◌≡◌, sym, ap, ◌∙◌, List, [], ◌∷◌, ◌++◌, append_assoc, append-nil, length, map, All,
}
use mathlib.Core.List.{flatten}
use myworkspace.Prelude.Int.{ℤ}
use myworkspace.Server.Receive.{ConnNet}
use myworkspace.Server.Receive.Exact.{DeliversAll}
use myworkspace.ControlSocket.{HostCall, HostActions, process_packets}
use myworkspace.ControlSocket.Process.{
  Datagram, bytes_of, IsDatagram, commands, dispatch_all, process_packets-dispatch_all,
}
use myworkspace.Forward.{ctrl_loop}
use myworkspace.Forward.Frames.{framed, IsFrame, send_all_on, ctrl_loop-send_all_on}

-- A network that brings the datagrams in the order in which they are sent.
abbrev pub deliver : List ℕ → List (List ℕ) → List (List ℕ)
deliver d waiting = waiting ++ d ∷ []

deliver_all : (ds waiting : List (List ℕ)) → send_all_on deliver ds waiting ≡ waiting ++ ds
deliver_all [] waiting = sym (append-nil waiting)
deliver_all (d ∷ ds) waiting = deliver_all ds (waiting ++ d ∷ []) ∙ append_assoc waiting (d ∷ []) ds

module _ {W : Type 0} {net : ConnNet W} {incoming : ℕ → W → List ℕ}
    (laws : DeliversAll net incoming) {H : Type 0} (host : HostCall → H → ℤ × H)
    (actions : HostActions) (rw rh : ℤ) where
  -- End to end: a client of the agent that is through the handshake sends frames, each one command as
  -- the struct is laid out or bytes that are none, and closes. Over a stream that gives the bytes in
  -- whatever pieces, without a timeout, and a network that loses no datagram and keeps their order,
  -- the host is called for each command once, in order, and for nothing else, and the control
  -- socket counts the commands.
  pub ctrl_loop-dispatch_all :
      (ds : List Datagram) (rounds fd : ℕ) (w : W) (h : H)
      → All IsDatagram ds
      → All IsFrame (map bytes_of ds)
      → incoming fd w ≡ flatten (map framed (map bytes_of ds))
      → length (map bytes_of ds) < rounds
      → process_packets host actions rw rh (ctrl_loop net deliver rounds fd w []).1.1 0 h
        ≡ (0 + commands host actions rw rh ds, dispatch_all host actions rw rh ds h)
  ctrl_loop-dispatch_all ds rounds fd w h ok oks split enough =
      ap (λ (sent : List (List ℕ)). process_packets host actions rw rh sent 0 h)
        ((ctrl_loop-send_all_on laws deliver (map bytes_of ds) rounds fd w [] oks split enough).1
          ∙ deliver_all (map bytes_of ds) [])
      ∙ process_packets-dispatch_all host actions rw rh ds 0 h ok
