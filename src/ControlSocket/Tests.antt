-- ===== src/ControlSocket/Tests.antt =====
-- Datagrams of the control socket, run.
use myworkspace.Prelude.{ℕ, ◌^◌, ◌<◌, ◌≡◌, refl, List, [], ◌∷◌, some, true, false, arith, All, map}
use myworkspace.Prelude.Int.{ℤ, pos, negsuc}
use myworkspace.ControlSocket.{
  ControlCmd, HostCall, HostActions, mouse_position, utf8_text, ctrl_magic, is_command,
  dispatch_cmd, process_packets, control_socket_open,
}
use myworkspace.ControlSocket.Wire.{IsWritable, IsInt32}
use myworkspace.ControlSocket.Process.{
  Datagram, command, noise, bytes_of, IsDatagram, process_packets-dispatch_all,
  dispatch_cmd-nearest,
}

-- A host that keeps what it is called with, the newest first, and returns 0.
abbrev pub keeping : HostCall → List HostCall → ℤ × List HostCall
keeping call calls = (pos 0, call ∷ calls)

abbrev pub actions : HostActions
actions = record { press = pos 7; release = pos 8; key_down = pos 3; key_up = pos 4 }

abbrev pub cmd : ℕ → ℤ → ℤ → ControlCmd
cmd type a b = record {
  magic = ctrl_magic;
  version = 1;
  type = type;
  a = a;
  b = b;
  c = pos 0;
  d = pos 0;
  seq = 9;
}

abbrev pub datagrams : List Datagram
datagrams =
    command (cmd 1 (pos 4000) (negsuc 2)) []
    ∷ noise (1 ∷ 2 ∷ 3 ∷ [])
    ∷ command (cmd 9 (pos 2) (pos 0)) (b'o' ∷ b'k' ∷ [])
    ∷ []

cmd-IsWritable :
    (type : ℕ) (a b : ℤ) → type < 2 ^ 16 → IsInt32 a → IsInt32 b → IsWritable (cmd type a b)
cmd-IsWritable type a b t ha hb = record {
  magic = refl;
  version = refl;
  type = t;
  a = ha;
  b = hb;
  c = (omega arith, omega arith);
  d = (omega arith, omega arith);
  seq = omega arith;
}

pub datagrams-IsDatagram : All IsDatagram datagrams
unfolding is_command
datagrams-IsDatagram =
    let move = cmd-IsWritable 1 (pos 4000) (negsuc 2) (omega arith) (omega arith) (omega arith) in
    let text = cmd-IsWritable 9 (pos 2) (pos 0) (omega arith) (omega arith) (omega arith) in
    ((move, omega arith), (refl, ((text, omega arith), tt)))

-- A socket that cannot be bound is closed, and nothing is left open.
unbound :
    (control_socket_open
      (record { socket = some 5; set_nonblock = true; valid_ip = λ _. true; bind = λ _ _. false })
      []
      47999).open_fds
    ≡ []
unfolding control_socket_open
unbound = refl

process_packets-dispatch_all_example :
    process_packets keeping actions (pos 1920) (pos 1080) (map bytes_of datagrams) 0 [] ≡ (
      2,
      utf8_text (b'o' ∷ b'k' ∷ []) ∷ mouse_position (pos 1919) (pos 0) (pos 1920) (pos 1080) ∷ [],
    )
unfolding dispatch_cmd
process_packets-dispatch_all_example =
    process_packets-dispatch_all keeping actions (pos 1920) (pos 1080) datagrams 0 []
      datagrams-IsDatagram

dispatch_cmd-nearest_example :
    (dispatch_cmd keeping actions (cmd 1 (pos 4000) (negsuc 2)) [] (pos 1920) (pos 1080) []
      ≡ (pos 0, mouse_position (pos 1919) (pos 0) (pos 1920) (pos 1080) ∷ []))
    × (1919 < 1920)
    × (0 < 1080)
dispatch_cmd-nearest_example =
    dispatch_cmd-nearest keeping actions (cmd 1 (pos 4000) (negsuc 2)) [] (pos 1920) (pos 1080) []
      1920 1080 refl refl refl (omega arith, omega arith) (omega arith, omega arith)
