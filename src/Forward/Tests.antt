-- ===== src/Forward/Tests.antt =====
-- A control connection of the agent, run to the host.
use myworkspace.Prelude.{ℕ, ◌≡◌, refl, List, [], ◌∷◌, map, arith, All}
use mathlib.Core.List.{flatten}
use myworkspace.Prelude.Int.{pos}
use myworkspace.Server.Tests.{net, net-DeliversAll}
use myworkspace.ControlSocket.{mouse_position, utf8_text, dispatch_cmd, process_packets}
use myworkspace.ControlSocket.Process.{bytes_of}
use myworkspace.ControlSocket.Tests.{keeping, actions, datagrams, datagrams-IsDatagram}
use myworkspace.Forward.{ctrl_loop}
use myworkspace.Forward.Frames.{framed, IsFrame}
use myworkspace.Forward.Host.{deliver, ctrl_loop-dispatch_all}

abbrev wire : List ℕ
wire = flatten (map framed (map bytes_of datagrams))

datagrams-IsFrame : All IsFrame (map bytes_of datagrams)
datagrams-IsFrame = omega arith

-- One byte at a time, a command, three bytes that are none and a text.
ctrl_loop-dispatch_all_example :
    process_packets keeping actions
      (pos 1920)
      (pos 1080)
      (ctrl_loop net deliver 4 7 wire []).1.1
      0
      []
    ≡ (
      2,
      utf8_text (b'o' ∷ b'k' ∷ []) ∷ mouse_position (pos 1919) (pos 0) (pos 1920) (pos 1080) ∷ [],
    )
unfolding dispatch_cmd
ctrl_loop-dispatch_all_example =
    ctrl_loop-dispatch_all net-DeliversAll keeping actions (pos 1920) (pos 1080) datagrams 4 7 wire
      [] datagrams-IsDatagram datagrams-IsFrame refl (omega arith)
