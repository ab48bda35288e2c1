-- ===== src/ControlSocket/Process.antt =====
-- src/control_socket.c: what the datagrams that wait make of the host.
use myworkspace.Prelude.{
  ℕ, zero, suc, ◌+◌, ◌-◌, ◌≤◌, ◌<◌, ◌≡◌, refl, sym, ◌∙◌, List, [], ◌∷◌, true, false, arith, length,
  take, drop, if◌then◌else◌, All, min, ap, ap₂, subst, map,
}
use myworkspace.Prelude.Int.{ℤ, pos, negsuc}
use myworkspace.ControlSocket.{
  ControlCmd, HostCall, HostActions, mouse_position, max_packet, cmd_size, clamp_int, to_short,
  read_cmd, is_command, is_positive, one_less, send_position, dispatch_cmd, process_packets,
}
use myworkspace.ControlSocket.Wire.{written, IsWritable, read_cmd-written, is_command-written}

-- A datagram: a written command, or anything that is none.
pub data Datagram : Type 0 where
  command : ControlCmd → List ℕ → Datagram
  noise : List ℕ → Datagram

abbrev pub bytes_of : Datagram → List ℕ
bytes_of (command cmd payload) = written cmd payload
bytes_of (noise bytes) = bytes

-- A command fits into the buffer; what is none is no command cut to it either.
abbrev pub IsDatagram : Datagram → Type 0
IsDatagram (command cmd payload) = IsWritable cmd × (length payload ≤ max_packet - cmd_size)
IsDatagram (noise bytes) = is_command (take max_packet bytes) ≡ false

take-all : (n : ℕ) (xs : List ℕ) → length xs ≤ n → take n xs ≡ xs
take-all zero [] h = refl
take-all zero (x ∷ xs) h = absurd (omega arith)
take-all (suc n) [] h = refl
take-all (suc n) (x ∷ xs) h = rw (take-all n xs (omega arith))

module _ {W : Type 0} (host : HostCall → W → ℤ × W) (actions : HostActions) (rw rh : ℤ) where
  -- The commands one after the other.
  abbrev pub dispatch_all : List Datagram → W → W
  dispatch_all [] w = w
  dispatch_all (command cmd payload ∷ ds) w =
      dispatch_all ds (dispatch_cmd host actions cmd payload rw rh w).1
  dispatch_all (noise bytes ∷ ds) w = dispatch_all ds w

  abbrev pub commands : List Datagram → ℕ
  commands [] = 0
  commands (command cmd payload ∷ ds) = commands ds + 1
  commands (noise bytes ∷ ds) = commands ds

  process-command :
      (d : List ℕ) (ds : List (List ℕ)) (n : ℕ) (w : W)
      → is_command (take max_packet d) ≡ true
      → process_packets host actions rw rh (d ∷ ds) n w
        ≡ process_packets host actions rw rh ds
            (n + 1)
            (dispatch_cmd host actions
              (read_cmd (take max_packet d))
              (drop cmd_size (take max_packet d))
              rw
              rh
              w).1
  unfolding process_packets
  process-command d ds n w e = ground arith

  process-noise :
      (d : List ℕ) (ds : List (List ℕ)) (n : ℕ) (w : W)
      → is_command (take max_packet d) ≡ false
      → process_packets host actions rw rh (d ∷ ds) n w ≡ process_packets host actions rw rh ds n w
  unfolding process_packets
  process-noise d ds n w e = ground arith

  -- Of the datagrams that wait, commands as the struct is laid out and any that are none, the commands
  -- are dispatched once each, in their order, with their fields and the text behind them, the others
  -- change nothing, and the result counts the commands.
  pub process_packets-dispatch_all :
      (ds : List Datagram) (n : ℕ) (w : W)
      → All IsDatagram ds
      → process_packets host actions rw rh (map bytes_of ds) n w
        ≡ (n + commands ds, dispatch_all ds w)
  process_packets-dispatch_all [] n w all = unfold process_packets in ground arith
  process_packets-dispatch_all (command cmd payload ∷ ds) n w all =
      let whole = take-all max_packet (written cmd payload) (omega (arith, all.0.1)) in
      process-command (written cmd payload) (map bytes_of ds) n w
        (subst (λ p. is_command p ≡ true) (sym whole) (is_command-written cmd payload all.0.0))
      ∙ ap
          (λ (p : List ℕ).
            process_packets host actions rw rh (map bytes_of ds) (n + 1)
              (dispatch_cmd host actions (read_cmd p) (drop cmd_size p) rw rh w).1)
          whole
      ∙ ap
          (λ (c : ControlCmd).
            process_packets host actions rw rh (map bytes_of ds) (n + 1)
              (dispatch_cmd host actions c payload rw rh w).1)
          (read_cmd-written cmd payload all.0.0)
      ∙ process_packets-dispatch_all ds (n + 1) (dispatch_cmd host actions cmd payload rw rh w).1
          all.1
      ∙ ap (λ (k : ℕ). (k, dispatch_all (command cmd payload ∷ ds) w)) (omega arith)
  process_packets-dispatch_all (noise bytes ∷ ds) n w all =
      process-noise bytes (map bytes_of ds) n w all.0 ∙ process_packets-dispatch_all ds n w all.1

-- The place on an axis of `size` points that is nearest to a number.
abbrev pub nearest : ℤ → ℕ → ℕ
nearest (pos n) size = min n (size - 1)
nearest (negsuc n) size = 0

nearest_lem :
    (at : ℤ) (size : ℕ)
    → 0 < size
    → size ≤ 32767
    → to_short (clamp_int at (pos 0) (one_less (pos size))) ≡ pos (nearest at size)
unfolding to_short clamp_int
nearest_lem (pos n) size lt le = ground arith
nearest_lem (negsuc n) size lt le = ground arith

nearest-lt : (at : ℤ) (size : ℕ) → 0 < size → nearest at size < size
nearest-lt (pos n) size lt = omega arith
nearest-lt (negsuc n) size lt = lt

size_lem : (size : ℕ) → size ≤ 32767 → to_short (pos size) ≡ pos size
unfolding to_short
size_lem size le = ground arith

wrapped_size :
    (size : ℕ) → 32768 ≤ size → size < 65536 → to_short (pos size) ≡ negsuc (65535 - size)
unfolding to_short
wrapped_size size le lt = ground arith

module _ {W : Type 0} (host : HostCall → W → ℤ × W) (actions : HostActions) (cmd : ControlCmd)
    (payload : List ℕ) (rw rh : ℤ) (w : W) where
  send_position-pos :
      (sw sh : ℕ)
      → 0 < sw
      → 0 < sh
      → send_position host actions cmd (pos sw) (pos sh) w
        ≡ host
            (mouse_position
              (to_short (clamp_int cmd.a (pos 0) (one_less (pos sw))))
              (to_short (clamp_int cmd.b (pos 0) (one_less (pos sh))))
              (to_short (pos sw))
              (to_short (pos sh)))
            w
  unfolding send_position
  send_position-pos sw sh lw lh = ground arith

  dispatch-position :
      cmd.type ≡ 1
      → dispatch_cmd host actions cmd payload rw rh w
        ≡ send_position host actions cmd
            (if is_positive cmd.c then cmd.c else rw)
            (if is_positive cmd.d then cmd.d else rh)
            w
  unfolding dispatch_cmd
  dispatch-position e = ground arith

  -- An absolute mouse command, on a screen of the command's own size or else of the client's, of 1 to
  -- 32767 points each way, moves the mouse to the point of the screen nearest to what it asks for.
  pub dispatch_cmd-nearest :
      (sw sh : ℕ)
      → cmd.type ≡ 1
      → (if is_positive cmd.c then cmd.c else rw) ≡ pos sw
      → (if is_positive cmd.d then cmd.d else rh) ≡ pos sh
      → (0 < sw) × (sw ≤ 32767)
      → (0 < sh) × (sh ≤ 32767)
      → (dispatch_cmd host actions cmd payload rw rh w
          ≡ host
              (mouse_position (pos (nearest cmd.a sw)) (pos (nearest cmd.b sh)) (pos sw) (pos sh))
              w)
        × (nearest cmd.a sw < sw)
        × (nearest cmd.b sh < sh)
  dispatch_cmd-nearest sw sh t e f bw bh = (
    dispatch-position t
        ∙ ap₂ (λ (x y : ℤ). send_position host actions cmd x y w) e f
        ∙ send_position-pos sw sh bw.0 bh.0
        ∙ (λ i.
            host
              (mouse_position (nearest_lem cmd.a sw bw.0 bw.1 i) (nearest_lem cmd.b sh bh.0 bh.1 i)
                (size_lem sw bw.1 i) (size_lem sh bh.1 i))
              w),
    nearest-lt cmd.a sw bw.0,
    nearest-lt cmd.b sh bh.0,
  )

  -- A reference size above 32767 is cut to a negative one: where 32768 to 65535 points are told, the
  -- mouse is moved on a screen of a negative width.
  pub dispatch_cmd-negative_width :
      (sw sh : ℕ)
      → cmd.type ≡ 1
      → (if is_positive cmd.c then cmd.c else rw) ≡ pos sw
      → (if is_positive cmd.d then cmd.d else rh) ≡ pos sh
      → (32768 ≤ sw) × (sw < 65536)
      → 0 < sh
      → (x y height : ℤ) × (dispatch_cmd host actions cmd payload rw rh w
          ≡ host (mouse_position x y (negsuc (65535 - sw)) height) w)
  dispatch_cmd-negative_width sw sh t e f bw lh = (
    to_short (clamp_int cmd.a (pos 0) (one_less (pos sw))),
    to_short (clamp_int cmd.b (pos 0) (one_less (pos sh))),
    to_short (pos sh),
    dispatch-position t
        ∙ ap₂ (λ (x y : ℤ). send_position host actions cmd x y w) e f
        ∙ send_position-pos sw sh (omega arith) lh
        ∙ (λ i.
            host
              (mouse_position (to_short (clamp_int cmd.a (pos 0) (one_less (pos sw))))
                (to_short (clamp_int cmd.b (pos 0) (one_less (pos sh))))
                (wrapped_size sw bw.0 bw.1 i) (to_short (pos sh)))
              w),
  )
