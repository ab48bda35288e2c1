-- ===== src/ControlSocket.antt =====
-- src/control_socket.c and include/control_socket.h: the datagrams by which the client is told to press
-- keys and to move the mouse. The functions of Moonlight are a parameter, on a world `W`: a call and
-- what it returns. A command is read as the processor has it, the lowest byte first.
pub mod Wire
pub mod Process
pub mod Tests
use myworkspace.Prelude.{
  ℕ, zero, suc, ◌+◌, ◌-◌, ◌*◌, ◌%◌, ◌^◌, List, [], ◌∷◌, Option, none, some, Bool, true, false, not,
  ◌&&◌, ◌||◌, ◌==◌, ltb, if◌then◌else◌, length, take, drop, get_or,
}
use myworkspace.Prelude.Int.{ℤ, pos, negsuc, leb_ℤ}

pub record ControlCmd : Type 0 where
  pub magic : ℕ
  pub version : ℕ
  pub type : ℕ
  pub a : ℤ
  pub b : ℤ
  pub c : ℤ
  pub d : ℤ
  pub seq : ℕ

abbrev pub ctrl_magic : ℕ
ctrl_magic = 0x4d4c4354

abbrev pub ctrl_version : ℕ
ctrl_version = 1

abbrev pub max_packet : ℕ
max_packet = 2048

-- `sizeof(MlControlCmd)`: the struct is packed.
abbrev pub cmd_size : ℕ
cmd_size = 32

-- Bit patterns of `2 ^ w` values, the signed number of one, and the pattern of a number: what a cast
-- to a signed type of the width keeps. `half` is `2 ^ (w - 1)`.
abbrev pub signed_of : ℕ → ℕ → ℤ
signed_of half p = if ltb p half then pos p else negsuc (half + half - 1 - p)

abbrev pub pattern_of : ℕ → ℤ → ℕ
pattern_of size (pos n) = n % size
pattern_of size (negsuc n) = size - 1 - n % size

unfoldable pub to_short : ℤ → ℤ
to_short z = signed_of (2 ^ 15) (pattern_of (2 ^ 16) z)

unfoldable pub to_char : ℤ → ℤ
to_char z = signed_of (2 ^ 7) (pattern_of (2 ^ 8) z)

abbrev pub byte_at : List ℕ → ℕ → ℕ
byte_at bytes i = get_or bytes i 0

unfoldable pub le16 : List ℕ → ℕ → ℕ
le16 bytes i = byte_at bytes i + 256 * byte_at bytes (i + 1)

unfoldable pub le32 : List ℕ → ℕ → ℕ
unfolding le16
le32 bytes i = le16 bytes i + 2 ^ 16 * le16 bytes (i + 2)

unfoldable pub le64 : List ℕ → ℕ → ℕ
unfolding le32
le64 bytes i = le32 bytes i + 2 ^ 32 * le32 bytes (i + 4)

unfoldable pub int32 : List ℕ → ℕ → ℤ
unfolding le32
int32 bytes i = signed_of (2 ^ 31) (le32 bytes i)

-- `memcpy` into the struct.
unfoldable pub read_cmd : List ℕ → ControlCmd
unfolding le16 le32 le64 int32
read_cmd bytes = record {
  magic = le32 bytes 0;
  version = le16 bytes 4;
  type = le16 bytes 6;
  a = int32 bytes 8;
  b = int32 bytes 12;
  c = int32 bytes 16;
  d = int32 bytes 20;
  seq = le64 bytes 24;
}

unfoldable pub clamp_int : ℤ → ℤ → ℤ → ℤ
clamp_int v lo hi = if not (leb_ℤ lo v) then lo else if not (leb_ℤ v hi) then hi else v

unfoldable pub clamp_short_signed : ℤ → ℤ
unfolding to_short
clamp_short_signed v =
    if not (leb_ℤ (negsuc 32767) v)
    then negsuc 32767
    else if not (leb_ℤ v (pos 32767))
    then pos 32767
    else to_short v

-- `(int32_t)` of a size.
unfoldable pub int_of_size : ℕ → ℤ
int_of_size n = signed_of (2 ^ 31) (n % 2 ^ 32)

-- The calls of Moonlight, in the order of the arguments.
pub data HostCall : Type 0 where
  mouse_position : ℤ → ℤ → ℤ → ℤ → HostCall
  mouse_move : ℤ → ℤ → HostCall
  mouse_button : ℤ → ℤ → HostCall
  scroll : ℤ → HostCall
  hscroll : ℤ → HostCall
  keyboard : ℤ → ℤ → ℤ → HostCall
  utf8_text : List ℕ → HostCall
  ask_idr : HostCall

-- Limelight.h's BUTTON_ACTION_PRESS and the like are values of the library.
pub record HostActions : Type 0 where
  pub press : ℤ
  pub release : ℤ
  pub key_down : ℤ
  pub key_up : ℤ

abbrev pub minus_one : ℤ
minus_one = negsuc 0

abbrev pub is_zero : ℤ → Bool
is_zero z = leb_ℤ z (pos 0) && leb_ℤ (pos 0) z

abbrev pub is_positive : ℤ → Bool
is_positive z = not (leb_ℤ z (pos 0))

-- `v - 1` of a number above 0.
abbrev pub one_less : ℤ → ℤ
one_less (pos n) = pos (n - 1)
one_less (negsuc n) = negsuc (n + 1)

unfoldable pub is_command : List ℕ → Bool
is_command packet =
    not (ltb (length packet) cmd_size)
    && (read_cmd packet).magic == ctrl_magic
    && (read_cmd packet).version == ctrl_version

module _ {W : Type 0} (host : HostCall → W → ℤ × W) (actions : HostActions) where
  unfoldable pub send_position : ControlCmd → ℤ → ℤ → W → ℤ × W
  unfolding clamp_int to_short
  send_position cmd ref_w ref_h w =
      if not (is_positive ref_w) || not (is_positive ref_h)
      then (minus_one, w)
      else host
          (mouse_position (to_short (clamp_int cmd.a (pos 0) (one_less ref_w)))
            (to_short (clamp_int cmd.b (pos 0) (one_less ref_h))) (to_short ref_w) (to_short ref_h))
          w

  -- Two calls, the second only if the first returns 0.
  unfoldable pub send_pair : HostCall → HostCall → W → ℤ × W
  send_pair first second w =
      let (rc, w1) = host first w in if not (is_zero rc) then (rc, w1) else host second w1

  unfoldable pub send_text : ControlCmd → List ℕ → W → ℤ × W
  unfolding int_of_size
  send_text cmd payload w =
      if not
        (leb_ℤ cmd.a (int_of_size (length payload)) && leb_ℤ (int_of_size (length payload)) cmd.a)
      then (minus_one, w)
      else if length payload == 0
      then (pos 0, w)
      else host (utf8_text payload) w

  unfoldable pub dispatch_cmd : ControlCmd → List ℕ → ℤ → ℤ → W → ℤ × W
  unfolding send_position send_pair send_text clamp_short_signed to_char to_short
  dispatch_cmd cmd payload reference_width reference_height w =
      if cmd.type == 1
      then send_position cmd (if is_positive cmd.c then cmd.c else reference_width)
          (if is_positive cmd.d then cmd.d else reference_height) w
      else if cmd.type == 2
      then host (mouse_move (clamp_short_signed cmd.a) (clamp_short_signed cmd.b)) w
      else if cmd.type == 3
      then host (mouse_button (to_char cmd.a) cmd.b) w
      else if cmd.type == 4
      then send_pair (mouse_button actions.press cmd.a) (mouse_button actions.release cmd.a) w
      else if cmd.type == 5
      then host (scroll (to_char cmd.a)) w
      else if cmd.type == 6
      then host (hscroll (to_char cmd.a)) w
      else if cmd.type == 7
      then host (keyboard (to_short cmd.a) (to_char cmd.b) (to_char cmd.c)) w
      else if cmd.type == 8
      then send_pair (keyboard (to_short cmd.a) actions.key_down (to_char cmd.b))
          (keyboard (to_short cmd.a) actions.key_up (to_char cmd.b)) w
      else if cmd.type == 9
      then send_text cmd payload w
      else if cmd.type == 10
      then (let (_, w1) = host ask_idr w in (pos 0, w1))
      else (minus_one, w)

  -- The datagrams that wait, each cut to the buffer, until `recvfrom` has no more: how many were
  -- commands.
  unfoldable pub process_packets : ℤ → ℤ → List (List ℕ) → ℕ → W → ℕ × W
  process_packets rw rh [] processed w = (processed, w)
  process_packets rw rh (datagram ∷ ds) processed w =
      let packet = take max_packet datagram in
      let handled =
        process_packets rw rh ds (processed + 1)
          (dispatch_cmd (read_cmd packet) (drop cmd_size packet) rw rh w).1 in
      let ignored = process_packets rw rh ds processed w in
      if is_command packet then handled else ignored

-- `recvfrom` on the socket, whose descriptor is -1 in the source where there is none.
pub record ControlSocket : Type 0 where
  pub fd : Option ℕ
  pub port : ℕ

module _ {W : Type 0} (host : HostCall → W → ℤ × W) (actions : HostActions) where
  unfoldable pub control_socket_process_all : ControlSocket → ℤ → ℤ → List (List ℕ) → W → ℕ × W
  unfolding process_packets
  control_socket_process_all s rw rh datagrams w = elim s.fd [
    | none ↦ (0, w)
    | some _ ↦ process_packets host actions rw rh datagrams 0 w
  ]

-- How the calls of an opening end, and what is left of it: the return value, the socket and the
-- descriptors that are open.
pub record OpenCalls : Type 0 where
  pub socket : Option ℕ
  pub set_nonblock : Bool
  pub valid_ip : List ℕ → Bool
  pub bind : List ℕ → ℕ → Bool

pub record Opened : Type 0 where
  pub ok : Bool
  pub socket : ControlSocket
  pub open_fds : List ℕ

abbrev pub no_socket : ControlSocket
no_socket = record { fd = none; port = 0 }

abbrev pub localhost : List ℕ
localhost = b'1' ∷ b'2' ∷ b'7' ∷ b'.' ∷ b'0' ∷ b'.' ∷ b'0' ∷ b'.' ∷ b'1' ∷ []

unfoldable pub control_socket_open : OpenCalls → List ℕ → ℕ → Opened
control_socket_open k bind_ip port =
    let failed : Opened = record { ok = false; socket = no_socket; open_fds = [] } in
    let ip = if length bind_ip == 0 then localhost else bind_ip in
    if port == 0 then record { ok = true; socket = no_socket; open_fds = [] } else elim k.socket [
      | none ↦ failed
      | some fd ↦
          if not k.set_nonblock || not (k.valid_ip ip) || not (k.bind ip port)
          then failed
          else record {
            ok = true;
            socket = record { fd = some fd; port = port };
            open_fds = fd ∷ [];
          }
    ]

-- The socket, and the descriptors that it closes.
unfoldable pub control_socket_close : ControlSocket → ControlSocket × List ℕ
control_socket_close s = elim s.fd [ none ↦ (no_socket, []) | some fd ↦ (no_socket, fd ∷ []) ]
