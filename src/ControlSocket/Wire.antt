-- ===== src/ControlSocket/Wire.antt =====
-- src/control_socket.c: a command that is written as the struct is laid out is read back.
use myworkspace.Prelude.{
  ℕ, ◌+◌, ◌-◌, ◌*◌, ◌/◌, ◌%◌, ◌^◌, ◌<◌, ◌≡◌, List, [], ◌∷◌, true, arith, ap, ◌∙◌,
}
use myworkspace.Prelude.Int.{ℤ, pos, negsuc, ◌≤ℤ◌}
use myworkspace.ControlSocket.{
  ControlCmd, ctrl_magic, ctrl_version, signed_of, pattern_of, le32, int32, read_cmd, is_command,
}

abbrev pub bytes16 : ℕ → List ℕ → List ℕ
bytes16 p rest = p % 256 ∷ p / 256 % 256 ∷ rest

abbrev pub bytes32 : ℕ → List ℕ → List ℕ
bytes32 p rest = bytes16 (p % 2 ^ 16) (bytes16 (p / 2 ^ 16) rest)

abbrev pub bytes64 : ℕ → List ℕ → List ℕ
bytes64 p rest = bytes32 (p % 2 ^ 32) (bytes32 (p / 2 ^ 32) rest)

abbrev pub bytes_int : ℤ → List ℕ → List ℕ
bytes_int z = bytes32 (pattern_of (2 ^ 32) z)

-- A datagram of a command and the text behind it.
abbrev pub written : ControlCmd → List ℕ → List ℕ
written cmd payload = bytes32 cmd.magic (
    bytes16 cmd.version (
      bytes16 cmd.type (
        bytes_int cmd.a
          (bytes_int cmd.b (bytes_int cmd.c (bytes_int cmd.d (bytes64 cmd.seq payload)))))))

abbrev pub IsInt32 : ℤ → Type 0
IsInt32 z = (negsuc (2 ^ 31 - 1) ≤ℤ z) × (z ≤ℤ pos (2 ^ 31 - 1))

-- The fields are of their types, the magic number and the version the right ones.
pub record IsWritable (cmd : ControlCmd) : Type 0 where
  pub magic : cmd.magic ≡ ctrl_magic
  pub version : cmd.version ≡ ctrl_version
  pub type : cmd.type < 2 ^ 16
  pub a : IsInt32 cmd.a
  pub b : IsInt32 cmd.b
  pub c : IsInt32 cmd.c
  pub d : IsInt32 cmd.d
  pub seq : cmd.seq < 2 ^ 64

word_read :
    (p : ℕ)
    → p < 2 ^ 32
    → p % 2 ^ 16 % 256
        + 256 * (p % 2 ^ 16 / 256 % 256)
        + 2 ^ 16 * (p / 2 ^ 16 % 256 + 256 * (p / 2 ^ 16 / 256 % 256))
      ≡ p
word_read p h = omega arith

signed_read : (z : ℤ) → IsInt32 z → signed_of (2 ^ 31) (pattern_of (2 ^ 32) z) ≡ z
signed_read (pos n) h = ground arith
signed_read (negsuc n) h = ground arith

half_read : (p : ℕ) → p < 2 ^ 16 → p % 256 + 256 * (p / 256 % 256) ≡ p
half_read p h = omega arith

long_read :
    (p : ℕ)
    → p < 2 ^ 64
    → le32 (bytes32 (p % 2 ^ 32) []) 0 + 2 ^ 32 * le32 (bytes32 (p / 2 ^ 32) []) 0 ≡ p
unfolding le32
long_read p h = omega arith

int_read : (z : ℤ) → IsInt32 z → int32 (bytes_int z []) 0 ≡ z
unfolding int32
int_read z h =
    ap (signed_of (2 ^ 31)) (word_read (pattern_of (2 ^ 32) z) (pattern_lt z)) ∙ signed_read z h
  where
    pattern_lt : (z : ℤ) → pattern_of (2 ^ 32) z < 2 ^ 32
    pattern_lt (pos n) = omega arith
    pattern_lt (negsuc n) = omega arith

pub read_cmd-written :
    (cmd : ControlCmd) (payload : List ℕ) → IsWritable cmd → read_cmd (written cmd payload) ≡ cmd
unfolding read_cmd
read_cmd-written cmd payload v = λ i. record {
  magic = word_read cmd.magic (omega (arith, v.magic)) i;
  version = half_read cmd.version (omega (arith, v.version)) i;
  type = half_read cmd.type v.type i;
  a = int_read cmd.a v.a i;
  b = int_read cmd.b v.b i;
  c = int_read cmd.c v.c i;
  d = int_read cmd.d v.d i;
  seq = long_read cmd.seq v.seq i;
}

-- A written command is one, and its text stands behind it.
pub is_command-written :
    (cmd : ControlCmd) (payload : List ℕ) → IsWritable cmd → is_command (written cmd payload) ≡ true
unfolding is_command
is_command-written cmd payload v =
    rw (read_cmd-written cmd payload v) (ground (arith, v.magic, v.version))
