-- ===== src/Tap.antt =====
-- stream_server/src/h264_tap.c: publishing the received packets to debugging clients. `fd` is `none`
-- for -1. A null buffer has size 0 (the code sets the two together). `out_buf` is what was last
-- written into the buffer, of which the bytes from `out_off` to `out_len` are still to be sent.
-- Each function runs under `g_tap.lock`.
pub mod Net
pub mod Scan
pub mod Flush
pub mod Publish
pub mod Clients
mod Tests
use myworkspace.Prelude.{ℕ, Bool, false, List, [], Option, none, ◌*◌, take, drop}

abbrev pub tap_max_clients : ℕ
tap_max_clients = 8

pub record TapClient : Type 0 where
  pub fd : Option ℕ
  pub stream_id : ℕ
  pub active : Bool
  pub out_buf : List ℕ
  pub out_cap : ℕ
  pub out_len : ℕ
  pub out_off : ℕ
  pub out_start_ns : ℕ
  pub need_idr : Bool
  pub sps : List ℕ
  pub pps : List ℕ

-- `g_stall_ms` and `g_drop_to_idr`.
pub record TapConfig : Type 0 where
  pub stall_ms : ℕ
  pub drop_to_idr : Bool

-- A client as `client_close` leaves it.
abbrev pub closed_client : TapClient
closed_client = record {
  fd = none;
  stream_id = 0;
  active = false;
  out_buf = [];
  out_cap = 0;
  out_len = 0;
  out_off = 0;
  out_start_ns = 0;
  need_idr = false;
  sps = [];
  pps = [];
}

-- What is still to be sent.
abbrev pub pending : TapClient → List ℕ
pending c = drop c.out_off (take c.out_len c.out_buf)
