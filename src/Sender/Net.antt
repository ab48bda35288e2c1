-- ===== src/Sender/Net.antt =====
-- What tcp_sender.c calls and does not implement: sockets, the resolver, the clock and the
-- allocator. `W` is the state of all that; an operation returns its result and the next state.
use myworkspace.Prelude.{ℕ, Bool, List, Option}

-- The result of `send`: the bytes taken, or the `errno` class that the loop tells apart.
pub data SendResult : Type 0 where
  sent : ℕ → SendResult
  interrupted would_block broken : SendResult

-- The result of `connect`: 0, EINPROGRESS, or any other error.
pub data ConnectResult : Type 0 where
  connected_now in_progress refused : ConnectResult

pub data SocketOption : Type 0 where
  tcp_nodelay so_sndbuf : SocketOption

-- `set_nonblocking` is the pair of `fcntl` calls; `resolve` is `inet_pton`, or `gethostbyname` where
-- that fails; `select_writable` is `select` with the timeout, `true` where it returned more than 0;
-- `socket_error` is `getsockopt` with SO_ERROR.
pub record Net (W : Type 0) : Type 0 where
  pub malloc : ℕ → W → Bool × W
  pub realloc : ℕ → W → Bool × W
  pub free : W → W
  pub now_monotonic_ns : W → ℕ × W
  pub usleep : ℕ → W → W
  pub socket : W → Option ℕ × W
  pub setsockopt : ℕ → SocketOption → ℕ → W → W
  pub set_nonblocking : ℕ → W → W
  pub resolve : List ℕ → W → Option ℕ × W
  pub connect : ℕ → ℕ → ℕ → W → ConnectResult × W
  pub select_writable : ℕ → ℕ → W → Bool × W
  pub socket_error : ℕ → W → ℕ × W
  pub close : ℕ → W → W
  pub send : ℕ → List ℕ → W → SendResult × W
