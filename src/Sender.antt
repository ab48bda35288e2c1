-- ===== src/Sender.antt =====
-- src/tcp_sender.c and include/tcp_sender.h of the client: the state of a sender. The socket is
-- `none` for -1; a null `send_buffer` has size 0 (the code sets the two together), and the content of
-- the buffer is what each packet writes into it before it is sent. The constants of the protocol are
-- those of Protocol, which tcp_sender.h repeats.
pub mod Net
pub mod Buffer
pub mod Send
pub mod Packets
pub mod Connect
pub mod Tests
use myworkspace.Prelude.{ℕ, List, [], Option, none, ◌*◌}

pub data TcpSenderState : Type 0 where
  disconnected connecting connected error : TcpSenderState

-- The TCP_ERR_ codes that the code stores.
pub data TcpError : Type 0 where
  err_none err_no_memory err_socket_create err_connect err_send : TcpError
  err_not_connected err_packet_too_large : TcpError

pub record TcpSenderConfig : Type 0 where
  pub host : List ℕ
  pub port : ℕ
  pub stream_id : ℕ
  pub width : ℕ
  pub height : ℕ
  pub fps : ℕ
  pub bitrate : ℕ
  pub codec : ℕ
  pub chroma : ℕ
  pub bitdepth : ℕ
  pub video_format : ℕ
  pub color_space : ℕ
  pub color_range : ℕ

pub record TcpSender : Type 0 where
  pub sock_fd : Option ℕ
  pub state : TcpSenderState
  pub config : TcpSenderConfig
  pub packets_sent : ℕ
  pub bytes_sent : ℕ
  pub last_heartbeat_ns : ℕ
  pub connect_time_ns : ℕ
  pub last_error : TcpError
  pub send_buffer_size : ℕ

-- `memset(sender, 0, sizeof(*sender))`, followed by `sock_fd = -1`.
abbrev pub zero_sender : TcpSender
zero_sender = record {
  sock_fd = none;
  state = disconnected;
  config = record {
    host = [];
    port = 0;
    stream_id = 0;
    width = 0;
    height = 0;
    fps = 0;
    bitrate = 0;
    codec = 0;
    chroma = 0;
    bitdepth = 0;
    video_format = 0;
    color_space = 0;
    color_range = 0;
  };
  packets_sent = 0;
  bytes_sent = 0;
  last_heartbeat_ns = 0;
  connect_time_ns = 0;
  last_error = err_none;
  send_buffer_size = 0;
}

abbrev pub default_send_buffer_size : ℕ
default_send_buffer_size = 2 * 1024 * 1024

-- What a function that sends returns: 0, -1, or that its loop has not ended within the rounds given.
pub data Progress : Type 0 where
  succeeded failed running : Progress
