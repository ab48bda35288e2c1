-- ===== src/Server.antt =====
-- stream_server/src/server.c: the connections of the server. Receive reads the packets of one
-- connection, Dispatch acts on a packet, Clients is the list of the connections. The sockets' set-up and
-- the log lines are left out.
pub mod Receive
pub mod Dispatch
pub mod Session
pub mod Control
pub mod Life
pub mod Clients
pub mod Tests
