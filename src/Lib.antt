-- ===== src/Lib.antt =====
-- Verification of the streaming stack. A client on the gaming host sends encoded video over TCP with
-- a small length-prefixed protocol; `stream_server` receives it, decodes it and records it, and an
-- agent (`strem_agent_server`) forwards it. The compressed recorder gets events from the network
-- threads through a bounded queue, and one writer thread turns them into segment files.
--
-- Protocol: stream_server/src/protocol.c and include/protocol.h: the seven-byte header and the stream
--   information. Protocol/Agent: strem_agent_server/src/tlv_protocol.c, the agent's reader.
-- Recorder: stream_server/src/compressed_recorder.c. The modules below it follow the file: Os is what
--   the code calls (the C library, the file system, the clock, the callback), as a record of functions
--   on a world `W`, with no law assumed but where a theorem names one; Nal finds start codes; Params
--   caches parameter sets; Storage checks the mount; Paths names the segments; Idr asks for keyframes;
--   Segment opens, writes and closes files; Process is the writer thread; Queue is what the network
--   threads and the stop call; Config is the configuration and the start.
-- Sender: src/tcp_sender.c, the client's side: Net is what it calls, as a record of functions on a world;
--   Buffer grows the send buffer, Send is the loop around `send`, Packets builds and sends the messages
--   that Protocol reads, Connect is the life of the connection.
-- Tap: stream_server/src/h264_tap.c: Scan looks for NAL units, Flush sends a client's buffer, Publish
--   offers a packet to the clients, Clients is their slots.
-- Auth: strem_agent_server/src/auth.c: Line is what passes, Waits a line that is not ended.
-- Watchdog: stream_server/src/server.c, its two watchdogs for keyframes and the throttle they share.
-- Stream: stream_server/src/stream.c and include/stream.h: Env is what it calls (the decoders, the clock,
--   the environment), Route chooses the decoder, Decoder is what is done with one stream, Table is the
--   table of the streams, Stress the stress test, Shutdown their end.
-- Server: stream_server/src/server.c. Receive is the loop of `client_handler` over `recv`; Dispatch is
--   `handle_packet`, which changes the streams (Stream), tells the recorder (Recorder.Queue), publishes
--   to the tap (Tap) and runs the watchdogs (Watchdog); Session puts the two together; Clients is the
--   list of the connections, with the steps of its threads in any order; Control is the map of the
--   workers that are asked for keyframes; Life is the listening socket.
-- Bridge: stream_server/src/zmq_bridge.c: Json reads a request, Roi and Crop are the region that it asks
--   for, Frames the converted frames with their counts and the cache, Serve the loop over the parts of a
--   message, Runs the requests and what ZeroMQ lets go of in any order.
-- Worker: src/video_callbacks.c, which hands the frames of Moonlight to the sender (Sender).
-- AgentTap: strem_agent_server/src/h264_tap.c, publishing to the clients of the agent's tap; Late is a
--   client that joins.
-- Handshake: strem_agent_server/src/h264_tap.c, the AUTH and SUB lines of a client of the agent's tap.
-- ControlSocket: src/control_socket.c, the client's socket for the mouse and the keys: Wire is a command as
--   bytes, Process what the datagrams make of the host.
-- Forward: strem_agent_server/src/main.c, the control connections: Frames is what is sent on, Host puts them
--   together with ControlSocket.
-- Decode: stream_server/src/decoder.c: Device is the CUDA device that the decoders share.
-- Link: Sender and Server put together, from a frame given to the sender to `handle_packet`.
-- Prelude: the shared names, Boolean tests, lists and machine words.
--
-- Integers are naturals with the wrap-around of their width written out; a buffer is the list of its
-- bytes; NULL is `none`. Rounds of loops: `find_loop` is given the length of the buffer and
-- `analyze_loop` too, since each round moves at least a byte on; `advance_to` has the four rounds of
-- the source. `send_all` repeats an interrupted call without bound, so its rounds are a parameter; the
-- flush of the tap is given one round for each byte, as each takes at least one. `recv_exact` has one
-- round for each byte that it waits for; the rounds of `client_loop` and of `handshake_loop`, which run
-- until the peer or the deadline ends them, are a parameter.
--
-- Not modelled: the rest of the decoder, which calls FFmpeg, and the set-up of the ZeroMQ bridge; the command lines and the
-- start-up of the programs; logging and the output of statistics; mutexes. A function
-- that is one critical section is a step, and the interleavings of the steps are written out in
-- Server.Clients, Decode.Device.Users, Bridge.Runs, Recorder.Queue.Fifo and Watchdog.Spaced. `handle_packet`
-- is not one section, and several handler threads share the streams, the tap and the flags: it is modelled
-- as a thread runs it while no other one changes them, and what two threads make of the flag of the stress
-- test is in Server.Dispatch.Handle.Race; the vendored libraries.
pub mod AgentTap
pub mod Auth
pub mod Bridge
pub mod ControlSocket
pub mod Decode
pub mod Forward
pub mod Handshake
pub mod Link
pub mod Prelude
pub mod Protocol
pub mod Recorder
pub mod Sender
pub mod Server
pub mod Stream
pub mod Tap
pub mod Watchdog
pub mod Worker
