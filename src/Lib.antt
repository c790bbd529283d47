-- ===== src/Lib.antt =====
-- lightapr is a registry of nodes: nodes announce themselves over MQTT, on TCP or WebSocket, and
-- clients look them up over MQTT and HTTP. The parts that are modelled, each in the file of its name:
--
-- Packet: src/mqtt/mqtt_packet.hpp and mqtt_packet.cpp, the MQTT packets. A decoder is a run of
--   reads in the monad of Packet.Reading: a thrown exception, which the source catches, is a failure.
-- WebSocket: src/mqtt/websocket_codec.hpp and websocket_codec.cpp, the frames, with SHA-1 and base64
--   in WebSocket.Digest and the handshake in WebSocket.Handshake.
-- Accumulator: include/apr/stream_accumulator.hpp, the buffer that a session reads from.
-- Guard: include/apr/connection_guard.hpp and src/core/connection_guard.cpp, the limits that every
--   listener asks before it opens a session. Guard.Sessions and Guard.Rate are the histories of calls.
-- Node: the types of include/apr/node.hpp, and in Node.Json their JSON form. Json is what the code uses
--   of nlohmann/json, with the laws that are asked of it; Json.Samples fills it for the runs.
-- Registry: include/apr/registry.hpp and src/core/registry.cpp, with the methods that register,
--   announce and remove in Registry.Updates. Registry.Validity has a call as data (Command).
-- Http: src/http/http_parsing.hpp and http_parsing.cpp.
-- MqttServer: src/mqtt/mqtt_server.hpp and mqtt_server.cpp, with include/apr/tcp_session.hpp. A handler
--   works on one session and what it reaches: the other sessions, the registry and the guard. The
--   packets are in MqttServer.Packets, on_bytes_read in MqttServer.Stream, and the events of the I/O
--   loop, over the world of all sessions, in MqttServer.Events. MqttServer.Reads is the induction on
--   the steps of a read that the theorems on reads share.
-- HttpServer: src/http/http_server.hpp and http_server.cpp, the routes there and the connection in
--   HttpServer.Serving; ReadOnly, Cap and Repeats are about what a read does to the registry, the
--   guard and the connection, and Nodes about a registered node.
-- Client: sdk/cpp/src/apr_client.cpp and sdk/cpp/include/apr_sdk/apr_client.hpp, with its packets, its
--   state, its stream and its start in the children of those names. Client.Connecting and
--   Client.Opening are the client's CONNECT at the server and the read that it comes in,
--   Client.Receiving and Client.Batches the server's PUBLISH at the client, Client.Following the copy
--   of the registry that the events keep, and Client.Wire the messages in which the events come.
-- Memory: include/apr/memory_tracker.hpp and src/core/memory_tracker.cpp.
-- Logger: include/apr/logger.hpp and src/core/logger.cpp: the queue that threads fill and the worker
--   that empties it, with the steps of both in Logger.Order, and the log file with its rotation.
-- Daemon: src/main.cpp, how the process starts; the sweep timer beside the calls of the sessions in
--   Daemon.Sweeping, and the destruction of main's locals in Daemon.Shutdown.
--   Daemon.PosixPlatform is src/platforms/linux/posix_platform.cpp over an interface of the system calls;
--   what POSIX says of them is a record of laws, which PosixPlatform.Samples fills for the runs.
-- Topic: include/apr/mqtt_topic.hpp; Topic.Levels has the levels of MQTT and what they cover.
-- Options: include/apr/cli_options.hpp and src/core/cli_options.cpp, the pass in Options.Flags.
--
-- Prelude has what they share: texts as lists of bytes, maps with string keys as lists of entries in
-- the order of iteration, signed numbers for the gauges, and bits as arithmetic.
--
-- Each method of the registry and of the guard is one step under its lock; the sweep, which takes the
-- lock again for each removal, is modelled with no other call between. Time is an argument. size_t
-- and uint64_t wrap where the source's sums can reach 2 ^ 64: in decode_frame,
-- find_request_boundary, parse_digits and the pages of query_registry; counters and buffer sizes stay
-- far below. JSON values are of a type that is a parameter, with their serialisation; sizeof(node_info)
-- and std::string's max_size() are parameters, and std::stoul is one that may fail.
--
-- Fuel: the loops on the remaining length and on the topics of a SUBSCRIBE run on the bytes that are
-- left, and running out is an outcome of its own. The matching of topics runs on the length of the
-- filter, of which every turn takes a byte. Twenty digits are enough for a 64-bit number.
--
-- The loop over the frames runs on the bytes in the buffer, of which a frame takes two at least, and
-- the client's loops likewise; the requests of an HTTP connection run on the cap.
--
-- A session's write is an entry of its outbox, and its end an event; the strand of a session makes its
-- handlers one after the other, and the handlers of two sessions are taken so too. One MQTT listener
-- is modelled: the second, for WebSockets, shares registry and guard with it. The texts in JSON
-- values are taken to be UTF-8, so that dump() does not throw.
--
-- The threads that log and the log's worker are interleaved at each access to the gauge and the queue.
-- In Daemon.Expiry the lateness of the timer is a bound that is given.
--
-- Not modelled: the sockets, the worker threads of the I/O loop and their exceptions, the Windows
-- platform, the installation of signal handlers, the other SDKs, and the second listener.
pub mod Accumulator
pub mod Client
pub mod Daemon
pub mod Guard
pub mod Http
pub mod HttpServer
pub mod Json
pub mod Logger
pub mod Memory
pub mod MqttServer
pub mod Node
pub mod Options
pub mod Packet
pub mod Prelude
pub mod Registry
pub mod Topic
pub mod WebSocket
