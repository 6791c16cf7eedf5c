-- ===== src/Lib.antt =====
-- Verfploeter measures anycast catchments: a server schedules ping tasks on clients, a client sends
-- signed echo requests, and the clients that the replies reach report them to the server, which passes
-- them on to the subscribers of the task.
--
-- Parts of the program and their files:
--   Net            src/net/mod.rs: IPv4 and ICMP packets. `icmp_from` and `ipv4_from` are the `From`
--                  implementations, `to_bytes` is `Into<Vec<u8>>`. The crate `byteorder` is the parameter
--                  of Net/Cursor. A panic is the outcome `panic`.
--   Schema         src/schema/verfploeter.rs, one file for each message with its accessors,
--                  `compute_size`, `write_to_with_cached_sizes` (`write_to`) and `merge_from`. The crate
--                  `protobuf` is the parameter of Schema/Wire. Schema/Signed, Schema/Convert and
--                  Schema/Display are src/schema/mod.rs, with `hmac` and `sha2` as a parameter.
--   Client         src/client. Client/Inbound is handlers/ping_inbound.rs, one function for a round of
--                  each of its threads; Client/Inbound/Rounds interleaves the processor and the
--                  transmitter. Client/Outbound is handlers/ping_outbound.rs, the pings of one
--                  task; Client/Outbound/Threads interleaves the ping threads, with the mutex they
--                  share. Client/Handlers is the clock of handlers/mod.rs; Client/Tasks is the metadata and the task loop of mod.rs.
--   Server         src/server/mod.rs: Server/Connections is ConnectionManager, Server/Subscriptions the
--                  subscription list, Server/Service the handlers of VerfploeterService, one event each.
--                  Server/HashMap has what is used of the standard library's map.
--   Cli            src/cli: Cli/Enrichment is enrichment/mod.rs; Cli/Measurement has the request and
--                  the lines of perform_verfploeter_measurement in mod.rs, Cli/Execution the whole of it
--                  and of `execute` and print_client_list.
--   Program        src/main.rs: the configurations of the server and the client; Server/Setup and
--                  Client/Setup are what these make of them.
--   Tests          runs, the theorems at concrete inputs, and concrete values of the parameters.
--   Prelude        names, tests, lists and panics that the others share.
--
-- A payload that Client/Outbound signs goes into a packet of Net, comes back in a datagram that
-- Client/Inbound reads, and leaves it in a message of Schema that Server/Service hands to subscribers.
--
-- Bounds. Numbers are unbounded and wrap where the source's types do, as in a release build: the sums of
-- sizes and counters in 32 bits. The loop of `merge_from` has the length of the stream as fuel, and the
-- loop of the checksum over words that of the buffer, since each round takes a byte or more; the loop
-- that folds the carries has two rounds. The loop of the rate limiter is recursion on the limiter's law
-- that it lets a packet through after finitely many checks.
--
-- Not modelled: set-up of gRPC, TLS, sockets and threads, the end of the client's handlers, logging and
-- the metrics endpoint (no logic of their own); the reflection code of the messages; the
-- parsing of arguments and the texts of tables and JSON. A lock of the server is held for one
-- operation; interleavings inside a handler are not modelled. The ping threads are interleaved at each
-- request, the inbound threads at the lock of the queue. `sort_by_key` and `drain_filter` are the standard
-- library's, written out.
pub mod Prelude
pub mod Net
pub mod Schema
pub mod Client
pub mod Server
pub mod Cli
pub mod Program
pub mod Tests
