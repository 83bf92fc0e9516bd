-- ===== src/Lib.antt =====
-- A verification library for rusquitto, an MQTT 5 broker with one thread of execution per core.
--
-- Each core runs a shard. A shard accepts connections; a connection parses packets, checks topics
-- and filters (src/protocol.rs), keeps its subscriptions in the shard's topic trie
-- (src/broker/topics/trie.rs), and publishes through it. Sessions that outlive their connection
-- are kept on disk as a snapshot (src/persistence/session.rs) with a write-ahead log over it
-- (src/persistence/wal.rs), both in the encoding of src/persistence/codec.rs.
--
-- Where the parts stand:
--   Base         helpers: Boolean tests, equality, lists; Base.Assoc is `HashMap` as an association
--                list, Base.Text is `&str` as its bytes with `split`, `join` and the like.
--   Protocol     src/protocol.rs, function by function under the same names.
--   Topics.Filter  `filter_matches` and `filter_subsumes` of src/broker/topics/trie.rs; their loops
--                over two iterators are `match_levels` and `subsumes_levels`.
--   Topics.Trie  the trie of the same file. A node is its children and its subscribers; an
--                operation returns the new root with its answer. `insert` is written as the
--                recursion that its loop of `&mut` steps down the path makes; what is pushed to an
--                output vector is a list that is returned. View defines the entries of a trie and
--                its invariant, History the runs of operations.
--   Broker.Messages  the values that routing, migration and persistence share, from src/broker.
--   Broker.Shard  the life of a session, src/broker/shard.rs: `open_session`, `park_session`,
--                `reattach_parked`, `suspend_parked` and `close_session` as functions of the shard's
--                state. A mailbox is the deliveries that its channel holds; what is sent to the
--                parking task and to the peer shards is collected in the state.
--                Marks is the marks for the log; Upkeep is subscriptions, loading and persisting,
--                shedding and the sweep of expired sessions.
--   Broker.Routing  src/broker/shard/routing.rs: retained messages and the routing of a publish. Its
--                loops are `collapse`, `deliver_best` and `deliver_groups`; `pick` is the choice of
--                one member of a shared group.
--   Broker.Mesh  src/broker/shard/mesh.rs: claims and handoffs of sessions, and the view of the
--                members of shared groups that other shards have.
--   Persistence.Codec  src/persistence/codec.rs. A reader is a function from the bytes that are
--                left to a value and the rest, or an error; the position is implicit in the rest.
--                Errors keep the kind of the source's `io::Error`, not its text.
--   Persistence.Session  src/persistence/session.rs: `serialize`, `parse` and what they call.
--   Persistence.Wal  src/persistence/wal.rs: the records and `apply`.
--   Config       src/config.rs: the tree with its defaults; Config.Validate is `validate`, one
--                function for the clauses of each section, and `load`; Config.Rules has the rules of a
--                configuration in their own terms.
--   Auth         src/auth.rs, function by function under the same names.
--   Server.Connection  the outbound side of a connection, src/server/connection/delivery.rs and the
--                acknowledgements of src/server/connection/control.rs: a record of the fields that
--                it uses, and one function per method, from a connection to a connection and
--                whether the method returned `Ok`. `send_publish` is cut into the copy
--                (`message_of`), the packet id (`emit_with_id`) and the rest (`emit`).
--   Server.Packets  the packets of the mqttbytes crate that the broker names, and the errors that end
--                a connection.
--   Server.Inbound  src/server/connection/publish.rs, subscribe.rs and control.rs: the handlers of
--                what a client sends. A handler takes a client with its shard to a client and `ok`
--                or an error; what is forwarded to peers is collected in `forwarded`.
--   Server.Resume  `resume_delivery` of src/server/connection/delivery.rs.
--   Server.Connect  src/server/connection/connect.rs: `handle_connect` is cut at its early returns
--                into `negotiated`, `identified`, `authenticated`, `session_for` and `established`.
--   Server.Run   src/server/connection.rs: `parse_packet`, `process_one`, the cleanup of `run`
--                (`torn_down`) and the deadlines; Server.Run.Parking is `into_parts`, `resume` and
--                `reattach`.
--
-- Parameters. The MQTT wire codec (the mqttbytes crate) is the record `Wire`, with the law that
-- reading gives back what was written; `String::from_utf8` is a Boolean test on bytes. Both are
-- arguments of the readers, and the tests give a small codec that satisfies the law. A connection's
-- writers are any functions from a publish or a packet to bytes or an error, and its reader any
-- function from bytes to a packet or an error. `Crypto` is what the argon2 and sha2 crates answer;
-- the keyed hash that picks a shared member is a function from a topic and a payload. Paths, the
-- reading of a file and of TOML are arguments of the functions of the configuration. While a CONNECT
-- waits for the peers, `meanwhile` is what the other tasks do to the shard.
--
-- Numbers are natural numbers; the casts `as u16` and `as u32` are written as remainders, and the
-- lengths that must fit are hypotheses. `apply` runs on fuel, one more than the bytes of the log:
-- each round reads four bytes or more, and the theorems on it need no hypothesis on the fuel. The
-- packet-id allocator has a round for each of the 65535 ids; where all are taken, the source loops
-- for ever and the model answers `none`.
--
-- Not modelled: file I/O and the snapshot of retained messages, the asynchronous runtime, the event
-- loop's reads, flushes and race of futures, accepting, parking and maintenance of
-- src/server/shard, transports, the command line, logging and metrics; the interner of topic
-- segments, since equal segments are equal texts; floating-point rate limiting and the clock of a
-- connection's last activity; the senders of the mesh, of which the messages are kept.

pub mod Auth
pub mod Base
pub mod Config
pub mod Protocol
pub mod Topics
pub mod Broker
pub mod Persistence
pub mod Server
