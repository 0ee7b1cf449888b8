-- ===== src/Lib.antt =====
-- A model of nsq_async_rs, an asynchronous Rust client for the NSQ message queue: what it writes to and
-- reads from nsqd, its connections, the responses to messages, the tasks of its consumer, and its
-- generic connection pool.
--
-- How the parts interact: a `Consumer` keeps a `Connection` for each nsqd, reads `Frame`s from it, gives
-- every `Message` a responder on that connection and spawns a task, which runs the user's handler and
-- then sends FIN or REQ by itself, and RDY for more messages. A `Producer` keeps a connection for each
-- nsqd too, writes its requests there and reads one frame for each. All of them write `Command`s, and
-- all open their connections by `Connection::new`. The pool is independent of the rest: its users say
-- what it pools.
--
--   Base        names and lemmas that all parts share: bytes, big-endian numbers, texts as UTF-8, decimals
--   Error       src/error.rs and the error types of src/protocol.rs
--   Protocol    src/protocol.rs:
--     Command       `Command` with `to_bytes`; Command/Request is a reader of the command stream, the
--                   other side of the wire, and Command/Reading its lemmas
--     RoundTrip     what is sent is read back
--     Message       the data of `Message` and `MessageResponder`
--     Frame         `read_frame`, `decode_message`, `decode_frame`, `Message::from_bytes`; Frame/Decode and
--                   Frame/Parse say what they do on every input
--     Words         `write_command` and `encode_command`
--   Connection  src/connection.rs: the handshake, `send_command`, `read_frame`, `ping`, `reconnect`, `close`;
--               Stream has the reading of bytes and frames and the writing; Frames, Setup, Sending and
--               Agree are the theorems
--   Network     what comes from outside the crate, and with it `Connection::new` and `connect_with_retry`;
--               Backoff has what the backoff crate promises, Addr that methods keep a connection's address
--   Commands    src/commands.rs: publishing and subscribing on a connection of its own
--   Lookup      src/lookup.rs: the addresses of the nodes that nsqlookupd answers
--   Producer    src/producer.rs; Publishing and Verdict are about the three publishing methods, Cache about
--               the cached connections, Sharing has publications that run at once on one producer
--   Responder   `finish`, `requeue` and `touch` of `Message`, over the flags and the connections that clones
--               of a message share
--   Consumer    src/consumer.rs: Names has the checks of topics and channels, Task the task of a message,
--               Session the loop of `handle_connection`, with its state in Session/State and the calls of
--               it that follow one another in Session/Calls; Permits and Bounded are about its permits,
--               Ends and Torn about how it ends. Retry has the task of `connect_to_nsqd` that connects
--               again, with Retry/Reads on failed reads and Jitter for its arithmetic on `f32`; Registry
--               the map of connections with all methods of `Consumer`, and Registry/Draining and Order
--               are about the order of that map
--   Pool        src/pool.rs, with its data in Data: `new`, `get`, `put`, `release` and the counts; Sweep
--               has `clean_idle_conns`, System a pool with its clients, Locks the locks that calls take
--               while they interleave, Cut calls of `get` that are dropped, and Ledger, Capacity, Fresh
--               and Waiters the theorems
--   Examples    Workers: the handlers of examples/consume/manual_ack_consume.rs and consume.rs, which pass
--               messages to workers through a bounded channel, with the tasks of Consumer/Task around
--               them; Places and Channel are about the channel, Sent and Answers about FIN and REQ.
--               Pooled: examples/pub/pool_producer.rs, a pool whose connections are producers
--   Tests       the theorems at concrete inputs
--
-- A function by clauses stands for each function of the source, with the same name; `self` is passed and
-- returned. A `Result` is `Outcome`, which also has a panic (a slice out of range, an underflow in a
-- build with overflow checks) and a wait without end. A `String` is its UTF-8 bytes. A number is a
-- natural one, and what is narrower in the source wraps where the source lets it (`as u32`, atomic
-- counters); the sizes of buffers in memory are taken to fit a `usize`.
--
-- A `Connection` holds its peer as data: the bytes that come in, how reading ends behind them, and how
-- many writes go through before one fails. The address of an `Arc` is a number. Shared flags and
-- connections are functions from addresses.
--
-- A `HashMap` is an association list with the newest entry in front; the order is the model's, and
-- Consumer/Registry/Order shows where it makes no difference.
--
-- In the pool, what runs under one lock is one step, and a `get` is two of them, between which any others
-- may run; Pool/Locks is a second view, of the locks alone: what a call locks and unlocks on each course
-- that it can take, and any interleaving of calls. A connection is counted from its factory to its
-- closer. Times are numbers on one clock. The pool also records, for the theorems only, what was
-- discarded and what was sent to waiters.
--
-- Parameters, for code that is not in the repository: `to_json` is `serde_json::to_string` on the
-- configuration of IDENTIFY; the factory, the closer and the pinger are what a pool is built with; a
-- handler is given by what it does; `reconnect` takes the outcome of connecting; and the random numbers
-- of the backoff are given, of which the theorem on sleeps asks that they are multiples of 2 ^ -24 below
-- 1, as the rand crate documents for `f32`. `Env` of Network holds what opening a connection needs: the
-- outcome of each `TcpStream::connect`, the printing of an error, the host name, and
-- `backoff::future::retry`. Of the last, theorems ask what the crate documents: it calls the operation, again after an error that is transient, and ends with its last
-- call. The HTTP request of a lookup is a function from a URL to the nodes that are listed.
--
-- Nothing is bounded by fuel, except for the printing of decimals, which takes one round for each digit
-- and is given one more than the number itself, and for the rounding to an `f32` in Base/F32: an exact
-- result is cut to 24 binary digits by halving it up to 40 times, which is enough below 2 ^ 64. In units
-- of 2 ^ -49, as Consumer/Jitter has them, results stay below 2 ^ 56.
--
-- The semaphore of a connection and the tasks that hold its permits outlive a call of
-- `handle_connection`, and each call has an RDY count of its own: a `Session` is a handler with all of
-- them. What other connections add to the counters of the consumer is not in it.
--
-- In Producer/Sharing a try of a publication is three steps, one for each lock that it takes: the map of
-- connections, then the write half and then the read half of its connection; between them any others
-- may run. A retry is a further try there. In Examples/Workers a step is a call that gets the lock on the
-- channel, the end of a worker's round or the rest of a message's task; a worker's choice to fail is given.
--
-- `ping` of a producer and the methods of a consumer run one after another. The deadline of `stop` is
-- given as the number of connections that it reaches.
--
-- `touch` of a message looks at the flag in one step and sends in another; in the runs of responses and
-- in the tasks the two follow one another, as the methods of a message do. `finish` and `requeue` set the
-- flag before they send, so that nothing can come between their look at it and that.
--
-- Not modelled: the waits on the locks other than the pool's; the cancellation of a call, but for a
-- `get` at the lock of the count; src/lib.rs, which only declares modules; the main functions of the
-- other examples and the tests, which call the crate in a row and log. Logging has no effect here, and neither have pauses.
pub mod Base
pub mod Error
pub mod Examples
pub mod Protocol
pub mod Pool
pub mod Connection
pub mod Responder
pub mod Lookup
pub mod Network
pub mod Commands
pub mod Producer
pub mod Consumer
pub mod Tests
