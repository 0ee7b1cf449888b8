-- ===== src/Examples/Pooled.antt =====
-- examples/pub/pool_producer.rs: a pool of src/pool.rs whose connections are producers of src/producer.rs.
pub mod Resting
pub mod Endings
use nsq_async_rs.Base.{ℕ, zero, suc, ◌+◌, ◌*◌, ◌-◌, true, none, some, List, [], ◌∷◌, ◌++◌, inl}
use nsq_async_rs.Base.Octets.{Bytes}
use nsq_async_rs.Base.Text.{bytes}
use nsq_async_rs.Base.Decimal.{show_dec}
use nsq_async_rs.Error.{Outcome, ok, err, panic, hang}
use nsq_async_rs.Responder.{update}
use nsq_async_rs.Network.{Env, Net}
use nsq_async_rs.Producer.{ProducerConfig, default_config, publish}
use nsq_async_rs.Pool.{
  Methods, Pool, PoolConfig, PoolError, PooledConn, Reply, Got, got, waits, new, get, put, release,
}

-- `p_cfg`
unfoldable pub producer_config : ProducerConfig
unfolding bytes
producer_config = record default_config { nsqd_addresses = bytes "127.0.0.1:4150" ∷ [] }

abbrev second : ℕ
second = 1_000_000_000

-- `pool_config`
abbrev pub pool_config : PoolConfig
pool_config = record {
  initial_cap = 3;
  max_cap = 10;
  max_idle = 5;
  idle_timeout = 30 * second;
  max_lifetime = 15 * second;
}

-- `nsq_producer_factory`, `nsq_producer_closer` and `nsq_producer_pinger`; a producer is known by its
-- number.
abbrev pub methods : Methods ℕ
methods = record {
  config = pool_config;
  factory = λ n. inl n;
  closer = λ t. none;
  pinger = some (λ t. true);
}

-- The pool, the cached connections of each producer, and the network that all of them share. `log` has
-- each message with what its publication has come to, and `errors` what `get` and `put` have failed
-- with, each with the newest in front.
pub record Bench : Type 0 where
  pub log : List (Bytes × Outcome (Unit {0}))
  pub errors : List PoolError
  pub pool : Pool ℕ
  pub caches : ℕ → List (Bytes × ℕ)
  pub net : Net

-- How `main`, or a part of it, ends.
pub data Ending : Type 0 where
  finished : Ending
  returns : PoolError → Ending
  panics : Ending
  hangs : Ending

abbrev pub then_on : Ending × Bench → (Bench → Ending × Bench) → Ending × Bench
then_on (finished, b) f = f b
then_on (returns e, b) f = (returns e, b)
then_on (panics, b) f = (panics, b)
then_on (hangs, b) f = (hangs, b)

-- A publication that failed is logged.
abbrev pub logged : Outcome (Unit {0}) → Ending
logged (ok u) = finished
logged (err e) = finished
logged panic = panics
logged hang = hangs

-- What is done with the error of a `put`: `?`, or it is logged.
abbrev pub or_return : Reply (Unit {0}) → Ending
or_return (Reply.ok u) = finished
or_return (Reply.err e) = returns e
or_return Reply.panic = panics

abbrev pub or_log : Reply (Unit {0}) → Ending
or_log (Reply.ok u) = finished
or_log (Reply.err e) = finished
or_log Reply.panic = panics

abbrev topic : Bytes
topic = bytes "test_topic"

abbrev pub failed_with {ℓ} : {A : Type ℓ} → Reply A → List PoolError → List PoolError
failed_with (Reply.err e) es = e ∷ es
failed_with _ es = es

-- The pool that an operation has left, with its reply.
abbrev pub after {ℓ} : {A : Type ℓ} → Reply A → Pool ℕ → Bench → Bench
after r p b = record b { pool = p; errors = failed_with r b.errors }

module _ (env : Env) where
  -- `pooled_conn.conn.publish(topic, message)`
  unfoldable pub publish_on : ℕ → ℕ → Bytes → Bench → Ending × Bench
  publish_on n cell message b =
      let (r, p) =
        publish env cell topic message
          (record { config = producer_config; connections = b.caches n; net = b.net }) in
      (
        logged r,
        record b {
          caches = update b.caches n p.connections;
          net = p.net;
          log = (message, r) ∷ b.log;
        },
      )

  -- `for j in 1..=5`: five messages from the number `id` on. `cells` are the addresses for the flags of
  -- messages that are read.
  unfoldable pub publish_each : (ℕ → ℕ) → ℕ → ℕ → ℕ → Bench → Ending × Bench
  unfolding publish_on
  publish_each cells n id zero b = (finished, b)
  publish_each cells n id (suc k) b =
      then_on (publish_on n (cells id) (bytes "test message #" ++ show_dec id) b)
        (publish_each cells n (id + 1) k)

  -- Nobody else holds what was lent, nor does anybody wait.
  abbrev pub give_back : (Reply (Unit {0}) → Ending) → ℕ → PooledConn ℕ → Bench → Ending × Bench
  give_back end now c b =
      let (r, p) = put methods now 1 (λ w. true) c b.pool in (end r, after r p b)

  -- A connection from the pool for some work, and back. A `get` that waits waits forever, as there is
  -- no other client.
  abbrev pub lend :
      (PoolError → Ending)
      → (Reply (Unit {0}) → Ending)
      → ℕ
      → (ℕ → Bench → Ending × Bench)
      → Reply (Got ℕ)
      → Bench
      → Ending × Bench
  lend fail end now work (Reply.ok (got c)) b = then_on (work c.conn b) (give_back end now c)
  lend fail end now work (Reply.ok (waits w)) b = (hangs, b)
  lend fail end now work (Reply.err e) b = (fail e, b)
  lend fail end now work Reply.panic b = (panics, b)

  unfoldable pub with_conn :
      (PoolError → Ending)
      → (Reply (Unit {0}) → Ending)
      → ℕ × ℕ
      → (ℕ → Bench → Ending × Bench)
      → Bench
      → Ending × Bench
  with_conn fail end (now, later) work b =
      let (r, p) = get methods now 0 b.pool in lend fail end later work r (after r p b)

  -- One round of `for batch in 1..=50`, `i` counted from 0.
  unfoldable pub batch : (ℕ → ℕ) → ℕ × ℕ → ℕ → Bench → Ending × Bench
  unfolding publish_each with_conn
  batch cells times i b =
      with_conn (λ e. finished) or_log times (λ n. publish_each cells n (i * 5 + 1) 5) b

  unfoldable pub batches : (ℕ → ℕ) → (ℕ → ℕ × ℕ) → ℕ → ℕ → Bench → Ending × Bench
  unfolding batch
  batches cells times i zero b = (finished, b)
  batches cells times i (suc k) b =
      then_on (batch cells (times i) i b) (batches cells times (i + 1) k)

  -- The result of the first publication is dropped.
  unfoldable pub warm_up : ℕ → ℕ × ℕ → Bench → Ending × Bench
  unfolding publish_on with_conn
  warm_up cell times b =
      with_conn returns or_return times (λ n. publish_on n cell (bytes "warmup")) b

  unfoldable pub shut : Bench → Ending × Bench
  shut b = let (r, p) = release methods b.pool in (or_return r, after r p b)

  -- `main`: the pool is made at the time `now`, and `times` are those of each `get` and `put`.
  unfoldable pub main : (ℕ → ℕ) → ℕ → ℕ × ℕ → (ℕ → ℕ × ℕ) → Net → Ending × Bench
  unfolding new warm_up batches shut
  main cells now first times net =
      let (r, p) = new methods now in
      then_on
        (
          or_return r,
          after r p (record { log = []; errors = []; pool = p; caches = λ n. []; net = net }),
        )
        (λ b.
          then_on (warm_up (cells 0) first b) (λ b'. then_on (batches cells times 0 50 b') shut))
