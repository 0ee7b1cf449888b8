-- ===== src/Pool/Data.antt =====
-- The data of src/pool.rs. Times are nanoseconds on one clock.
use nsq_async_rs.Base.{ℕ, ◌*◌, Bool, ◌⊎◌, Option, List}
use nsq_async_rs.Base.Octets.{Bytes}

pub data PoolError : Type 0 where
  closed : PoolError
  max_active_conn_reached : PoolError
  nil_connection : PoolError
  create_connection : Bytes → PoolError
  close_connection : Bytes → PoolError
  ping_connection : Bytes → PoolError

-- A `Result`, or a panic.
pub data Reply {ℓ} (A : Type ℓ) : Type ℓ where
  ok : A → Reply A
  err : PoolError → Reply A
  panic : Reply A

pub record PooledConn (T : Type 0) : Type 0 where
  pub conn : T
  pub created_time : ℕ

pub record PoolConfig : Type 0 where
  pub initial_cap : ℕ
  pub max_cap : ℕ
  pub max_idle : ℕ
  pub idle_timeout : ℕ
  pub max_lifetime : ℕ

abbrev second : ℕ
second = 1_000_000_000

-- `PoolConfig::default()`
abbrev pub default_config : PoolConfig
default_config = record {
  initial_cap = 5;
  max_cap = 20;
  max_idle = 10;
  idle_timeout = 30 * second;
  max_lifetime = 300 * second;
}

pub record IdleConn (T : Type 0) : Type 0 where
  pub conn : T
  pub idle_time : ℕ
  pub created_time : ℕ

-- What a waiting `get` is sent through its one-shot channel.
pub data Answer (T : Type 0) : Type 0 where
  granted : PooledConn T → Answer T
  refused : PoolError → Answer T

-- The functions that a pool is built with. `factory n` is what the n-th call makes; `closer` gives
-- the text of an error, if it fails; `pinger` tells whether a connection answers.
pub record Methods (T : Type 0) : Type 0 where
  pub config : PoolConfig
  pub factory : ℕ → T ⊎ PoolError
  pub closer : T → Option Bytes
  pub pinger : Option (T → Bool)

-- `waiters` is `conn_reqs`, newest first, each by the number of its channel. `made` counts calls of the
-- factory, `discarded` are the connections that the pool has passed to the closer and dropped, and
-- `answers` what it has sent to waiters, both newest first.
pub record Pool (T : Type 0) : Type 0 where
  pub idle : List (IdleConn T)
  pub opening : ℕ
  pub closed : Bool
  pub waiters : List ℕ
  pub made : ℕ
  pub discarded : List T
  pub answers : List (ℕ × Answer T)

-- What `get` comes to: a connection, or a place among the waiters.
pub data Got (T : Type 0) : Type 0 where
  got : PooledConn T → Got T
  waits : ℕ → Got T
