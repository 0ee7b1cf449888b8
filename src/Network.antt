-- ===== src/Network.antt =====
-- What the crate has from outside, as one interface: the network, the `backoff` crate and `serde_json`.
-- With it come `connect_with_retry` and `Connection::new` of src/connection.rs.
pub mod Backoff
pub mod Addr
use nsq_async_rs.Base.{ℕ, suc, ◌+◌, ◌==◌, if◌then◌else◌, Option, none, some, ◌⊎◌, inl, inr, ◌++◌}
use nsq_async_rs.Base.Octets.{Bytes}
use nsq_async_rs.Base.Text.{bytes}
use nsq_async_rs.Error.{IoError, Error, BackoffError, transient, Outcome, ok, err, panic, hang}
use nsq_async_rs.Protocol.Command.{IdentifyConfig, default_config}
use nsq_async_rs.Connection.{Connection, initialize}
use nsq_async_rs.Network.Backoff.{Attempt, BackoffConfig}

-- `tcp addr n` is what the n-th `TcpStream::connect` gives: a stream by the peer's part of a
-- `Connection`, or an error. `debug` prints an error by `{:?}`. `host` and `version` are what the default
-- of IDENTIFY takes from the machine and the package. `retry` is `backoff::future::retry`, whose
-- operation changes a state.
pub record Env : Type 1 where
  pub to_json : IdentifyConfig → Bytes ⊎ Bytes
  pub tcp : Bytes → ℕ → Connection ⊎ IoError
  pub debug : Error → Bytes
  pub host : Option Bytes
  pub version : Bytes
  pub retry : (S A : Type 0) → BackoffConfig → (S → Attempt A × S) → S → Outcome A × S

-- The connections that stand behind an `Arc`, each at its address; the next such address; and how often
-- the client has dialled.
pub record Net : Type 0 where
  pub live : ℕ → Connection
  pub next : ℕ
  pub dials : ℕ

abbrev pub put_live : ℕ → Connection → Net → Net
put_live a c n = record n { live = λ b. if a == b then c else n.live b }

-- `Arc::new`
abbrev pub share : Connection → Net → ℕ × Net
share c n = (n.next, record (put_live n.next c n) { next = suc n.next })

-- A connection is handed out only if its handshake succeeds.
abbrev pub handed_out : Outcome (Unit {0}) × Connection → Outcome Connection
handed_out (ok u, c) = ok c
handed_out (err e, c) = err e
handed_out (panic, c) = panic
handed_out (hang, c) = hang

module _ (env : Env) where
  unfoldable pub dial : Bytes → Net → Attempt Connection × Net
  dial addr n = elim (env.tcp addr n.dials) [
    | inl stream ↦ (Attempt.ok stream, record n { dials = suc n.dials })
    | inr e ↦ (Attempt.fails (transient (Error.io e)), record n { dials = suc n.dials })
  ]

  -- `result.map_err(..)`
  unfoldable pub connect_error : Bytes → Outcome Connection → Outcome Connection
  unfolding bytes
  connect_error addr (err e) =
      err (Error.connection (bytes "无法连接到 " ++ (addr ++ (bytes ": " ++ env.debug e))))
  connect_error addr r = r

  -- `connect_with_retry`; `limit` is in milliseconds.
  unfoldable pub connect_with_retry : Bytes → ℕ → Net → Outcome Connection × Net
  unfolding dial connect_error
  connect_with_retry addr limit n =
      let settings : BackoffConfig = record {
        initial_interval = 100;
        max_interval = 1000;
        multiplier = 2000;
        max_elapsed_time = some limit;
      } in
      let (r, n') = env.retry Net Connection settings (dial addr) n in (connect_error addr r, n')

  unfoldable pub unwrap_or_default : Option IdentifyConfig → IdentifyConfig
  unfolding default_config
  unwrap_or_default none = default_config env.host env.version
  unwrap_or_default (some config) = config

  -- The fields of a `Connection` around a fresh stream.
  unfoldable pub around :
      Bytes → Option IdentifyConfig → Option Bytes → ℕ → ℕ → Connection → Connection
  unfolding unwrap_or_default
  around addr config secret read_timeout write_timeout stream = record stream {
    addr = addr;
    identify_config = unwrap_or_default config;
    auth_secret = secret;
    read_timeout = read_timeout;
    write_timeout = write_timeout;
  }

  abbrev pub set_up :
      Bytes → Option IdentifyConfig → Option Bytes → ℕ → ℕ → Outcome Connection → Outcome Connection
  set_up addr config secret rt wt (ok stream) =
      handed_out (initialize env.to_json (around addr config secret rt wt stream))
  set_up addr config secret rt wt r = r

  -- `Connection::new`
  unfoldable pub new :
      Bytes → Option IdentifyConfig → Option Bytes → ℕ → ℕ → Net → Outcome Connection × Net
  unfolding connect_with_retry around
  new addr config secret read_timeout write_timeout n =
      let (r, n') = connect_with_retry addr 5000 n in
      (set_up addr config secret read_timeout write_timeout r, n')
