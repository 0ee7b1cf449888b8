-- ===== src/Producer.antt =====
-- src/producer.rs: `NsqProducer`, its cache of connections and its methods.
pub mod Publishing
pub mod Verdict
pub mod Cache
pub mod Sharing
use nsq_async_rs.Base.{
  ℕ, suc, ◌%◌, ◌^◌, if◌then◌else◌, Option, none, some, List, [], ◌∷◌, ◌++◌, length, ◌⊎◌,
}
use nsq_async_rs.Base.Octets.{Bytes, as_u32}
use nsq_async_rs.Base.Text.{bytes, from_utf8_lossy}
use nsq_async_rs.Base.Assoc.{lookup, remove, insert}
use nsq_async_rs.Error.{
  Error, ProtocolError, BackoffError, permanent, transient, Outcome, ok, err, panic, hang,
}
use nsq_async_rs.Protocol.Command.{IdentifyConfig, Command, to_bytes}
use nsq_async_rs.Protocol.Frame.{Frame}
use nsq_async_rs.Connection.{Connection, ping, write_bytes, read_frame}
use nsq_async_rs.Commands.{lookup_nsqd_nodes}
use nsq_async_rs.Network.Backoff.{Attempt, BackoffConfig, default_backoff}
use nsq_async_rs.Network.{Env, Net, put_live, share}
use nsq_async_rs.Network

-- Times are in milliseconds.
pub record ProducerConfig : Type 0 where
  pub nsqd_addresses : List Bytes
  pub nsqlookupd_addresses : List Bytes
  pub connection_timeout : ℕ
  pub auth_secret : Option Bytes
  pub identify_config : Option IdentifyConfig
  pub backoff_config : BackoffConfig

-- `ProducerConfig::default()`
abbrev pub default_config : ProducerConfig
default_config = record {
  nsqd_addresses = [];
  nsqlookupd_addresses = [];
  connection_timeout = 5000;
  auth_secret = none;
  identify_config = none;
  backoff_config = default_backoff;
}

-- An `NsqProducer` with the network behind it; `connections` has the address of each `Arc`.
pub record Producer : Type 0 where
  pub config : ProducerConfig
  pub connections : List (Bytes × ℕ)
  pub net : Net

-- `NsqProducer::new`, and `new_producer`.
abbrev pub new : ProducerConfig → Net → Producer
new config net = record { config = config; connections = []; net = net }

unfoldable pub get_connection_pool_size : Producer → ℕ
get_connection_pool_size p = length p.connections

-- The connection at an address with what a method leaves of it.
abbrev pub set_conn : ℕ → Connection → Producer → Producer
set_conn a c p = record p { net = put_live a c p.net }

module _ (env : Env) where
  -- A new connection, kept under its address if it comes about.
  abbrev pub keep : Bytes → Outcome Connection × Net → Producer → Outcome ℕ × Producer
  keep addr (ok c, n) p =
      (ok n.next, record p { connections = insert addr n.next p.connections; net = (share c n).1 })
  keep addr (err e, n) p = (err e, record p { net = n })
  keep addr (panic, n) p = (panic, record p { net = n })
  keep addr (hang, n) p = (hang, record p { net = n })

  unfoldable pub create : Bytes → Producer → Outcome ℕ × Producer
  unfolding insert
  create addr p =
      keep addr
        (Network.new env addr p.config.identify_config p.config.auth_secret
          p.config.connection_timeout p.config.connection_timeout p.net)
        p

  -- The cached connection answers the ping, or is dropped and made anew.
  abbrev pub reuse : Bytes → ℕ → Outcome (Unit {0}) → Producer → Outcome ℕ × Producer
  reuse addr a (ok u) p = (ok a, p)
  reuse addr a (err e) p = create addr (record p { connections = remove addr p.connections })
  reuse addr a panic p = (panic, p)
  reuse addr a hang p = (hang, p)

  unfoldable pub try_cached : Bytes → ℕ → Producer → Outcome ℕ × Producer
  unfolding create
  try_cached addr a p =
      let (r, c) = ping env.to_json none (p.net.live a) in reuse addr a r (set_conn a c p)

  unfoldable pub get_or_create_connection : Bytes → Producer → Outcome ℕ × Producer
  unfolding create try_cached
  get_or_create_connection addr p = elim (lookup addr p.connections) [
    | some a ↦ try_cached addr a p
    | none ↦ create addr p
  ]

  unfoldable pub first_node : Error → Outcome (List Bytes) → Producer → Outcome ℕ × Producer
  unfolding get_or_create_connection
  first_node missing (ok []) p = (err missing, p)
  first_node missing (ok (node ∷ nodes)) p = get_or_create_connection node p
  first_node missing (err e) p = (err e, p)
  first_node missing panic p = (panic, p)
  first_node missing hang p = (hang, p)

  -- The address that is configured first, or else what the first nsqlookupd gives.
  unfoldable pub choose :
      Error → Error → Bytes → List Bytes → List Bytes → Producer → Outcome ℕ × Producer
  unfolding get_or_create_connection lookup_nsqd_nodes first_node
  choose missing unset topic (addr ∷ addrs) lookupds p = get_or_create_connection addr p
  choose missing unset topic [] (l ∷ ls) p = first_node missing (lookup_nsqd_nodes l topic) p
  choose missing unset topic [] [] p = (err unset, p)

  unfoldable pub get_publish_connection : Bytes → Producer → Outcome ℕ × Producer
  unfolding bytes choose
  get_publish_connection topic p =
      choose (Error.connection (bytes "nsqlookupd未找到主题 " ++ (topic ++ bytes " 的生产者")))
        (Error.config (bytes "未配置nsqd或nsqlookupd地址")) topic p.config.nsqd_addresses
        p.config.nsqlookupd_addresses p

  -- What the retries make of the frame that is read.
  unfoldable pub judge : Outcome Frame → Attempt (Unit {0})
  unfolding bytes
  judge (ok (Frame.response d)) = Attempt.ok tt
  judge (ok (Frame.error d)) =
      Attempt.fails (transient (Error.protocol (ProtocolError.other (from_utf8_lossy d))))
  judge (ok (Frame.message m)) =
      Attempt.fails (transient (Error.protocol (ProtocolError.other (bytes "收到意外响应"))))
  judge (err e) = Attempt.fails (transient e)
  judge panic = Attempt.panic
  judge hang = Attempt.hang

  abbrev pub written : ℕ → Outcome (Unit {0}) × Connection → Attempt (Unit {0}) × Connection
  written cell (ok u, c) = let (r, c') = read_frame cell c in (judge r, c')
  written cell (err e, c) = (Attempt.fails (transient e), c)
  written cell (panic, c) = (Attempt.panic, c)
  written cell (hang, c) = (Attempt.hang, c)

  unfoldable pub send_wire : ℕ → Bytes → Outcome ℕ → Producer → Attempt (Unit {0}) × Producer
  unfolding judge
  send_wire cell wire (ok a) p =
      let (t, c) = written cell (write_bytes wire (p.net.live a)) in (t, set_conn a c p)
  send_wire cell wire (err e) p = (Attempt.fails (permanent e), p)
  send_wire cell wire panic p = (Attempt.panic, p)
  send_wire cell wire hang p = (Attempt.hang, p)

  -- The operation that the three methods retry.
  unfoldable pub attempt : ℕ → Bytes → Bytes → Producer → Attempt (Unit {0}) × Producer
  unfolding get_publish_connection send_wire
  attempt cell topic wire p =
      let (r, p') = get_publish_connection topic p in send_wire cell wire r p'

  abbrev pub retried : ℕ → Bytes → Outcome Bytes → Producer → Outcome (Unit {0}) × Producer
  retried cell topic (ok wire) p =
      env.retry Producer (Unit {0}) p.config.backoff_config (attempt cell topic wire) p
  retried cell topic (err e) p = (err e, p)
  retried cell topic panic p = (panic, p)
  retried cell topic hang p = (hang, p)

  unfoldable pub publish : ℕ → Bytes → Bytes → Producer → Outcome (Unit {0}) × Producer
  unfolding attempt
  publish cell topic message p =
      retried cell topic (to_bytes env.to_json (Command.publish topic message)) p

  -- `delay` is in milliseconds; `as u32` cuts it.
  unfoldable pub publish_delayed : ℕ → Bytes → Bytes → ℕ → Producer → Outcome (Unit {0}) × Producer
  unfolding attempt
  publish_delayed cell topic message delay p =
      retried cell topic
        (to_bytes env.to_json (Command.delayed_publish topic message (as_u32 delay))) p

  unfoldable pub publish_multi : ℕ → Bytes → List Bytes → Producer → Outcome (Unit {0}) × Producer
  unfolding attempt
  publish_multi cell topic [] p = (ok tt, p)
  publish_multi cell topic (m ∷ ms) p =
      retried cell topic (to_bytes env.to_json (Command.mpublish topic (m ∷ ms))) p

  abbrev pub ping_on : Option ℕ → Outcome ℕ × Producer → Outcome (Unit {0}) × Producer
  ping_on limit (ok a, p) =
      let (r, c) = ping env.to_json limit (p.net.live a) in (r, set_conn a c p)
  ping_on limit (err e, p) = (err e, p)
  ping_on limit (panic, p) = (panic, p)
  ping_on limit (hang, p) = (hang, p)

  -- `Producer::ping`
  unfoldable pub ping_node : Option Bytes → Option ℕ → Producer → Outcome (Unit {0}) × Producer
  unfolding bytes get_or_create_connection choose
  ping_node (some addr) limit p = ping_on limit (get_or_create_connection addr p)
  ping_node none limit p = ping_on limit (
      choose (Error.connection (bytes "没有可用的 NSQ 服务器地址")) (Error.config (bytes "没有配置 NSQ 服务器地址"))
        (bytes "_ping_topic") p.config.nsqd_addresses p.config.nsqlookupd_addresses p)
