-- ===== src/Producer/Cache.antt =====
-- The cache of connections of src/producer.rs.
pub mod Entries
use nsq_async_rs.Base.{
  ℕ, ◌<◌, ◌==◌, if◌then◌else◌, inl, inr, Option, none, some, Option-cases, ⊎-cases, List, [], ◌∷◌,
  ◌++◌, All, ◌≡◌, refl, sym, ap, ◌∙◌, arith,
}
use nsq_async_rs.Base.Octets.{Bytes}
use nsq_async_rs.Base.Text.{bytes}
use nsq_async_rs.Base.Assoc.{
  lookup, remove, insert, Distinct, remove-Lacks, remove-Distinct, remove-All,
}
use nsq_async_rs.Error.{Error, Outcome, ok, err, panic, hang}
use nsq_async_rs.Protocol.Command.{IdentifyConfig}
use nsq_async_rs.Connection.{Connection, ping, write_bytes, initialize}
use nsq_async_rs.Commands.{lookup_nsqd_nodes}
use nsq_async_rs.Network.{
  Env, Net, put_live, share, handed_out, set_up, around, connect_with_retry, dial,
}
use nsq_async_rs.Network
use nsq_async_rs.Network.Addr.{
  initialize-KeepsAddr, ping-KeepsAddr, write_bytes-KeepsAddr, read_frame-KeepsAddr,
}
use nsq_async_rs.Network.Backoff.{Promise, Retries_keep}
use nsq_async_rs.Producer.{
  Producer, ProducerConfig, set_conn, keep, create, reuse, try_cached, get_or_create_connection,
  first_node, choose, get_publish_connection, written, send_wire, attempt, retried, ping_on,
  ping_node, publish, publish_delayed, publish_multi, new,
}
use nsq_async_rs.Producer.Publishing.{Publication, one, delayed, many, publishes}
use nsq_async_rs.Producer.Cache.Entries.{IsTimed, IsCache, set_conn-IsCache, get_or_create-IsCache}

module _ (env : Env) (promise : Promise env.retry) where
  first_node-IsCache :
      (missing : Error) (r : Outcome (List Bytes)) (p : Producer)
      → IsCache p
      → IsCache (first_node env missing r p).1
  unfolding first_node
  first_node-IsCache missing (ok []) p h = h
  first_node-IsCache missing (ok (x ∷ xs)) p h = get_or_create-IsCache env promise x p h
  first_node-IsCache missing (err e) p h = h
  first_node-IsCache missing panic p h = h
  first_node-IsCache missing hang p h = h

  choose-IsCache :
      (missing unset : Error) (topic : Bytes) (xs ys : List Bytes) (p : Producer)
      → IsCache p
      → IsCache (choose env missing unset topic xs ys p).1
  unfolding choose
  choose-IsCache missing unset topic (x ∷ xs) ys p h = get_or_create-IsCache env promise x p h
  choose-IsCache missing unset topic [] (y ∷ ys) p h =
      first_node-IsCache missing (lookup_nsqd_nodes y topic) p h
  choose-IsCache missing unset topic [] [] p h = h

  written_addr :
      (cell : ℕ) (x : Outcome (Unit {0}) × Connection) → (written env cell x).1.addr ≡ x.1.addr
  written_addr cell (ok u, c) = (read_frame-KeepsAddr cell).keeps c
  written_addr cell (err e, c) = refl
  written_addr cell (panic, c) = refl
  written_addr cell (hang, c) = refl

  send_wire-IsCache :
      (cell : ℕ) (wire : Bytes) (r : Outcome ℕ) (p : Producer)
      → IsCache p
      → IsCache (send_wire env cell wire r p).1
  unfolding send_wire
  send_wire-IsCache cell wire (ok a) p h =
      set_conn-IsCache a (written env cell (write_bytes wire (p.net.live a))).1 p
        (written_addr cell (write_bytes wire (p.net.live a))
          ∙ (write_bytes-KeepsAddr wire).keeps (p.net.live a))
        h
  send_wire-IsCache cell wire (err e) p h = h
  send_wire-IsCache cell wire panic p h = h
  send_wire-IsCache cell wire hang p h = h

  pub get_publish-IsCache :
      (topic : Bytes) (p : Producer) → IsCache p → IsCache (get_publish_connection env topic p).1
  unfolding get_publish_connection
  get_publish-IsCache topic p h =
      choose-IsCache (Error.connection (bytes "nsqlookupd未找到主题 " ++ (topic ++ bytes " 的生产者")))
        (Error.config (bytes "未配置nsqd或nsqlookupd地址")) topic p.config.nsqd_addresses
        p.config.nsqlookupd_addresses p h

  attempt-IsCache :
      (cell : ℕ) (topic wire : Bytes) (p : Producer)
      → IsCache p
      → IsCache (attempt env cell topic wire p).1
  unfolding attempt
  attempt-IsCache cell topic wire p h =
      send_wire-IsCache cell wire (get_publish_connection env topic p).0
        (get_publish_connection env topic p).1 (get_publish-IsCache topic p h)

  retried-IsCache :
      (cell : ℕ) (topic : Bytes) (o : Outcome Bytes) (p : Producer)
      → IsCache p
      → IsCache (retried env cell topic o p).1
  retried-IsCache cell topic (ok wire) p h =
      Retries_keep (attempt env cell topic wire) IsCache (attempt-IsCache cell topic wire)
        (promise Producer (Unit {0}) p.config.backoff_config h.timed.0 (attempt env cell topic wire)
          p h.timed.1)
        h
  retried-IsCache cell topic (err e) p h = h
  retried-IsCache cell topic panic p h = h
  retried-IsCache cell topic hang p h = h

  publishes-IsCache :
      (cell : ℕ) (topic : Bytes) (m : Publication) (p : Producer)
      → IsCache p
      → IsCache (publishes env cell topic m p).1
  unfolding publish publish_delayed publish_multi
  publishes-IsCache cell topic (one m) p h = retried-IsCache cell topic _ p h
  publishes-IsCache cell topic (delayed m d) p h = retried-IsCache cell topic _ p h
  publishes-IsCache cell topic (many []) p h = h
  publishes-IsCache cell topic (many (m ∷ ms)) p h = retried-IsCache cell topic _ p h

  ping_on-IsCache :
      (limit : Option ℕ) (x : Outcome ℕ × Producer) → IsCache x.1 → IsCache (ping_on env limit x).1
  ping_on-IsCache limit (ok a, p) h =
      set_conn-IsCache a (ping env.to_json limit (p.net.live a)).1 p
        ((ping-KeepsAddr env.to_json limit).keeps (p.net.live a)) h
  ping_on-IsCache limit (err e, p) h = h
  ping_on-IsCache limit (panic, p) h = h
  ping_on-IsCache limit (hang, p) h = h

  ping_node-IsCache :
      (addr : Option Bytes) (limit : Option ℕ) (p : Producer)
      → IsCache p
      → IsCache (ping_node env addr limit p).1
  unfolding ping_node
  ping_node-IsCache (some addr) limit p h =
      ping_on-IsCache limit (get_or_create_connection env addr p)
        (get_or_create-IsCache env promise addr p h)
  ping_node-IsCache none limit p h =
      let missing = Error.connection (bytes "没有可用的 NSQ 服务器地址") in
      let unset = Error.config (bytes "没有配置 NSQ 服务器地址") in
      let xs = p.config.nsqd_addresses in
      let ys = p.config.nsqlookupd_addresses in
      ping_on-IsCache limit (choose env missing unset (bytes "_ping_topic") xs ys p)
        (choose-IsCache missing unset (bytes "_ping_topic") xs ys p h)

-- What a program does with a producer.
pub data Operation : Type 0 where
  publishing : ℕ → Bytes → Publication → Operation
  pinging : Option Bytes → Option ℕ → Operation

abbrev pub perform : Env → Operation → Producer → Producer
perform env (publishing cell topic m) p = (publishes env cell topic m p).1
perform env (pinging addr limit) p = (ping_node env addr limit p).1

pub run : Env → List Operation → Producer → Producer
run env [] p = p
run env (o ∷ os) p = run env os (perform env o p)

run-IsCache :
    (env : Env) (os : List Operation) (p : Producer)
    → Promise env.retry
    → IsCache p
    → IsCache (run env os p)
unfolding run
run-IsCache env [] p promise h = h
run-IsCache env (publishing cell topic m ∷ os) p promise h =
    run-IsCache env os _ promise (publishes-IsCache env promise cell topic m p h)
run-IsCache env (pinging addr limit ∷ os) p promise h =
    run-IsCache env os _ promise (ping_node-IsCache env promise addr limit p h)

-- If the configured backoff has a `max_elapsed_time` and `retry` does what the backoff crate promises,
-- then whatever is published and pinged, and however connections fail in between, a new producer has at
-- most one cached connection for an address, and each cached connection is one that was made to the
-- very address it is kept under.
pub run-new-IsCache :
    (env : Env) (config : ProducerConfig) (net : Net) (os : List Operation)
    → Promise env.retry
    → IsTimed config
    → IsCache (run env os (new config net))
run-new-IsCache env config net os promise timed =
    run-IsCache env os (new config net) promise
      (record { timed = timed; distinct = tt; entries = tt })
