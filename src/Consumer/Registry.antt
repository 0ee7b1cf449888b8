-- ===== src/Consumer/Registry.antt =====
-- `Consumer` of src/consumer.rs: its configuration, its map of connections and the methods on it.
pub mod Counting
pub mod Draining
pub mod Order
pub mod Leaving
use nsq_async_rs.Base.{
  ℕ, zero, suc, ◌+◌, ◌*◌, ◌==◌, if◌then◌else◌, Bool, true, false, Option, none, some, List, [], ◌∷◌,
  ◌++◌,
}
use nsq_async_rs.Base.Octets.{Bytes}
use nsq_async_rs.Base.Int.{ℤ, pos, negsuc}
use nsq_async_rs.Base.Text.{bytes}
use nsq_async_rs.Base.Assoc.{lookup, remove, insert}
use nsq_async_rs.Error.{Error, Outcome, ok, err, panic, hang}
use nsq_async_rs.Connection.{Connection, close}
use nsq_async_rs.Lookup.{Node, lookup_nodes}
use nsq_async_rs.Network.{Env, Net, put_live, share}
use nsq_async_rs.Network
use nsq_async_rs.Consumer.Names.{is_valid_topic_name, is_valid_channel_name}
use nsq_async_rs.Consumer.Task.{fetch_sub}

-- Times are in milliseconds, the jitter in thousandths.
pub record ConsumerConfig : Type 0 where
  pub max_in_flight : ℤ
  pub max_attempts : ℕ
  pub dial_timeout : ℕ
  pub read_timeout : ℕ
  pub write_timeout : ℕ
  pub lookup_poll_interval : ℕ
  pub lookup_poll_jitter : ℕ
  pub max_requeue_delay : ℕ
  pub default_requeue_delay : ℕ
  pub shutdown_timeout : ℕ
  pub backoff_strategy : Bool
  pub disable_auto_response : Bool
  pub concurrent_handlers : ℕ

-- `ConsumerConfig::default()`
abbrev pub default_config : ConsumerConfig
default_config = record {
  max_in_flight = pos 1;
  max_attempts = 5;
  dial_timeout = 1000;
  read_timeout = 60000;
  write_timeout = 1000;
  lookup_poll_interval = 60000;
  lookup_poll_jitter = 300;
  max_requeue_delay = 15 * 60 * 1000;
  default_requeue_delay = 90000;
  shutdown_timeout = 30000;
  backoff_strategy = true;
  disable_auto_response = false;
  concurrent_handlers = 1;
}

-- A `Consumer` with the network behind it. `connections` has the address of each `Arc`; `tasks` are the
-- connections for which a task was spawned, newest first. The handler is known by what it does.
pub record Consumer : Type 0 where
  pub topic : Bytes
  pub channel : Bytes
  pub config : ConsumerConfig
  pub messages_received : ℕ
  pub messages_finished : ℕ
  pub messages_requeued : ℕ
  pub connections : List (Bytes × ℕ)
  pub connection_count : ℤ
  pub max_in_flight : ℤ
  pub is_running : Bool
  pub net : Net
  pub tasks : List ℕ

pub record ConsumerStats : Type 0 where
  pub messages_received : ℕ
  pub messages_finished : ℕ
  pub messages_requeued : ℕ
  pub connections : ℤ

unfoldable pub new : Bytes → Bytes → ConsumerConfig → Net → Outcome Consumer
unfolding bytes is_valid_topic_name is_valid_channel_name
new topic channel config net =
    if is_valid_topic_name topic
    then if is_valid_channel_name channel
      then ok (record {
        topic = topic;
        channel = channel;
        config = config;
        messages_received = 0;
        messages_finished = 0;
        messages_requeued = 0;
        connections = [];
        connection_count = pos 0;
        max_in_flight = config.max_in_flight;
        is_running = true;
        net = net;
        tasks = [];
      })
      else err (Error.other (bytes "Invalid channel name: " ++ channel))
    else err (Error.other (bytes "Invalid topic name: " ++ topic))

unfoldable pub stats : Consumer → ConsumerStats
stats c = record {
  messages_received = c.messages_received;
  messages_finished = c.messages_finished;
  messages_requeued = c.messages_requeued;
  connections = c.connection_count;
}

-- `fetch_add(1)` on an `AtomicI32`.
abbrev pub increment : ℤ → ℤ
increment (pos n) = if n == 2147483647 then negsuc 2147483647 else pos (n + 1)
increment (negsuc zero) = pos 0
increment (negsuc (suc n)) = negsuc n

-- A connection that was made is shared with its task and kept under its address.
abbrev pub enter : Bytes → Outcome Connection × Net → Consumer → Outcome (Unit {0}) × Consumer
enter addr (ok conn, n) c = (
  ok tt,
  record c {
    connections = insert addr n.next c.connections;
    connection_count = increment c.connection_count;
    net = (share conn n).1;
    tasks = n.next ∷ c.tasks;
  },
)
enter addr (err e, n) c = (err e, record c { net = n })
enter addr (panic, n) c = (panic, record c { net = n })
enter addr (hang, n) c = (hang, record c { net = n })

unfoldable pub connect_to_nsqd : Env → Bytes → Consumer → Outcome (Unit {0}) × Consumer
unfolding lookup insert
connect_to_nsqd env addr c = elim (lookup addr c.connections) [
  | some a ↦ (ok tt, c)
  | none ↦
      enter addr (Network.new env addr none none c.config.read_timeout c.config.write_timeout c.net)
        c
]

unfoldable pub disconnect_from_nsqd : Bytes → Consumer → Outcome (Unit {0}) × Consumer
unfolding lookup remove close
disconnect_from_nsqd addr c = elim (lookup addr c.connections) [
  | none ↦ (ok tt, c)
  | some a ↦
      (let (r, conn) = close (c.net.live a) in
        (
          r,
          record c {
            connections = remove addr c.connections;
            connection_count = fetch_sub c.connection_count;
            net = put_live a conn c.net;
          },
        ))
]

unfoldable pub start : Consumer → Outcome (Unit {0}) × Consumer
start c = (ok tt, record c { is_running = true })

-- The loop of `stop` over the drained connections. The deadline passes after `in_time` of them; what is
-- left then is dropped without being closed. A failure to close is only logged.
unfoldable pub close_each : ℕ → List (Bytes × ℕ) → Net → Net
unfolding close
close_each zero es n = n
close_each (suc k) [] n = n
close_each (suc k) ((addr, a) ∷ es) n = close_each k es (put_live a (close (n.live a)).1 n)

unfoldable pub stop : ℕ → Consumer → Outcome (Unit {0}) × Consumer
unfolding close_each
stop in_time c = (
  ok tt,
  record c {
    is_running = false;
    connections = [];
    connection_count = pos 0;
    net = close_each in_time c.connections c.net;
  },
)

-- The loop over nodes: an error is only logged.
unfoldable pub connect_each : Env → List Bytes → Consumer → Consumer
unfolding connect_to_nsqd
connect_each env [] c = c
connect_each env (node ∷ nodes) c = connect_each env nodes (connect_to_nsqd env node c).1

abbrev pub found : Env → Outcome (List Bytes) → Consumer → Outcome (Unit {0}) × Consumer
found env (ok nodes) c = (ok tt, connect_each env nodes c)
found env (err e) c = (err e, c)
found env panic c = (panic, c)
found env hang c = (hang, c)

-- `connect_to_nsqlookupd`, before it spawns the task that polls.
unfoldable pub connect_to_nsqlookupd :
    Env → (Bytes → Outcome (List Node)) → Bytes → Consumer → Outcome (Unit {0}) × Consumer
unfolding connect_each lookup_nodes
connect_to_nsqlookupd env http url c = found env (lookup_nodes http url c.topic) c

-- A round of that task, which ends where the consumer has stopped.
unfoldable pub poll : Env → (Bytes → Outcome (List Node)) → Bytes → Consumer → Consumer
unfolding connect_each lookup_nodes
poll env http url c = if c.is_running then (found env (lookup_nodes http url c.topic) c).1 else c
