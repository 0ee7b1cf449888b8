-- ===== src/Consumer/Session/Calls.antt =====
-- The calls of `handle_connection` that the task of `connect_to_nsqd` of src/consumer.rs makes on one
-- handler, one after the other.
use nsq_async_rs.Base.{ℕ, if◌then◌else◌, ◌&&◌, ◌⊎◌, some, none, List, [], ◌∷◌}
use nsq_async_rs.Base.Octets.{Bytes}
use nsq_async_rs.Error.{err}
use nsq_async_rs.Protocol.Command.{IdentifyConfig}
use nsq_async_rs.Connection.{Connection}
use nsq_async_rs.Responder.{update}
use nsq_async_rs.Consumer.Retry.{retries}
use nsq_async_rs.Consumer.Session.{Settings, Session, Event, run, subscribe}

-- What `reconnect`, or several of them, make of the connection.
abbrev pub with_connection : ℕ → Connection → Session → Session
with_connection a c s = record s {
  shared = record s.shared {
    world = record s.shared.world { connections = update s.shared.world.connections a c };
  };
}

module _ (to_json : IdentifyConfig → Bytes ⊎ Bytes) (config : Settings) (a : ℕ) where
  -- The next call, if the last one has returned an error after which the task connects again, and the
  -- consumer runs.
  unfoldable pub call_again : Connection → Session → Session
  unfolding subscribe retries
  call_again c s = elim s.result [
    | none ↦ s
    | some (err e) ↦
        if s.is_running && retries e then subscribe to_json config a (with_connection a c s) else s
    | some r ↦ s
  ]

  -- Each call, by the connection that it finds and what happens until the next one: also while the
  -- task sleeps, handlers come to their end.
  unfoldable pub calls : Session → List (Connection × List Event) → Session
  unfolding call_again run
  calls s [] = s
  calls s ((c, es) ∷ rest) = calls (run to_json config a (call_again c s) es) rest
