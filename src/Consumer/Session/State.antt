-- ===== src/Consumer/Session/State.antt =====
-- The state of a `ConnectionHandler` of src/consumer.rs, what happens to it, and the helpers of its loop.
use nsq_async_rs.Base.{
  ℕ, zero, suc, Bool, true, false, ◌||◌, ◌&&◌, Option, none, some, List, [], ◌∷◌,
}
use nsq_async_rs.Base.Octets.{Bytes, bytes_eq}
use nsq_async_rs.Base.Int.{ℤ}
use nsq_async_rs.Error.{Outcome}
use nsq_async_rs.Protocol.Message.{Message}
use nsq_async_rs.Consumer.Task.{HandlerRun, Shared}

-- What a `ConnectionHandler` takes from its consumer; nothing changes `max_in_flight` later on.
pub record Settings : Type 0 where
  pub topic : Bytes
  pub channel : Bytes
  pub max_in_flight : ℤ
  pub disabled : Bool
  pub concurrent_handlers : ℕ

-- A message with its task, and the call of `handle_connection` that has spawned it.
pub record Task : Type 0 where
  pub message : Message
  pub call : ℕ

-- A handler and its current call of `handle_connection`, whose number is `call`. `tasks` are those that
-- run, also those of earlier calls; `pending` is the message for which the loop waits for a permit, and
-- `result` is what the loop has returned. `counters` are the `total_rdy_count` of each call; that of
-- `shared` is the one that a task has looked at last. `received` is what this handler has added to
-- `messages_received`, to which the handlers of other connections add too. `fresh` is the address of the
-- next `responded` flag, and `done` counts the tasks that have come to their end.
pub record Session : Type 0 where
  pub shared : Shared
  pub counters : ℕ → ℤ
  pub call : ℕ
  pub received : ℕ
  pub permits : ℕ
  pub is_running : Bool
  pub tasks : List Task
  pub pending : Option Message
  pub result : Option (Outcome (Unit {0}))
  pub fresh : ℕ
  pub done : ℕ

-- `ends k run`: the handler of the k-th task does what `run` says, and the task comes to its end.
-- `frame`: a frame has come in, and is read whole. `cut k`: only the first `k` bytes of a frame have come
-- in when the heartbeat ticks.
pub data Event : Type 0 where
  tick : Event
  cut : ℕ → Event
  frame : Event
  ends : ℕ → HandlerRun → Event
  stop : Event

-- `str::contains`
unfoldable pub starts_with : Bytes → Bytes → Bool
starts_with [] s = true
starts_with (c ∷ cs) [] = false
starts_with (c ∷ cs) (d ∷ ds) = bytes_eq (c ∷ []) (d ∷ []) && starts_with cs ds

unfoldable pub contains : Bytes → Bytes → Bool
unfolding starts_with
contains [] needle = starts_with needle []
contains (c ∷ cs) needle = starts_with needle (c ∷ cs) || contains cs needle

unfoldable pub remove : ℕ → List Task → Option (Task × List Task)
remove k [] = none
remove zero (t ∷ ts) = some (t, ts)
remove (suc k) (t ∷ ts) = elim (remove k ts) [ none ↦ none | some (x, rest) ↦ some (x, t ∷ rest) ]
