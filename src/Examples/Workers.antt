-- ===== src/Examples/Workers.antt =====
-- `ManualAckHandler` of examples/consume/manual_ack_consume.rs and `ConcurrentMessageHandler` of
-- examples/consume/consume.rs: handlers that pass their messages to workers through a bounded channel.
pub mod Places
pub mod Channel
pub mod Blocked
pub mod Sent
pub mod Quiet
pub mod Answers
use nsq_async_rs.Base.{
  ℕ, zero, suc, ◌*◌, ◌-◌, ◌%◌, ◌^◌, ltb, ◌==◌, if◌then◌else◌, Bool, true, false, ◌||◌, ◌⊎◌, Option,
  none, some, List, [], ◌∷◌, ◌++◌, length,
}
use nsq_async_rs.Base.Octets.{Bytes}
use nsq_async_rs.Base.Int.{ℤ}
use nsq_async_rs.Base.Text.{bytes}
use nsq_async_rs.Error.{Error, Outcome, ok, panic}
use nsq_async_rs.Protocol.Command.{IdentifyConfig}
use nsq_async_rs.Protocol.Message.{Message}
use nsq_async_rs.Responder.{World, update, id_string, finish, requeue}
use nsq_async_rs.Consumer.Task.{HandlerRun, Shared, task}

-- A call of the handler: before it has the lock on the sender, blocked in `send`, with a result that the
-- message's task has yet to see, and over.
pub data Call : Type 0 where
  outside : Call
  sending : Call
  returning : Option Error → Call
  over : Call

-- Where the channel and the workers have a message.
pub data Work : Type 0 where
  unseen : Work
  queued : Work
  busy : Work
  settled : Work
  dropped : Work

-- The messages are numbered. `holder`: the call that keeps the lock on the sender while it is blocked.
-- `idle`: how many workers wait for a message. The last four keep what happened, in its order: the
-- messages that entered the channel, those that workers took, those that workers were done with and
-- whether they had failed, and the results of the handler that the tasks saw.
pub record Pipe : Type 0 where
  pub shared : Shared
  pub calls : ℕ → Call
  pub work : ℕ → Work
  pub queue : List ℕ
  pub holder : Option ℕ
  pub idle : ℕ
  pub closed : Bool
  pub entered : List ℕ
  pub taken : List ℕ
  pub ended : List (ℕ × Bool)
  pub results : List (ℕ × Option Error)

-- `enters`: a call gets the lock. `resumes`: the blocked `send` is polled again. `takes`: a worker that
-- waits looks at the channel. `ends`: a worker is done with a message, and whether it failed. `returns`:
-- a task sees its handler's result. `closes`: the workers are dropped with the runtime.
pub data Event : Type 0 where
  enters : ℕ → Event
  resumes : Event
  takes : Event
  ends : ℕ → Bool → Event
  returns : ℕ → Event
  closes : Event

abbrev pub in_call : ℕ → Call → Pipe → Pipe
in_call k c p = record p { calls = update p.calls k c }

-- `Err(Error::Other(format!("工作线程通道已断开: ID={}", msg_id)))`
unfoldable pub disconnected : Message → Error
unfolding bytes
disconnected m = Error.other (bytes "工作线程通道已断开: ID=" ++ id_string m)

-- `Err(Error::Other(format!("发送消息到工作线程通道失败: {}", e)))`, by the text that `e` prints.
unfoldable pub send_failed : Bytes → Error
unfolding bytes
send_failed e = Error.other (bytes "发送消息到工作线程通道失败: " ++ e)

-- `worker_count * 10`, as a build without overflow checks has it.
abbrev pub buffer : ℕ → ℕ
buffer workers = workers * 10 % 2 ^ 64

-- A handler with its workers, before any message.
abbrev pub start : ℕ → Shared → Pipe
start workers shared = record {
  shared = shared;
  calls = λ k. outside;
  work = λ k. unseen;
  queue = [];
  holder = none;
  idle = workers;
  closed = false;
  entered = [];
  taken = [];
  ended = [];
  results = [];
}

-- `new` and `start_workers`: `mpsc::channel` panics where its capacity is 0 or above `max_permits`.
unfoldable pub new : ℕ → ℕ → Shared → Outcome Pipe
new max_permits workers shared =
    if buffer workers == 0 || ltb max_permits (buffer workers)
    then panic
    else ok (start workers shared)

-- `try_send` and `send` with room.
abbrev pub push : ℕ → Pipe → Pipe
push k p = record p {
  queue = p.queue ++ (k ∷ []);
  work = update p.work k queued;
  entered = p.entered ++ (k ∷ []);
}

-- What closing leaves of a message's place: what is in the channel or with a worker is lost.
abbrev pub drop_work : Work → Work
drop_work queued = dropped
drop_work busy = dropped
drop_work v = v

-- A worker's `recv`.
abbrev pub recv : ℕ → List ℕ → Pipe → Pipe
recv zero q p = p
recv (suc n) [] p = p
recv (suc n) (k ∷ q) p = record p {
  queue = q;
  idle = n;
  work = update p.work k busy;
  taken = p.taken ++ (k ∷ []);
}

-- The channel and its workers are gone.
unfoldable pub shut_down : Pipe → Pipe
shut_down p = record p { queue = []; idle = 0; closed = true; work = λ k. drop_work (p.work k) }

abbrev pub run_of : Option Error → HandlerRun
run_of r = record { disables = false; responses = []; failure = r }

-- What holds while the consumer runs: `manual` is its `disable_auto_response`, `messages` the messages
-- that came in, from the connection at `address`; `send_error` is what tokio's `SendError` prints.
pub record Setting : Type 0 where
  pub to_json : IdentifyConfig → Bytes ⊎ Bytes
  pub manual : Bool
  pub workers : ℕ
  pub max_in_flight : ℤ
  pub address : ℕ
  pub messages : ℕ → Message
  pub send_error : Bytes

module _ (on : Setting) where
  -- `handle_message`, once it has the lock: `try_send`, and `send` where the channel is full.
  unfoldable pub pass_on : ℕ → Pipe → Pipe
  unfolding disconnected
  pass_on k p =
      if p.closed
      then in_call k (returning (some (disconnected (on.messages k)))) p
      else if ltb (length p.queue) (buffer on.workers)
      then in_call k (returning none) (push k p)
      else in_call k sending (record p { holder = some k })

  -- The rest of a blocked `handle_message`.
  unfoldable pub resume : ℕ → Pipe → Pipe
  unfolding send_failed
  resume k p =
      if p.closed
      then in_call k (returning (some (send_failed on.send_error))) (record p { holder = none })
      else if ltb (length p.queue) (buffer on.workers)
      then in_call k (returning none) (push k (record p { holder = none }))
      else p

  -- What a worker does with a message in the manual mode.
  unfoldable pub reply : Message → Bool → World → World
  unfolding finish requeue
  reply m failed w =
      if failed
      then if ltb 3 m.attempts then (finish on.to_json m w).1 else (requeue on.to_json 5000 m w).1
      else (finish on.to_json m w).1

  -- The end of a worker's round. In the automatic mode it only logs.
  unfoldable pub end_round : ℕ → Bool → Pipe → Pipe
  unfolding reply
  end_round k failed p = record p {
    shared =
        if on.manual
        then record p.shared { world = reply (on.messages k) failed p.shared.world }
        else p.shared;
    work = update p.work k settled;
    idle = suc p.idle;
    ended = p.ended ++ ((k, failed) ∷ []);
  }

  -- The message's task goes on behind its handler.
  unfoldable pub conclude_call : ℕ → Option Error → Pipe → Pipe
  unfolding task
  conclude_call k r p = record p {
    shared =
        task on.to_json on.manual on.max_in_flight (run_of r) on.address (on.messages k) p.shared;
    calls = update p.calls k over;
    results = p.results ++ ((k, r) ∷ []);
  }

  abbrev pub on_enter : Call → Option ℕ → ℕ → Pipe → Pipe
  on_enter outside none k p = pass_on k p
  on_enter c h k p = p

  abbrev pub on_resume : Option ℕ → Pipe → Pipe
  on_resume none p = p
  on_resume (some k) p = resume k p

  abbrev pub on_end : Work → ℕ → Bool → Pipe → Pipe
  on_end busy k failed p = end_round k failed p
  on_end v k failed p = p

  abbrev pub on_return : Call → ℕ → Pipe → Pipe
  on_return (returning r) k p = conclude_call k r p
  on_return c k p = p

  -- An event whose time has not come changes nothing.
  unfoldable pub step : Event → Pipe → Pipe
  unfolding pass_on resume end_round conclude_call shut_down
  step (enters k) p = on_enter (p.calls k) p.holder k p
  step resumes p = on_resume p.holder p
  step takes p = recv p.idle p.queue p
  step (ends k failed) p = on_end (p.work k) k failed p
  step (returns k) p = on_return (p.calls k) k p
  step closes p = shut_down p

  unfoldable pub run : List Event → Pipe → Pipe
  unfolding step
  run [] p = p
  run (e ∷ es) p = run es (step e p)
