-- ===== src/Consumer/Task.antt =====
-- The task that `handle_connection` of src/consumer.rs spawns for a message: the handler's run, the
-- automatic response, the counters and the refill of RDY.
pub mod Answers
pub mod Ready
use nsq_async_rs.Base.{
  ℕ, suc, ◌+◌, ◌-◌, ◌/◌, ◌%◌, ◌^◌, leb, ltb, ◌==◌, if◌then◌else◌, Bool, true, false, ◌&&◌, not, ◌⊎◌,
  Option, none, some, List,
}
use nsq_async_rs.Base.Octets.{Bytes}
use nsq_async_rs.Base.Int.{ℤ, pos, negsuc, of_i32}
use nsq_async_rs.Error.{Error, Outcome, ok, err, panic, hang}
use nsq_async_rs.Protocol.Command.{IdentifyConfig, Command}
use nsq_async_rs.Protocol.Message.{Message}
use nsq_async_rs.Protocol.Message
use nsq_async_rs.Responder.{World, has_responded, id_string, send_on}
use nsq_async_rs.Responder.Once.{Response, perform_all}

-- What a handler does with its copy of the message: it may turn the automatic response off there,
-- responds any number of times, and returns `Ok` or an error.
pub record HandlerRun : Type 0 where
  pub disables : Bool
  pub responses : List Response
  pub failure : Option Error

-- What the tasks of a connection share: the world, two counters of the consumer, and `total_rdy_count`.
pub record Shared : Type 0 where
  pub world : World
  pub finished : ℕ
  pub requeued : ℕ
  pub rdy : ℤ

-- `fetch_add(1)` on an `AtomicU64`.
abbrev pub fetch_add : ℕ → ℕ
fetch_add n = (n + 1) % 2 ^ 64

-- `fetch_sub(1)` on an `AtomicI32`: what is stored, which is also the value minus 1 that it returns.
abbrev pub fetch_sub : ℤ → ℤ
fetch_sub (pos n) = if n == 0 then negsuc 0 else pos (n - 1)
fetch_sub (negsuc n) = if n == 2 ^ 31 - 1 then pos (2 ^ 31 - 1) else negsuc (suc n)

-- `/ 2` and `<=` on `i32`. The quotient is rounded towards 0.
abbrev pub half : ℤ → ℤ
half (pos n) = pos (n / 2)
half (negsuc n) = if suc n / 2 == 0 then pos 0 else negsuc (suc n / 2 - 1)

abbrev pub leb_ℤ : ℤ → ℤ → Bool
leb_ℤ (pos a) (pos b) = leb a b
leb_ℤ (pos a) (negsuc b) = false
leb_ℤ (negsuc a) (pos b) = true
leb_ℤ (negsuc a) (negsuc b) = leb b a

abbrev pub succeeded : Outcome (Unit {0}) → Bool
succeeded (ok u) = true
succeeded _ = false

abbrev pub count_finished : Shared → Shared
count_finished s = record s { finished = fetch_add s.finished }

abbrev pub count_requeued : Shared → Shared
count_requeued s = record s { requeued = fetch_add s.requeued }

module _ (to_json : IdentifyConfig → Bytes ⊎ Bytes) where
  -- `handle_message(msg.clone())`; the flag `auto_response_disabled` is not shared.
  unfoldable pub handle : HandlerRun → Message → World → World
  handle run m w =
      perform_all to_json run.responses
        (if run.disables then Message.disable_auto_response m else m) w

  -- The condition for an automatic response.
  unfoldable pub answers_itself : Bool → Message → World → Bool
  unfolding has_responded
  answers_itself disabled m w =
      not disabled && not m.auto_response_disabled && not (has_responded m w)

  -- The two arms of the `match` on the handler's result, by the command that they send and the counter
  -- that they add to. The `Bool` is false where the task returns at once.
  unfoldable pub conclude :
      Bool → Command → (Shared → Shared) → ℕ → Message → Shared → Bool × Shared
  unfolding answers_itself
  conclude disabled cmd counted a m s =
      if answers_itself disabled m s.world
      then (let (r, w) = send_on to_json a cmd s.world in
          if succeeded r
          then (true, counted (record s { world = w }))
          else (false, record s { world = w }))
      else if has_responded m s.world
      then (true, counted s)
      else (true, s)

  abbrev pub conclude_run : Bool → Option Error → ℕ → Message → Shared → Bool × Shared
  conclude_run disabled none a m s =
      conclude disabled (Command.finish (id_string m)) count_finished a m s
  conclude_run disabled (some e) a m s =
      conclude disabled (Command.requeue (id_string m) 0) count_requeued a m s

  -- The handler and the automatic response; `a` is the address of the connection.
  unfoldable pub answer : Bool → HandlerRun → ℕ → Message → Shared → Bool × Shared
  unfolding handle
  answer disabled run a m s =
      conclude_run disabled run.failure a m (record s { world = handle run m s.world })

  -- The refill of RDY when a handler has ended.
  unfoldable pub refill : ℤ → ℕ → Shared → Shared
  refill max_in_flight a s =
      let remaining = fetch_sub s.rdy in
      if leb_ℤ remaining (half max_in_flight)
      then (let (r, w) = send_on to_json a (Command.ready (of_i32 max_in_flight)) s.world in
          if succeeded r
          then record s { world = w; rdy = max_in_flight }
          else record s { world = w; rdy = remaining })
      else record s { rdy = remaining }

  unfoldable pub task : Bool → ℤ → HandlerRun → ℕ → Message → Shared → Shared
  unfolding answer refill
  task disabled max_in_flight run a m s =
      let (goes_on, s') = answer disabled run a m s in
      if goes_on then refill max_in_flight a s' else s'
