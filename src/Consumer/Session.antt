-- ===== src/Consumer/Session.antt =====
-- `handle_connection` of src/consumer.rs: the loop over heartbeats and frames, the tasks that it spawns,
-- and the semaphore that bounds them. The semaphore and the tasks outlive a call: the next one on the
-- same `ConnectionHandler` finds them as they are.
pub mod Permits
pub mod Ends
pub mod Torn
pub mod Calls
pub mod Bounded
mod State
unfoldable pub use State.*
use nsq_async_rs.Base.{
  ℕ, zero, suc, ◌+◌, ◌-◌, ltb, leb, length, take, drop, if◌then◌else◌, Bool, true, false, ◌||◌,
  ◌&&◌, not, ◌⊎◌, Option, none, some, List, [], ◌∷◌, ◌++◌, ◌≡◌, refl,
}
use nsq_async_rs.Base.Octets.{Bytes, bytes_eq, from_be}
use nsq_async_rs.Base.Text.{bytes, from_utf8_lossy}
use nsq_async_rs.Base.Int.{ℤ, pos, of_i32}
use nsq_async_rs.Error.{Error, ProtocolError, Outcome, ok, err, panic, hang}
use nsq_async_rs.Protocol.Command.{IdentifyConfig, Command}
use nsq_async_rs.Protocol.Message.{Message}
use nsq_async_rs.Protocol.Frame.{Frame}
use nsq_async_rs.Connection.{read_frame}
use nsq_async_rs.Responder.{World, update, with_responder, send_on}
use nsq_async_rs.Consumer.Task.{HandlerRun, Shared, task, fetch_add}

-- The check at the top of the loop.
unfoldable pub loop_top : Session → Session
loop_top s = if s.is_running then s else record s { result = some (ok tt) }

-- A failure returns from the loop, and anything else goes on with it.
unfoldable pub or_return : Outcome (Unit {0}) → Session → Session
unfolding loop_top
or_return (ok u) s = loop_top s
or_return r s = record s { result = some r }

-- `max(1)` of `ConnectionHandler::new`.
unfoldable pub limit : Settings → ℕ
limit c = if leb c.concurrent_handlers 1 then 1 else c.concurrent_handlers

-- The spawn, when there is a permit for it.
unfoldable pub spawn : Message → Session → Session
unfolding loop_top
spawn m s =
    loop_top
      (record s { tasks = s.tasks ++ (record { message = m; call = s.call } ∷ []); pending = none })

unfoldable pub acquire : Message → Session → Session
unfolding spawn
acquire m s = elim s.permits [
  | zero ↦ record s { pending = some m }
  | suc n ↦ spawn m (record s { permits = n })
]

-- `Arc::new(AtomicBool::new(false))` of `Message::new`: the flag of a message that has just been read.
abbrev pub with_flag : ℕ → Session → Session
with_flag cell s = record s {
  shared = record s.shared {
    world = record s.shared.world { flags = update s.shared.world.flags cell false };
  };
}

-- The task's permit goes to the message that waits for one, if the loop still does.
unfoldable pub give_back : Session → Session
unfolding spawn
give_back s = elim s.pending [ some m ↦ spawn m s | none ↦ record s { permits = suc s.permits } ]

-- What the loop does on an event, while it waits in its `select!`.
unfoldable pub in_select : (Session → Session) → Session → Session
in_select f s = elim s.result [ some r ↦ s | none ↦ elim s.pending [ some m ↦ s | none ↦ f s ] ]

-- Whether `read_frame` goes on reading behind the first `k` bytes of what comes in.
unfoldable pub mid_frame : ℕ → Bytes → Bool
mid_frame k input =
    leb k (length input)
    && (ltb k 4
        || (leb 4 (from_be (take 4 input))
            && (ltb k 8
                || (leb (from_be (take 4 (drop 4 input))) 2
                    && ltb k (4 + from_be (take 4 input))))))

-- The bytes that a `read_frame` has read are lost when `select!` drops it for another arm.
abbrev pub lose : ℕ → ℕ → Session → Session
lose a k s = record s {
  shared = record s.shared {
    world = record s.shared.world {
      connections =
          update s.shared.world.connections a
            (let c = s.shared.world.connections a in record c { input = drop k c.input });
    };
  };
}

module _ (to_json : IdentifyConfig → Bytes ⊎ Bytes) (config : Settings) (a : ℕ) where
  -- A command that the loop itself sends.
  unfoldable pub sends : Command → Session → Session
  unfolding or_return
  sends cmd s =
      let (r, w) = send_on to_json a cmd s.shared.world in
      or_return r (record s { shared = record s.shared { world = w } })

  -- The arms of the `match` on a frame.
  unfoldable pub on_frame : Outcome Frame → Session → Session
  unfolding bytes contains loop_top acquire sends with_responder
  on_frame (ok (Frame.response d)) s =
      if bytes_eq d (bytes "_heartbeat_") then sends Command.nop s else loop_top s
  on_frame (ok (Frame.error d)) s =
      if contains (from_utf8_lossy d) (bytes "E_INVALID")
      then record s {
        result = some (err (Error.protocol (ProtocolError.other (from_utf8_lossy d))));
      }
      else loop_top s
  on_frame (ok (Frame.message m)) s =
      acquire (with_responder a m)
        (record (with_flag m.responded s) { received = fetch_add s.received; fresh = suc s.fresh })
  on_frame (err e) s = record s { result = some (err e) }
  on_frame panic s = record s { result = some panic }
  on_frame hang s = record s { result = some hang }

  unfoldable pub receive : Session → Session
  unfolding on_frame
  receive s =
      let (r, c) = read_frame s.fresh (s.shared.world.connections a) in
      let w = s.shared.world in
      on_frame r (record s {
        shared = record s.shared { world = record w { connections = update w.connections a c } };
      })

  -- The task's handler, its answer and its refill, of the RDY count of the call that has spawned it.
  unfoldable pub finish_task : HandlerRun → Task → List Task → Session → Session
  finish_task run t rest s =
      let after =
        task to_json config.disabled config.max_in_flight run a t.message
          (record s.shared { rdy = s.counters t.call }) in
      record s {
        tasks = rest;
        shared = after;
        counters = update s.counters t.call after.rdy;
        done = suc s.done;
      }

  unfoldable pub end_task : ℕ → HandlerRun → Session → Session
  unfolding remove give_back finish_task
  end_task k run s = elim (remove k s.tasks) [
    | none ↦ s
    | some (t, rest) ↦ give_back (finish_task run t rest s)
  ]

  unfoldable pub tear : ℕ → Session → Session
  unfolding sends mid_frame
  tear k s =
      if mid_frame k (s.shared.world.connections a).input then sends Command.nop (lose a k s) else s

  unfoldable pub step : Session → Event → Session
  unfolding sends receive in_select end_task tear
  step s tick = in_select (sends Command.nop) s
  step s (cut k) = in_select (tear k) s
  step s frame = in_select receive s
  step s (ends k run) = end_task k run s
  step s stop = record s { is_running = false }

  unfoldable pub run : Session → List Event → Session
  unfolding step
  run s [] = s
  run s (e ∷ es) = run (step s e) es

  -- `total_rdy_count` is stored once RDY has been sent.
  unfoldable pub begin_loop : Outcome (Unit {0}) → Session → Session
  unfolding or_return
  begin_loop (ok u) s =
      or_return (ok u) (record s { counters = update s.counters s.call config.max_in_flight })
  begin_loop r s = or_return r s

  unfoldable pub ask_ready : Outcome (Unit {0}) → Session → Session
  unfolding or_return begin_loop
  ask_ready (ok u) s =
      let (r, w) = send_on to_json a (Command.ready (of_i32 config.max_in_flight)) s.shared.world in
      begin_loop r (record s { shared = record s.shared { world = w } })
  ask_ready r s = or_return r s

  -- The beginning of a call: SUB, the first RDY and the start of the loop, with an RDY count of its own.
  -- No message waits for a permit then, as a call does not return while one does.
  unfoldable pub subscribe : Session → Session
  unfolding ask_ready
  subscribe s =
      let (r, w) =
        send_on to_json a (Command.subscribe config.topic config.channel) s.shared.world in
      ask_ready r (record s {
        shared = record s.shared { world = w };
        counters = update s.counters (suc s.call) (pos 0);
        call = suc s.call;
        result = none;
      })

-- `ConnectionHandler::new`: the semaphore is made here.
unfoldable pub new_handler : Settings → ℕ → Shared → Session
unfolding limit
new_handler config fresh s = record {
  shared = s;
  counters = λ k. pos 0;
  call = 0;
  received = 0;
  permits = limit config;
  is_running = true;
  tasks = [];
  pending = none;
  result = none;
  fresh = fresh;
  done = 0;
}
