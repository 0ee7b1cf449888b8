-- ===== src/Consumer/Session/Permits.antt =====
-- How many handlers run at once, and where the messages are that were received.
pub mod Kept
use nsq_async_rs.Base.{
  ℕ, zero, suc, ◌+◌, ◌%◌, ◌^◌, ◌≡◌, refl, ◌⊎◌, Option, none, some, List, [], ◌∷◌, ◌++◌, length,
  length-append, Bool-cases, Option-cases, inl, inr, arith, either, ◌&&◌,
}
use nsq_async_rs.Base.Octets.{Bytes, bytes_eq}
use nsq_async_rs.Base.Text.{bytes, from_utf8_lossy}
use nsq_async_rs.Base.Int.{of_i32}
use nsq_async_rs.Error.{Outcome, ok, err, panic, hang}
use nsq_async_rs.Protocol.Command.{IdentifyConfig, Command}
use nsq_async_rs.Protocol.Message.{Message}
use nsq_async_rs.Protocol.Frame.{Frame}
use nsq_async_rs.Connection.{Connection, read_frame}
use nsq_async_rs.Responder.{update, send_on, with_responder}
use nsq_async_rs.Consumer.Task.{Shared, HandlerRun, fetch_add}
use nsq_async_rs.Consumer.Session.{
  Settings, contains, Session, Event, tick, cut, mid_frame, lose, tear, frame, ends, stop, limit,
  remove, loop_top, or_return, spawn, acquire, give_back, sends, on_frame, receive, in_select,
  end_task, step, run, subscribe, begin_loop, ask_ready, Task, with_flag, finish_task, new_handler,
}
use nsq_async_rs.Consumer.Session.Calls.{with_connection, call_again, calls}
use nsq_async_rs.Consumer.Retry.{retries}
use nsq_async_rs.Consumer.Session.Permits.Kept.{
  IsPermitted, loop_top-IsPermitted, or_return-IsPermitted, received-IsPermitted,
  give_back-IsPermitted, length-remove,
}

module _ (cap : ℕ) where
  module _ (to_json : IdentifyConfig → Bytes ⊎ Bytes) (config : Settings) (a : ℕ) where
    pub with_shared-IsPermitted :
        (s : Session) (t : Shared) → IsPermitted cap s → IsPermitted cap (record s { shared = t })
    with_shared-IsPermitted s t h = record {
      shares = h.shares;
      none_free = h.none_free;
      placed = h.placed;
    }

    sends-IsPermitted :
        (cmd : Command) (s : Session)
        → IsPermitted cap s
        → IsPermitted cap (sends to_json config a cmd s)
    unfolding sends
    sends-IsPermitted cmd s h =
        or_return-IsPermitted cap (send_on to_json a cmd s.shared.world).0 _
          (with_shared-IsPermitted s _ h)

    with_result-IsPermitted :
        (s : Session) (r : Outcome (Unit {0}))
        → IsPermitted cap s
        → IsPermitted cap (record s { result = some r })
    with_result-IsPermitted s r h = record {
      shares = h.shares;
      none_free = h.none_free;
      placed = h.placed;
    }

    on_frame-IsPermitted :
        (f : Outcome Frame) (s : Session)
        → s.pending ≡ none
        → IsPermitted cap s
        → IsPermitted cap (on_frame to_json config a f s)
    unfolding on_frame
    on_frame-IsPermitted (ok (Frame.response d)) s e h =
        elim (Bool-cases (bytes_eq d (bytes "_heartbeat_"))) [
          | inl beat ↦ rw beat (sends-IsPermitted Command.nop s h)
          | inr text ↦ rw text (loop_top-IsPermitted cap s h)
        ]
    on_frame-IsPermitted (ok (Frame.error d)) s e h =
        elim (Bool-cases (contains (from_utf8_lossy d) (bytes "E_INVALID"))) [
          | inl bad ↦ rw bad (with_result-IsPermitted s _ h)
          | inr fine ↦ rw fine (loop_top-IsPermitted cap s h)
        ]
    on_frame-IsPermitted (ok (Frame.message m)) s e h =
        received-IsPermitted cap (with_responder a m) (with_flag m.responded s) (suc s.fresh) e
          (with_shared-IsPermitted s (with_flag m.responded s).shared h)
    on_frame-IsPermitted (err x) s e h = with_result-IsPermitted s (err x) h
    on_frame-IsPermitted panic s e h = with_result-IsPermitted s panic h
    on_frame-IsPermitted hang s e h = with_result-IsPermitted s hang h

    receive-IsPermitted :
        (s : Session)
        → s.pending ≡ none
        → IsPermitted cap s
        → IsPermitted cap (receive to_json config a s)
    unfolding receive
    receive-IsPermitted s e h =
        on_frame-IsPermitted (read_frame s.fresh (s.shared.world.connections a)).0 _ e
          (with_shared-IsPermitted s _ h)

    in_select-IsPermitted :
        (f : Session → Session) (s : Session)
        → (s.pending ≡ none → IsPermitted cap (f s))
        → IsPermitted cap s
        → IsPermitted cap (in_select f s)
    unfolding in_select
    in_select-IsPermitted f s next h = elim (Option-cases s.result) [
      | inr (r, e) ↦ rw (e, in_select) h
      | inl go ↦
          rw (go, in_select)
            (elim (Option-cases s.pending) [
              | inr (m, e) ↦ rw (e, in_select) h
              | inl e ↦ rw (e, in_select) (next e)
            ])
    ]

    end_task-IsPermitted :
        (k : ℕ) (r : HandlerRun) (s : Session)
        → IsPermitted cap s
        → IsPermitted cap (end_task to_json config a k r s)
    unfolding end_task finish_task
    end_task-IsPermitted k r s h = elim (Option-cases (remove k s.tasks)) [
      | inl e ↦ rw (e, end_task) h
      | inr ((t, rest), e) ↦
          rw (e, end_task)
            (give_back-IsPermitted cap _
              (omega (arith, h.shares, length-remove cap k s.tasks t rest e)) h.none_free
              (omega (arith, h.placed, length-remove cap k s.tasks t rest e)))
    ]

    tear-IsPermitted :
        (k : ℕ) (s : Session) → IsPermitted cap s → IsPermitted cap (tear to_json config a k s)
    unfolding tear
    tear-IsPermitted k s h = elim (Bool-cases (mid_frame k (s.shared.world.connections a).input)) [
      | inl inside ↦ rw inside (
          sends-IsPermitted Command.nop (lose a k s)
            (with_shared-IsPermitted s (lose a k s).shared h))
      | inr whole ↦ rw whole h
    ]

    step-IsPermitted :
        (s : Session) (e : Event) → IsPermitted cap s → IsPermitted cap (step to_json config a s e)
    unfolding step
    step-IsPermitted s tick h =
        in_select-IsPermitted (sends to_json config a Command.nop) s
          (λ _. sends-IsPermitted Command.nop s h) h
    step-IsPermitted s (cut k) h =
        in_select-IsPermitted (tear to_json config a k) s (λ _. tear-IsPermitted k s h) h
    step-IsPermitted s frame h =
        in_select-IsPermitted (receive to_json config a) s (λ e. receive-IsPermitted s e h) h
    step-IsPermitted s (ends k r) h = end_task-IsPermitted k r s h
    step-IsPermitted s stop h = record {
      shares = h.shares;
      none_free = h.none_free;
      placed = h.placed;
    }

    pub run-IsPermitted :
        (s : Session) (es : List Event)
        → IsPermitted cap s
        → IsPermitted cap (run to_json config a s es)
    unfolding run
    run-IsPermitted s [] h = h
    run-IsPermitted s (e ∷ es) h =
        run-IsPermitted (step to_json config a s e) es (step-IsPermitted s e h)
