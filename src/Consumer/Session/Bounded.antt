-- ===== src/Consumer/Session/Bounded.antt =====
-- How many handlers run at once through all the calls of `handle_connection`, and where the messages are
-- that were received.
use nsq_async_rs.Base.{
  ℕ, ◌≡◌, refl, ◌⊎◌, Option, none, some, List, [], ◌∷◌, inl, arith, either, ◌&&◌,
}
use nsq_async_rs.Base.Octets.{Bytes}
use nsq_async_rs.Base.Int.{of_i32}
use nsq_async_rs.Error.{Outcome, ok, err, panic, hang}
use nsq_async_rs.Protocol.Command.{IdentifyConfig, Command}
use nsq_async_rs.Connection.{Connection}
use nsq_async_rs.Responder.{update, send_on}
use nsq_async_rs.Consumer.Task.{Shared}
use nsq_async_rs.Consumer.Session.{
  Settings, Session, Event, limit, run, subscribe, begin_loop, ask_ready, new_handler,
}
use nsq_async_rs.Consumer.Session.Calls.{with_connection, call_again, calls}
use nsq_async_rs.Consumer.Retry.{retries}
use nsq_async_rs.Consumer.Session.Permits.Kept.{IsPermitted, or_return-IsPermitted}
use nsq_async_rs.Consumer.Session.Permits.{with_shared-IsPermitted, run-IsPermitted}

module _ (cap : ℕ) where
  module _ (to_json : IdentifyConfig → Bytes ⊎ Bytes) (config : Settings) (a : ℕ) where
    begin_loop-IsPermitted :
        (r : Outcome (Unit {0})) (s : Session)
        → IsPermitted cap s
        → IsPermitted cap (begin_loop to_json config a r s)
    unfolding begin_loop
    begin_loop-IsPermitted (ok u) s h =
        or_return-IsPermitted cap (ok u)
          (record s { counters = update s.counters s.call config.max_in_flight })
          (record { shares = h.shares; none_free = h.none_free; placed = h.placed })
    begin_loop-IsPermitted (err x) s h = or_return-IsPermitted cap (err x) s h
    begin_loop-IsPermitted panic s h = or_return-IsPermitted cap panic s h
    begin_loop-IsPermitted hang s h = or_return-IsPermitted cap hang s h

    ask_ready-IsPermitted :
        (r : Outcome (Unit {0})) (s : Session)
        → IsPermitted cap s
        → IsPermitted cap (ask_ready to_json config a r s)
    unfolding ask_ready
    ask_ready-IsPermitted (ok u) s h =
        begin_loop-IsPermitted
          (send_on to_json a (Command.ready (of_i32 config.max_in_flight)) s.shared.world).0 _
          (with_shared-IsPermitted cap to_json config a s _ h)
    ask_ready-IsPermitted (err x) s h = or_return-IsPermitted cap (err x) s h
    ask_ready-IsPermitted panic s h = or_return-IsPermitted cap panic s h
    ask_ready-IsPermitted hang s h = or_return-IsPermitted cap hang s h

    subscribe-IsPermitted :
        (s : Session) → IsPermitted cap s → IsPermitted cap (subscribe to_json config a s)
    unfolding subscribe
    subscribe-IsPermitted s h =
        ask_ready-IsPermitted
          (send_on to_json a (Command.subscribe config.topic config.channel) s.shared.world).0 _
          (record { shares = h.shares; none_free = h.none_free; placed = h.placed })

    call_again-IsPermitted :
        (c : Connection) (s : Session)
        → IsPermitted cap s
        → IsPermitted cap (call_again to_json config a c s)
    unfolding call_again
    call_again-IsPermitted c s h = go s.result refl
      where
        go :
            (r : Option (Outcome (Unit {0})))
            → s.result ≡ r
            → IsPermitted cap (call_again to_json config a c s)
        go none e = rw (e, call_again) h
        go (some (err x)) e =
            rw (e, call_again)
              (either (IsPermitted cap) (s.is_running && retries x) _ _
                (λ again.
                  subscribe-IsPermitted (with_connection a c s) (
                    with_shared-IsPermitted cap to_json config a s (with_connection a c s).shared
                      h))
                (λ over. h))
        go (some (ok u)) e = rw (e, call_again) h
        go (some panic) e = rw (e, call_again) h
        go (some hang) e = rw (e, call_again) h

    calls-IsPermitted :
        (s : Session) (cs : List (Connection × List Event))
        → IsPermitted cap s
        → IsPermitted cap (calls to_json config a s cs)
    unfolding calls
    calls-IsPermitted s [] h = h
    calls-IsPermitted s ((c, es) ∷ cs) h =
        calls-IsPermitted (run to_json config a (call_again to_json config a c s) es) cs (
          run-IsPermitted cap to_json config a (call_again to_json config a c s) es
            (call_again-IsPermitted c s h))

new_handler-IsPermitted :
    (config : Settings) (fresh : ℕ) (s : Shared)
    → IsPermitted (limit config) (new_handler config fresh s)
unfolding new_handler
new_handler-IsPermitted config fresh s = record {
  shares = omega arith;
  none_free = inl refl;
  placed = refl;
}

-- Through all the calls of `handle_connection` that the task of a connection makes, whatever comes in
-- and however the handlers end: the running tasks, those of earlier calls too, and the free permits of
-- the semaphore add up to the configured number of handlers, and to 1 if that is 0; the loop waits for
-- a permit only while none is free; and what this handler has added to the counter of received
-- messages is, modulo 2 ^ 64, the number of those that wait, that have a task and that are done.
pub calls-new_handler-IsPermitted :
    (to_json : IdentifyConfig → Bytes ⊎ Bytes) (config : Settings) (a fresh : ℕ) (s : Shared)
    (es : List Event) (cs : List (Connection × List Event))
    → let first = subscribe to_json config a (new_handler config fresh s) in
      IsPermitted (limit config) (calls to_json config a (run to_json config a first es) cs)
calls-new_handler-IsPermitted to_json config a fresh s es cs =
    let first = subscribe to_json config a (new_handler config fresh s) in
    calls-IsPermitted (limit config) to_json config a (run to_json config a first es) cs (
      run-IsPermitted (limit config) to_json config a first es (
        subscribe-IsPermitted (limit config) to_json config a (new_handler config fresh s)
          (new_handler-IsPermitted config fresh s)))
