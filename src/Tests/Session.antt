-- ===== src/Tests/Session.antt =====
-- `handle_connection` of src/consumer.rs at concrete inputs.
use nsq_async_rs.Base.{◌≡◌, refl, true, false, none, some, List, [], ◌∷◌}
use nsq_async_rs.Base.Octets.{Bytes}
use nsq_async_rs.Base.Text.{bytes}
use nsq_async_rs.Base.Int.{pos}
use nsq_async_rs.Protocol.Command.{Command}
use nsq_async_rs.Protocol.Frame.Decode.{message_wire}
use nsq_async_rs.Connection.Frames.{with_input, frame_on}
use nsq_async_rs.Connection.Setup.{after_write}
use nsq_async_rs.Responder.{send_on}
use nsq_async_rs.Consumer.Task.{HandlerRun, Shared}
use nsq_async_rs.Consumer.Session.{
  Settings, Session, Event, tick, cut, frame, ends, stop, limit, run, step, subscribe, new_handler,
}
use nsq_async_rs.Consumer.Session.Permits.Kept.{IsPermitted}
use nsq_async_rs.Consumer.Session.Bounded.{calls-new_handler-IsPermitted}
use nsq_async_rs.Consumer.Session.Calls.{calls}
use nsq_async_rs.Connection.{Connection}
use nsq_async_rs.Base.{arith}
use nsq_async_rs.Error.{Error, invalid_frame_size, err}
use nsq_async_rs.Consumer.Retry.{retries}
use nsq_async_rs.Consumer.Session.Torn.{torn_frame}
use nsq_async_rs.Consumer.Session.Ends.{stop-tick, heartbeat_answered}
use nsq_async_rs.Tests.Protocol.{no_json, id}
use nsq_async_rs.Tests.Connection.{line}

-- Two messages and a heartbeat come in, for a consumer with one handler at a time.
abbrev stream : Bytes
stream =
    frame_on 2 (message_wire 5 1 id (7 ∷ []))
      (frame_on 2 (message_wire 6 1 id []) (frame_on 0 (bytes "_heartbeat_") []))

abbrev shared_on : Bytes → Shared
shared_on input = record {
  world = record { flags = λ _. false; connections = λ _. with_input input (line 9) };
  finished = 0;
  requeued = 0;
  rdy = pos 0;
}

abbrev settings : Settings
settings = record {
  topic = 116 ∷ [];
  channel = 99 ∷ [];
  max_in_flight = pos 1;
  disabled = false;
  concurrent_handlers = 1;
}

abbrev succeeds : HandlerRun
succeeds = record { disables = false; responses = []; failure = none }

-- The second message waits until the first one's handler has come to its end, and the stream ends.
abbrev events : List Event
events = frame ∷ frame ∷ tick ∷ ends 0 succeeds ∷ frame ∷ tick ∷ frame ∷ []

-- The next call receives two messages, of which the first waits for a permit until the handler of the
-- earlier call has come to its end.
abbrev later : List (Connection × List Event)
later =
    (with_input stream (line 9), frame ∷ frame ∷ ends 0 succeeds ∷ frame ∷ [])
    ∷ (line 0, tick ∷ [])
    ∷ []

abbrev served : Session
served =
    calls no_json settings 4
      (run no_json settings 4
        (subscribe no_json settings 4 (new_handler settings 0 (shared_on stream))) events)
      later

calls-new_handler-IsPermitted_example : IsPermitted (limit settings) served
calls-new_handler-IsPermitted_example =
    calls-new_handler-IsPermitted no_json settings 4 0 (shared_on stream) events later

abbrev listening : Bytes → Session
listening input = record {
  shared = shared_on input;
  counters = λ k. pos 1;
  call = 1;
  received = 0;
  permits = 1;
  is_running = true;
  tasks = [];
  pending = none;
  result = none;
  fresh = 0;
  done = 0;
}

stop-tick_example :
    (run no_json settings 4 (listening []) (stop ∷ tick ∷ [])).result
    ≡ some (send_on no_json 4 Command.nop (shared_on []).world).0
stop-tick_example = stop-tick no_json settings 4 (listening []) refl refl

heartbeat_answered_example :
    let s' =
      step no_json settings 4 (listening (frame_on 0 (bytes "_heartbeat_") (1 ∷ []))) frame in
    (s'.shared.world.connections 4 ≡ after_write (bytes "NOP\n") 8 (with_input (1 ∷ []) (line 9)))
    × (s'.result ≡ none)
heartbeat_answered_example =
    heartbeat_answered no_json settings 4 (listening (frame_on 0 (bytes "_heartbeat_") (1 ∷ [])))
      (1 ∷ []) (line 9) 8 refl refl refl refl refl

-- The size of a frame that says "OK" has come in when the heartbeat ticks.
torn_frame_example :
    ((run no_json settings 4
        (listening (frame_on 0 (79 ∷ 75 ∷ []) (1 ∷ [])))
        (cut 4 ∷ frame ∷ [])).result
      ≡ some (err (Error.protocol invalid_frame_size)))
    × (retries (Error.protocol invalid_frame_size) ≡ false)
torn_frame_example =
    torn_frame no_json settings 4 (listening (frame_on 0 (79 ∷ 75 ∷ []) (1 ∷ []))) 0 8
      (79 ∷ 75 ∷ []) (1 ∷ []) (line 9) refl refl refl refl refl (omega arith) (omega arith)
