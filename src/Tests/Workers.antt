-- ===== src/Tests/Workers.antt =====
-- Handlers that pass their messages to workers, at concrete inputs.
use nsq_async_rs.Base.{ℕ, ◌≡◌, refl, true, false, none, some, List, [], ◌∷◌, ◌++◌, Bool}
use nsq_async_rs.Base.Int.{pos}
use nsq_async_rs.Base.Text.{from_utf8_lossy}
use nsq_async_rs.Error.{ok}
use nsq_async_rs.Protocol.Command.{Command}
use nsq_async_rs.Protocol.Message.{Message}
use nsq_async_rs.Responder.{id_string}
use nsq_async_rs.Consumer.Task.{Shared}
use nsq_async_rs.Examples.Workers.{
  Event, Setting, start, new, run, enters, takes, resumes, ends, returns, returning,
}
use nsq_async_rs.Examples.Workers.Channel.{IsRight, run-new-IsRight}
use nsq_async_rs.Examples.Workers.Blocked.{blocked_call_goes_on}
use nsq_async_rs.Examples.Workers.Sent.{Sent, Arrives}
use nsq_async_rs.Examples.Workers.Answers.{run-new-IsAnswered}
use nsq_async_rs.Tests.Connection.{line}
use nsq_async_rs.Tests.Protocol.{no_json}

abbrev message : ℕ → Message
message k = record {
  id = 65 ∷ [];
  timestamp = 0;
  attempts = 1;
  body = [];
  connection = some (record { connection = 5; msg_id = 65 ∷ [] });
  auto_response_disabled = false;
  responded = k;
}

abbrev setting : Bool → Setting
setting manual = record {
  to_json = no_json;
  manual = manual;
  workers = 1;
  max_in_flight = pos 100;
  address = 5;
  messages = message;
  send_error = [];
}

abbrev shared : Shared
shared = record {
  world = record { flags = λ k. false; connections = λ a. line 4 };
  finished = 0;
  requeued = 0;
  rdy = pos 100;
}

abbrev rounds : List Event
rounds =
    enters 0 ∷ enters 1 ∷ takes ∷ returns 0 ∷ ends 0 true ∷ takes ∷ ends 1 false ∷ returns 1 ∷ []

Arrives-in : (manual : Bool) (k : ℕ) → Arrives (setting manual) k
unfolding id_string from_utf8_lossy
Arrives-in manual k = (refl, refl, refl)

made : new 1000 1 shared ≡ ok (start 1 shared)
unfolding new
made = refl

run-new-IsRight_example : IsRight 1 (run (setting true) rounds (start 1 shared))
run-new-IsRight_example = run-new-IsRight (setting true) 1000 shared (start 1 shared) rounds made

run-new-IsAnswered_example :
    Sent no_json
      (line 4)
      ((run (setting true) rounds (start 1 shared)).shared.world.connections 5)
      (Command.requeue (65 ∷ []) 5000 ∷ Command.finish (65 ∷ []) ∷ [])
unfolding run id_string from_utf8_lossy
run-new-IsAnswered_example =
    run-new-IsAnswered (setting true) 1000 shared (start 1 shared) rounds (Arrives-in true)
      (λ k. refl) made

-- Ten messages fill the channel, and the call with the eleventh is blocked.
abbrev calls : List Event
calls =
    enters 0
    ∷ enters 1
    ∷ enters 2
    ∷ enters 3
    ∷ enters 4
    ∷ enters 5
    ∷ enters 6
    ∷ enters 7
    ∷ enters 8
    ∷ enters 9
    ∷ enters 10
    ∷ []

blocked_call_goes_on_example :
    let p' = run (setting false) calls (start 1 shared) in
    let p'' = run (setting false) (takes ∷ resumes ∷ []) p' in
    (p''.calls 10 ≡ returning none) × (p''.holder ≡ none) × (p''.entered ≡ p'.entered ++ (10 ∷ []))
unfolding run
blocked_call_goes_on_example =
    blocked_call_goes_on (setting false) 1000 0 10 shared (start 1 shared) calls made refl refl refl
