-- ===== src/Tests/Consumer.antt =====
-- src/consumer.rs and the responses of src/protocol.rs at concrete inputs.
use nsq_async_rs.Base.{◌≤◌, ◌<◌, ◌≡◌, refl, true, false, none, some, List, [], ◌∷◌, ◌++◌}
use nsq_async_rs.Base.Octets.{Bytes}
use nsq_async_rs.Base.Int.{pos, of_i32}
use nsq_async_rs.Base.Decimal.{show_dec}
use nsq_async_rs.Error.{ok}
use nsq_async_rs.Protocol.Command.{Command, to_bytes}
use nsq_async_rs.Protocol.Command.Request.{Request, read_request}
use nsq_async_rs.Protocol.Message.{Message, MessageResponder}
use nsq_async_rs.Protocol.Message
use nsq_async_rs.Responder.{World, with_responder, id_string}
use nsq_async_rs.Responder.Once.{
  Response, finishes, requeues, touches, Leaves, effective, send_each, perform_all,
  perform_all-Leaves,
}
use nsq_async_rs.Consumer.Names.{is_valid_topic_name, is_valid_channel_name, valid_names-framed}
use nsq_async_rs.Consumer.Task.{HandlerRun, Shared, answer}
use nsq_async_rs.Consumer.Task.Answers.{IsFresh, own_answers, answer-sends}
use nsq_async_rs.Tests.Protocol.{no_json, id}
use nsq_async_rs.Tests.Connection.{line}

abbrev world : World
world = record { flags = λ _. false; connections = λ _. line 9 }

-- The message as `handle_connection` passes it on, on the connection at 4.
abbrev received : Message
received = record (Message.new 0 id [] 5 1) {
  connection = some (record { connection = 4; msg_id = id_string (Message.new 0 id [] 5 1) });
}

with_responder_example : with_responder 4 (Message.new 0 id [] 5 1) ≡ received
unfolding with_responder id_string
with_responder_example = refl

abbrev responses : List Response
responses = touches ∷ finishes ∷ requeues 3 ∷ touches ∷ []

perform_all-Leaves_example :
    Leaves no_json responses received
      (record { connection = 4; msg_id = id_string (Message.new 0 id [] 5 1) })
      world
      (perform_all no_json responses received world)
perform_all-Leaves_example =
    perform_all-Leaves no_json responses received
      (record { connection = 4; msg_id = id_string (Message.new 0 id [] 5 1) }) world refl

abbrev shared : Shared
shared = record { world = world; finished = 0; requeued = 0; rdy = pos 5 }

received-IsFresh : IsFresh 4 received world
unfolding id_string
received-IsFresh = record { attached = refl; automatic = refl; unanswered = refl }

-- The handler turns the automatic response off on its copy, touches the message and succeeds.
abbrev quiet : HandlerRun
quiet = record { disables = true; responses = touches ∷ []; failure = none }

answer-sends_example :
    (answer no_json false quiet 4 received shared).1.world.connections 4
    ≡ send_each no_json
        (effective (id_string received) false quiet.responses
          ++ own_answers (id_string received) false quiet)
        (line 9)
answer-sends_example = answer-sends no_json false quiet 4 received shared received-IsFresh

ready_wire :
    to_bytes no_json (Command.ready (of_i32 (pos 9))) ≡ ok (82 ∷ 68 ∷ 89 ∷ 32 ∷ 57 ∷ 10 ∷ [])
unfolding to_bytes show_dec
ready_wire = refl

-- "a.b" and "c#e"
valid_names-framed_example :
    (wire : Bytes) × (to_bytes no_json (Command.subscribe (97 ∷ 46 ∷ 98 ∷ []) (99 ∷ 35 ∷ 101 ∷ []))
      ≡ ok wire)
    × (read_request (wire ++ []) ≡ some (Request.sub (97 ∷ 46 ∷ 98 ∷ []) (99 ∷ 35 ∷ 101 ∷ []), []))
    × (0 < 3)
    × (3 ≤ 64)
    × (0 < 3)
    × (3 ≤ 64)
unfolding is_valid_topic_name is_valid_channel_name
valid_names-framed_example =
    valid_names-framed no_json (97 ∷ 46 ∷ 98 ∷ []) (99 ∷ 35 ∷ 101 ∷ []) [] refl refl

-- A space, and a name of 65 characters.
bad_topic : is_valid_topic_name (97 ∷ 32 ∷ []) ≡ false
unfolding is_valid_topic_name
bad_topic = refl
