-- ===== src/Tests/Registry.antt =====
-- The map of connections of src/consumer.rs, and the one-shot methods of src/commands.rs, at concrete
-- inputs.
use nsq_async_rs.Base.{
  none, some, List, [], ◌∷◌, ◌++◌, ◌≡◌, refl, ap, arith, true, false, length, ◌%◌, ◌^◌,
}
use nsq_async_rs.Base.Octets.{Bytes, bytes_eq}
use nsq_async_rs.Base.Assoc.{lookup}
use nsq_async_rs.Base.Int.{pos, to_i32}
use nsq_async_rs.Base.Text.{bytes}
use nsq_async_rs.Error.{Outcome, ok, err}
use nsq_async_rs.Base.Decimal.{show_dec}
use nsq_async_rs.Base.Text.{from_utf8_lossy}
use nsq_async_rs.Protocol.Command.{Command, to_bytes}
use nsq_async_rs.Connection.Frames.{with_input, frame_on}
use nsq_async_rs.Connection.Setup.{after_write}
use nsq_async_rs.Commands.{refused, subscription}
use nsq_async_rs.Commands.Answers.{subscription-answered}
use nsq_async_rs.Lookup.{Node}
use nsq_async_rs.Consumer.Retry.{retries}
use nsq_async_rs.Consumer.Session.{Session, Settings, tick, step}
use nsq_async_rs.Consumer.Registry.{Consumer, default_config, new, stats, disconnect_from_nsqd}
use nsq_async_rs.Consumer.Registry.Counting.{
  IsCounted, Operation, connects, disconnects, looks_up, polls, stops, starts, run,
  run-new-IsCounted,
}
use nsq_async_rs.Consumer.Registry.Leaving.{shut, disconnect_reconnects}
use nsq_async_rs.Tests.Protocol.{no_json}
use nsq_async_rs.Tests.Connection.{line}
use nsq_async_rs.Tests.Network.{env, net}

-- A consumer of the topic "t" and the channel "c".
abbrev pub fresh : Consumer
fresh = record {
  topic = 116 ∷ [];
  channel = 99 ∷ [];
  config = default_config;
  messages_received = 0;
  messages_finished = 0;
  messages_requeued = 0;
  connections = [];
  connection_count = pos 0;
  max_in_flight = pos 1;
  is_running = true;
  net = net;
  tasks = [];
}

pub fresh_new : new (116 ∷ []) (99 ∷ []) default_config net ≡ ok fresh
unfolding new
fresh_new = refl

abbrev nodes : Bytes → Outcome (List Node)
nodes url = ok (record { broadcast_address = 110 ∷ []; tcp_port = 4150 } ∷ [])

abbrev history : List Operation
history =
    connects (110 ∷ [])
    ∷ looks_up nodes []
    ∷ connects (110 ∷ [])
    ∷ disconnects (110 ∷ [])
    ∷ polls nodes []
    ∷ stops 1
    ∷ polls nodes []
    ∷ starts
    ∷ connects (111 ∷ [])
    ∷ []

run-new-IsCounted_example :
    IsCounted (run env history fresh)
    × ((stats (run env history fresh)).connections
        ≡ to_i32 (length (run env history fresh).connections % 2 ^ 32))
run-new-IsCounted_example =
    run-new-IsCounted env (116 ∷ []) (99 ∷ []) default_config net fresh history fresh_new

-- Two connections, of which one is reached.
abbrev busy : Consumer
busy = record fresh {
  connections = (110 ∷ [], 0) ∷ (111 ∷ [], 1) ∷ [];
  connection_count = pos 2;
  net = record { live = λ _. line 9; next = 2; dials = 2 };
}

abbrev left : Consumer
left = (disconnect_from_nsqd (110 ∷ []) busy).1

left_fine : (disconnect_from_nsqd (110 ∷ []) busy).0 ≡ ok tt
unfolding disconnect_from_nsqd bytes_eq
left_fine = refl

abbrev settings : Settings
settings = record {
  topic = 116 ∷ [];
  channel = 99 ∷ [];
  max_in_flight = pos 1;
  disabled = false;
  concurrent_handlers = 1;
}

-- The task of the first connection goes on with its loop.
abbrev looping : Session
looping = record {
  shared = record {
    world = record { flags = λ _. false; connections = left.net.live };
    finished = 0;
    requeued = 0;
    rdy = pos 1;
  };
  counters = λ k. pos 1;
  call = 1;
  received = 0;
  permits = 1;
  is_running = true;
  tasks = [];
  pending = none;
  result = none;
  fresh = 0;
  done = 0;
}

disconnect_reconnects_example :
    (lookup (110 ∷ []) left.connections ≡ none)
    × ((step no_json settings 0 looping tick).result ≡ some (err shut))
    × (retries shut ≡ true)
unfolding lookup bytes_eq
disconnect_reconnects_example =
    disconnect_reconnects no_json settings 0 (110 ∷ []) busy left looping refl refl
      (ap (λ r. (r, left)) left_fine) refl refl refl

sub_wire : to_bytes no_json (Command.subscribe (116 ∷ []) (99 ∷ [])) ≡ ok (bytes "SUB t c\n")
unfolding to_bytes bytes
sub_wire = refl

rdy_wire : to_bytes no_json (Command.ready 1) ≡ ok (bytes "RDY 1\n")
unfolding to_bytes bytes show_dec
rdy_wire = refl

-- nsqd refuses the subscription.
subscription-answered_example :
    subscription env 0 (116 ∷ []) (99 ∷ []) 1 (with_input (frame_on 1 (69 ∷ []) []) (line 4)) ≡ (
      refused (bytes "订阅时出错: " ++ from_utf8_lossy (69 ∷ [])),
      with_input [] (after_write (bytes "SUB t c\n") 3 (line 4)),
    )
subscription-answered_example =
    subscription-answered env 0 1 2 1 (116 ∷ []) (99 ∷ []) (bytes "SUB t c\n") (bytes "RDY 1\n")
      (69 ∷ []) [] (line 4) sub_wire rdy_wire refl (omega arith) (omega arith)
