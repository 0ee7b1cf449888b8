-- ===== src/Tests/Producer.antt =====
-- src/producer.rs at concrete inputs.
use nsq_async_rs.Base.{◌⊎◌, inl, none, some, [], ◌∷◌, ◌≡◌, refl, ap, arith}
use nsq_async_rs.Base.Octets.{Bytes, be32}
use nsq_async_rs.Error.{ok}
use nsq_async_rs.Base.Octets.{split_exact, from_be}
use nsq_async_rs.Base.Text.{bytes}
use nsq_async_rs.Base.Assoc.{lookup}
use nsq_async_rs.Protocol.Command.{to_bytes}
use nsq_async_rs.Protocol.Frame.{decode_frame, decode_typed, slice}
use nsq_async_rs.Connection.{
  initialize, introduce, authenticate, read_reply, reply_sized, reply_typed, sub_four, read_exact,
  write_all, write_bytes, read_frame, read_sized, read_typed,
}
use nsq_async_rs.Network.{connect_with_retry, dial, connect_error, around, unwrap_or_default}
use nsq_async_rs.Network
use nsq_async_rs.Connection.Frames.{with_input, frame_on}
use nsq_async_rs.Connection.Setup.{after_write}
use nsq_async_rs.Network.{Env, Net}
use nsq_async_rs.Producer.{
  ProducerConfig, default_config, Producer, new, get_publish_connection, choose,
  get_or_create_connection, create, send_wire, judge, publish, attempt, set_conn,
}
use nsq_async_rs.Producer.Publishing.{
  Publication, one, delayed, many, publishes, Confirmed, publishes_ok,
}
use nsq_async_rs.Producer.Verdict.{attempt-verdict}
use nsq_async_rs.Producer.Cache.Entries.{IsCache}
use nsq_async_rs.Producer.Cache.{publishing, pinging, run, run-new-IsCache}
use nsq_async_rs.Network.Backoff.{Attempt}
use nsq_async_rs.Tests.Connection.{line}
use nsq_async_rs.Tests.Network.{env, net, okay, twice_promised}

-- "t"
abbrev topic : Bytes
topic = 116 ∷ []

-- One nsqd, with the address "n".
abbrev pub config : ProducerConfig
config = record default_config { nsqd_addresses = (110 ∷ []) ∷ [] }

abbrev message : Publication
message = one (10 ∷ 32 ∷ [])

published : (publishes env 0 topic message (new config net)).0 ≡ ok tt
unfolding publish attempt get_publish_connection choose get_or_create_connection lookup create
    Network.new connect_with_retry dial connect_error around unwrap_or_default initialize introduce
    authenticate read_reply reply_sized reply_typed sub_four read_exact split_exact from_be
    write_all write_bytes to_bytes bytes be32 read_frame read_sized read_typed decode_frame
    decode_typed slice send_wire judge
published = refl

abbrev afterwards : Producer
afterwards = (publishes env 0 topic message (new config net)).1

publishes_ok_example :
    ((message ≡ many []) × (afterwards ≡ new config net)) ⊎ Confirmed env 0 topic message afterwards
publishes_ok_example =
    publishes_ok env 0 60000 topic message (new config net) afterwards twice_promised refl
      (ap (λ r. (r, afterwards)) published)

-- Two publications, a ping of another address that fails to be answered, and an empty batch.
run-new-IsCache_example : IsCache (
    run env
      (publishing 0 topic message
        ∷ publishing 1 topic (delayed [] 4294967297)
        ∷ pinging (some (112 ∷ [])) none
        ∷ publishing 2 topic (many [])
        ∷ [])
      (new config net))
run-new-IsCache_example =
    run-new-IsCache env config net
      (publishing 0 topic message
        ∷ publishing 1 topic (delayed [] 4294967297)
        ∷ pinging (some (112 ∷ [])) none
        ∷ publishing 2 topic (many [])
        ∷ [])
      twice_promised (60000, refl)

-- Behind the handshake nsqd sends a heartbeat before it answers.
abbrev beating : Env
beating = record env {
  tcp = λ _ _. inl (
      with_input (frame_on 0 okay (frame_on 0 (bytes "_heartbeat_") (frame_on 1 okay [])))
        (line 9));
}

abbrev opened : Producer
opened = (get_publish_connection beating topic (new config net)).1

opened_ready :
    ((get_publish_connection beating topic (new config net)).0 ≡ ok 0)
    × (opened.net.live 0
        ≡ with_input (frame_on 0 (bytes "_heartbeat_") (frame_on 1 okay [])) (opened.net.live 0))
    × ((opened.net.live 0).write_room ≡ 7)
unfolding get_publish_connection choose get_or_create_connection lookup create Network.new
    connect_with_retry dial connect_error around unwrap_or_default initialize introduce authenticate
    read_reply reply_sized reply_typed sub_four read_exact split_exact from_be write_all write_bytes
    to_bytes bytes be32
opened_ready = (refl, refl, refl)

attempt-verdict_example : attempt beating 0 topic (80 ∷ []) (new config net) ≡ (
  Attempt.ok tt,
  set_conn 0 (with_input (frame_on 1 okay []) (after_write (80 ∷ []) 6 (opened.net.live 0))) opened,
)
attempt-verdict_example =
    attempt-verdict beating 0 0 0 6 topic (80 ∷ []) (bytes "_heartbeat_") (frame_on 1 okay [])
      (new config net) opened (opened.net.live 0) (ap (λ r. (r, opened)) opened_ready.0)
      opened_ready.1 opened_ready.2 (omega arith) (unfold bytes in omega arith)
