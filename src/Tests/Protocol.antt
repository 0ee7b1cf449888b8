-- ===== src/Tests/Protocol.antt =====
-- src/protocol.rs at concrete inputs.
use nsq_async_rs.Base.{List, [], ◌∷◌, ◌++◌, ◌⊎◌, inl, ◌≡◌, refl, arith}
use nsq_async_rs.Base.Octets.{Bytes, be32}
use nsq_async_rs.Error.{ok, panic}
use nsq_async_rs.Protocol.Command.{IdentifyConfig, Command, to_bytes, total_size}
use nsq_async_rs.Protocol.Command.Reading.{IsField}
use nsq_async_rs.Protocol.RoundTrip.{IsFramed, to_bytes-IsFramed}
use nsq_async_rs.Protocol.Words.{write_command}
use nsq_async_rs.Protocol.Words.Bare.{to_bytes-write_command}
use nsq_async_rs.Base.Text.{bytes}
use nsq_async_rs.Base.Decimal.{show_dec}
use nsq_async_rs.Protocol.Message
use nsq_async_rs.Protocol.Frame.{Frame, read_frame, decode_frame, from_bytes}
use nsq_async_rs.Protocol.Frame.Decode.{
  message_wire, FrameDecodes, decode_frame-message_wire, decode_frame-FrameDecodes,
}
use nsq_async_rs.Protocol.Frame.Parse.{
  framed, FrameReads, MessageReads, read_frame-FrameReads, from_bytes-MessageReads,
}

abbrev pub no_json : IdentifyConfig → Bytes ⊎ Bytes
no_json _ = inl (123 ∷ 125 ∷ [])

-- "t1"
abbrev topic : Bytes
topic = 116 ∷ 49 ∷ []

topic-IsField : IsField topic
topic-IsField = record { no_space = omega arith; no_newline = omega arith }

-- A text with a newline, a space and a 0, and an empty one.
abbrev bodies : List Bytes
bodies = (10 ∷ 32 ∷ 0 ∷ []) ∷ [] ∷ []

to_bytes-IsFramed_example : IsFramed no_json (Command.mpublish topic bodies) (78 ∷ [])
to_bytes-IsFramed_example =
    to_bytes-IsFramed no_json (Command.mpublish topic bodies) (78 ∷ []) (
      topic-IsField,
      (omega arith, (omega arith, tt)),
      omega arith,
      unfold total_size in omega arith,
    )

to_bytes-write_command_example :
    to_bytes no_json (Command.requeue topic 1500)
    ≡ ok (write_command (bytes "REQ") (topic ∷ show_dec 1500 ∷ []))
to_bytes-write_command_example =
    to_bytes-write_command no_json (Command.requeue topic 1500) (bytes "REQ")
      (topic ∷ show_dec 1500 ∷ []) refl

-- "0123456789abcdef"
abbrev pub id : Bytes
id = 48 ∷ 49 ∷ 50 ∷ 51 ∷ 52 ∷ 53 ∷ 54 ∷ 55 ∷ 56 ∷ 57 ∷ 97 ∷ 98 ∷ 99 ∷ 100 ∷ 101 ∷ 102 ∷ []

decode_frame-message_wire_example :
    decode_frame 7 (be32 2 ++ message_wire 1700000000000000000 3 id (104 ∷ 105 ∷ []))
    ≡ ok (Frame.message (Message.new 7 id (104 ∷ 105 ∷ []) 1700000000000000000 3))
decode_frame-message_wire_example =
    decode_frame-message_wire 7 1700000000000000000 3 id (104 ∷ 105 ∷ []) (omega arith)
      (omega arith) (omega arith)

-- A message of 5 bytes, for which the client panics.
decode_frame-FrameDecodes_example :
    FrameDecodes 0 2 (1 ∷ 2 ∷ 3 ∷ 4 ∷ 5 ∷ []) (decode_frame 0 (be32 2 ++ (1 ∷ 2 ∷ 3 ∷ 4 ∷ 5 ∷ [])))
decode_frame-FrameDecodes_example =
    decode_frame-FrameDecodes 0 2 (1 ∷ 2 ∷ 3 ∷ 4 ∷ 5 ∷ []) (omega arith)

decode_frame_panics : decode_frame 0 (0 ∷ 0 ∷ 0 ∷ 2 ∷ 1 ∷ 2 ∷ 3 ∷ 4 ∷ 5 ∷ []) ≡ panic
unfolding decode_frame
decode_frame_panics = refl

read_frame-FrameReads_example :
    FrameReads 6 0 (79 ∷ 75 ∷ 1 ∷ []) (read_frame (framed 6 0 (79 ∷ 75 ∷ 1 ∷ [])))
read_frame-FrameReads_example =
    read_frame-FrameReads 6 0 (79 ∷ 75 ∷ 1 ∷ []) (omega arith) (omega arith)

-- A message without its fields, 18 bytes in all behind the type.
from_bytes-MessageReads_example :
    MessageReads 0 2 (1 ∷ 2 ∷ id) (from_bytes 0 (framed 22 2 (1 ∷ 2 ∷ id)))
from_bytes-MessageReads_example = from_bytes-MessageReads 0 22 2 (1 ∷ 2 ∷ id) (omega arith)
