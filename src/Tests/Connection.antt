-- ===== src/Tests/Connection.antt =====
-- src/connection.rs at concrete inputs.
use nsq_async_rs.Base.{ℕ, ◌≡◌, none, List, [], ◌∷◌, ◌++◌, arith}
use nsq_async_rs.Base.Octets.{Bytes}
use nsq_async_rs.Error.{Error, ok, err, invalid_frame_type, ◌>>=◌}
use nsq_async_rs.Base.Int.{to_i32}
use nsq_async_rs.Protocol.Command.{Command, default_config}
use nsq_async_rs.Protocol.Command.Request.{Request}
use nsq_async_rs.Connection.{Connection, ends, stuck, read_frame}
use nsq_async_rs.Connection.Frames.{with_input, frame_on, read_frame-frame_on}
use nsq_async_rs.Connection.Agree.{frame_of, read_frame-agree}
use nsq_async_rs.Protocol.Frame.{read_frame as split_frame}
use nsq_async_rs.Connection.Sending.{send_all, Requests, AllAsk, send_all-Requests}
use nsq_async_rs.Tests.Protocol.{no_json, id}

-- A connection on which nothing has come in, and `room` writes go through.
abbrev pub line : ℕ → Connection
line room = record {
  addr = [];
  identify_config = default_config none [];
  auth_secret = none;
  read_timeout = 60000;
  write_timeout = 1000;
  input = [];
  read_end = ends;
  sent = [];
  write_room = room;
  write_cut = 0;
  write_end = stuck;
  shutdown_result = none;
}

-- "OK"
abbrev fine : Bytes
fine = 79 ∷ 75 ∷ []

-- A frame of the unknown type 3.
read_frame-frame_on_example :
    read_frame 0 (with_input (frame_on 3 fine []) (line 0))
    ≡ (err (Error.protocol (invalid_frame_type (to_i32 3))), with_input (fine ++ []) (line 0))
read_frame-frame_on_example = read_frame-frame_on 0 3 fine [] (line 0) (omega arith) (omega arith)

-- A message is acknowledged and two more are asked for.
abbrev script : List Command
script = Command.finish id ∷ Command.ready 2 ∷ []

send_all-Requests_example :
    (wire : Bytes) × (rs : List Request) × (send_all no_json script (line 5)
      ≡ (ok tt, record (line 5) { sent = [] ++ wire; write_room = 3 }))
    × Requests wire rs
    × AllAsk no_json script rs
send_all-Requests_example =
    send_all-Requests no_json script (line 5) 3
      (record { no_space = omega arith; no_newline = omega arith }, (tt, tt)) (omega arith)

-- A response of two bytes, with the next frame behind it.
read_frame-agree_example :
    read_frame 0 (with_input (frame_on 0 fine (frame_on 1 fine [])) (line 0)) ≡ (
      split_frame (frame_on 0 fine (frame_on 1 fine [])) >>= λ x. frame_of 0 x.0 x.1,
      with_input (frame_on 1 fine []) (line 0),
    )
read_frame-agree_example =
    read_frame-agree 0 0 fine (frame_on 1 fine []) (line 0) (omega arith) (omega arith)
