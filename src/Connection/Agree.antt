-- ===== src/Connection/Agree.antt =====
-- The reader of frames in a stream and the one in a buffer.
use nsq_async_rs.Base.{
  ℕ, zero, suc, ◌+◌, ◌-◌, ◌^◌, ◌≤◌, ◌<◌, leb, true, ◌++◌, length, take, take-length_append,
  length-append, some, ◌≡◌, sym, ap, ◌∙◌, arith,
}
use nsq_async_rs.Base.Octets.{Bytes, be32}
use nsq_async_rs.Error.{Outcome, ok, ◌>>=◌}
use nsq_async_rs.Protocol.Message.{Message}
use nsq_async_rs.Protocol.Message
use nsq_async_rs.Protocol.Frame.{
  FrameType, Frame, decode_message, decode_frame, read_frame as split_frame,
}
use nsq_async_rs.Protocol.Frame.Decode.{
  message_wire, decode_frame-FrameDecodes, decode_message-Decodes, decode_frame-message_wire,
}
use nsq_async_rs.Protocol.Frame.Parse.{type_at, read_frame-FrameReads}
use nsq_async_rs.Connection.{Connection, read_frame, read_message, pure, only_message}
use nsq_async_rs.Connection.Frames.{with_input, frame_on, read_frame-frame_on, bind_ok}

-- The frame that a type and a payload stand for.
abbrev pub frame_of : ℕ → FrameType → Bytes → Outcome Frame
frame_of cell FrameType.response d = ok (Frame.response d)
frame_of cell FrameType.error d = ok (Frame.error d)
frame_of cell FrameType.message d = decode_message cell d >>= λ m. ok (Frame.message m)

plus_four : (n : ℕ) → (4 + n) - 4 ≡ n
plus_four n = omega arith

buffer_reads :
    (t : ℕ) (payload rest : Bytes)
    → t ≤ 2
    → 4 + length payload < 2 ^ 32
    → split_frame (frame_on t payload rest) ≡ ok (type_at t, payload)
buffer_reads t payload rest h fits = ground (
  arith,
  read_frame-FrameReads (4 + length payload) t (payload ++ rest),
  length-append payload rest,
  taken,
)
  where
    taken : take ((4 + length payload) - 4) (payload ++ rest) ≡ payload
    taken =
        ap (λ n. take n (payload ++ rest)) (plus_four (length payload))
        ∙ take-length_append payload rest

decode-frame_of :
    (cell t : ℕ) (d : Bytes) → t ≤ 2 → decode_frame cell (be32 t ++ d) ≡ frame_of cell (type_at t) d
decode-frame_of cell zero d h = ground (arith, decode_frame-FrameDecodes cell 0 d)
decode-frame_of cell (suc zero) d h = ground (arith, decode_frame-FrameDecodes cell 1 d)
decode-frame_of cell (suc (suc zero)) d h =
    ground (arith, decode_frame-FrameDecodes cell 2 d, decode_message-Decodes cell d)
decode-frame_of cell (suc (suc (suc t))) d h = absurd (omega arith)

-- A frame of type 0 to 2 is the same in a stream and in a buffer: `read_frame` of the protocol splits the
-- buffer into the type and the payload, and `read_frame` of the connection gives the frame, or the
-- panic, that this type and this payload stand for, and leaves what follows.
pub read_frame-agree :
    (cell t : ℕ) (payload rest : Bytes) (c : Connection)
    → t ≤ 2
    → 4 + length payload < 2 ^ 32
    → read_frame cell (with_input (frame_on t payload rest) c)
      ≡ (split_frame (frame_on t payload rest) >>= λ x. frame_of cell x.0 x.1, with_input rest c)
read_frame-agree cell t payload rest c h fits =
    read_frame-frame_on cell t payload rest c (omega arith) fits
    ∙ rw known (
        ap (λ r. (r, with_input rest c))
          (decode-frame_of cell t payload h
            ∙ sym
                (ap (λ o. o >>= λ x. frame_of cell x.0 x.1) (buffer_reads t payload rest h fits))))
  where
    known : leb t 2 ≡ true
    known = ground arith

-- A message on the stream is what `read_message` gives, with all of its fields.
pub read_message-message_wire :
    (cell timestamp attempts : ℕ) (id body rest : Bytes) (c : Connection)
    → timestamp < 2 ^ 64
    → attempts < 2 ^ 16
    → length id ≡ 16
    → 4 + length (message_wire timestamp attempts id body) < 2 ^ 32
    → read_message cell (with_input (frame_on 2 (message_wire timestamp attempts id body) rest) c)
      ≡ (ok (some (Message.new cell id body timestamp attempts)), with_input rest c)
unfolding read_message
read_message-message_wire cell timestamp attempts id body rest c ht ha hi fits =
    bind_ok (read_frame cell) (λ frame. pure (only_message frame))
      (with_input (frame_on 2 (message_wire timestamp attempts id body) rest) c)
      (read_frame-frame_on cell 2 (message_wire timestamp attempts id body) rest c (omega arith)
          fits
        ∙ ap (λ r. (r, with_input rest c))
            (decode_frame-message_wire cell timestamp attempts id body ht ha hi))
