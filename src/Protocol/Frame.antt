-- ===== src/Protocol/Frame.antt =====
-- The frames of src/protocol.rs: `FrameType`, `read_frame`, `decode_message`, `decode_frame` and
-- `Message::from_bytes`. A slice out of range is a panic.
pub mod Decode
pub mod Parse
use nsq_async_rs.Base.{
  ℕ, ◌+◌, ◌-◌, ltb, leb, ◌==◌, if◌then◌else◌, Bool, ◌&&◌, Option, none, some, List, [], ◌∷◌, ◌++◌,
  length, take, drop, ◌≡◌, refl,
}
use nsq_async_rs.Base.Octets.{Bytes, from_be, split_exact}
use nsq_async_rs.Base.Int.{ℤ, pos, negsuc, to_i32}
use nsq_async_rs.Base.Text.{bytes}
use nsq_async_rs.Base.Decimal.{show_dec}
use nsq_async_rs.Error.{
  IoError, IoKind, unexpected_eof, ProtocolError, invalid_frame_size, invalid_frame_type, Error,
  Outcome, ok, err, panic, ◌>>=◌,
}
use nsq_async_rs.Protocol.Message.{Message}
use nsq_async_rs.Protocol.Message

pub data FrameType : Type 0 where
  response error message : FrameType

pub data Frame : Type 0 where
  response : Bytes → Frame
  error : Bytes → Frame
  message : Message → Frame

-- `&data[lo..hi]`
unfoldable pub slice : ℕ → ℕ → Bytes → Outcome Bytes
slice lo hi d = if leb lo hi && leb hi (length d) then ok (take (hi - lo) (drop lo d)) else panic

-- `Err(Error::Protocol(ProtocolError::Other(..)))`
abbrev pub protocol_other {ℓ} : {A : Type ℓ} → Bytes → Outcome A
protocol_other s = err (Error.protocol (ProtocolError.other s))

-- The error of `read_exact` on a `Cursor` that holds too little.
unfoldable pub short_read : Error
unfolding bytes
short_read =
    Error.io (record { kind = unexpected_eof; message = bytes "failed to fill whole buffer" })

-- Reading `n` bytes of a `Cursor`: them, and the bytes from the new position on.
unfoldable pub read_cursor : ℕ → Bytes → Outcome (Bytes × Bytes)
unfolding split_exact
read_cursor n d = elim (split_exact n d) [ none ↦ err short_read | some p ↦ ok p ]

-- `FrameType::try_from`
unfoldable pub frame_type_of : ℕ → Outcome FrameType
unfolding bytes show_dec
frame_type_of v =
    if v == 0
    then ok FrameType.response
    else if v == 1
    then ok FrameType.error
    else if v == 2
    then ok FrameType.message
    else protocol_other (bytes "未知帧类型: " ++ show_dec v)

-- `read_frame`
unfoldable pub read_frame : Bytes → Outcome (FrameType × Bytes)
unfolding bytes slice read_cursor frame_type_of from_be
read_frame d = if ltb (length d) 8 then protocol_other (bytes "帧数据不完整") else do
  (size_bytes, rest) ← read_cursor 4 d
  let size = from_be size_bytes
  if ltb (length d) (size + 4) then protocol_other (bytes "帧数据不完整") else do
    (type_bytes, _) ← read_cursor 4 rest
    frame_type ← frame_type_of (from_be type_bytes)
    payload ← slice 8 (size + 4) d
    ok (frame_type, payload)

-- `Protocol::decode_message`; `cell` is the address of the new `responded` flag.
unfoldable pub decode_message : ℕ → Bytes → Outcome Message
unfolding slice from_be
decode_message cell d = if ltb (length d) 4 then err (Error.protocol invalid_frame_size) else do
  timestamp ← slice 0 8 d
  attempts ← slice 8 10 d
  id ← slice 10 26 d
  body ← slice 26 (length d) d
  ok (Message.new cell id body (from_be timestamp) (from_be attempts))

-- The `match` of `Protocol::decode_frame` on the frame type.
unfoldable pub decode_typed : ℕ → ℤ → Bytes → Outcome Frame
unfolding decode_message
decode_typed cell (pos n) d =
    if n == 0
    then ok (Frame.response d)
    else if n == 1
    then ok (Frame.error d)
    else if n == 2
    then (do m ← decode_message cell d; ok (Frame.message m))
    else err (Error.protocol (invalid_frame_type (pos n)))
decode_typed cell (negsuc n) d = err (Error.protocol (invalid_frame_type (negsuc n)))

-- `Protocol::decode_frame`
unfoldable pub decode_frame : ℕ → Bytes → Outcome Frame
unfolding slice decode_typed from_be
decode_frame cell d = if ltb (length d) 4 then err (Error.protocol invalid_frame_size) else do
  type_bytes ← slice 0 4 d
  payload ← slice 4 (length d) d
  decode_typed cell (to_i32 (from_be type_bytes)) payload

-- `Message::from_bytes` behind the frame type.
unfoldable pub from_typed : ℕ → ℕ → Bytes → Outcome Message
unfolding bytes show_dec read_cursor from_be
from_typed cell frame_type d =
    if frame_type == 2
    then (do
      (timestamp, d') ← read_cursor 8 d
      (attempts, d'') ← read_cursor 2 d'
      (id, body) ← read_cursor 16 d''
      ok (Message.new cell id body (from_be timestamp) (from_be attempts)))
    else protocol_other (bytes "无效的帧类型: " ++ show_dec frame_type)

-- `Message::from_bytes`
unfoldable pub from_bytes : ℕ → Bytes → Outcome Message
unfolding bytes read_cursor from_be from_typed
from_bytes cell d =
    if ltb (length d) 26
    then protocol_other (bytes "消息大小不足")
    else do (type_bytes, rest) ← read_cursor 4 (drop 4 d); from_typed cell (from_be type_bytes) rest
