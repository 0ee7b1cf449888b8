-- ===== src/Protocol/Frame/Parse.antt =====
-- `read_frame` and `Message::from_bytes`.
use nsq_async_rs.Base.{
  ℕ, zero, suc, ◌+◌, ◌-◌, ◌^◌, ◌≤◌, ◌<◌, ltb, if◌then◌else◌, List, [], ◌∷◌, ◌++◌, length, take,
  drop, length-append, ◌≡◌, ◌≢◌, length-drop, refl, arith, ◌⊎◌,
}
use nsq_async_rs.Base.Octets.{
  Bytes, from_be, be32, from_be-be32, length-be32, split_exact-append, split_exact,
}
use native.Mathlib.Nat.{zero-add, suc-add}
use nsq_async_rs.Base.Text.{bytes}
use nsq_async_rs.Base.Decimal.{show_dec}
use nsq_async_rs.Error.{Outcome, ok, err, panic, ◌>>=◌}
use nsq_async_rs.Protocol.Message.{Message}
use nsq_async_rs.Protocol.Message
use nsq_async_rs.Protocol.Frame.{
  FrameType, slice, frame_type_of, read_cursor, read_frame, decode_message, from_typed, from_bytes,
  protocol_other, short_read,
}
use nsq_async_rs.Protocol.Frame.Decode.{decode_message-Decodes}

read_cursor-be32 : (n : ℕ) (rest : Bytes) → read_cursor 4 (be32 n ++ rest) ≡ ok (be32 n, rest)
unfolding read_cursor
read_cursor-be32 n rest = ground (arith, split_exact-append (be32 n) rest, length-be32 n)

-- A frame as it lies in a buffer: its size, its type, its payload, and more.
abbrev pub framed : ℕ → ℕ → Bytes → Bytes
framed size t rest = be32 size ++ (be32 t ++ rest)

-- The constants `FRAME_TYPE_RESPONSE`, `FRAME_TYPE_ERROR` and `FRAME_TYPE_MESSAGE`, read back.
abbrev pub type_at : ℕ → FrameType
type_at zero = FrameType.response
type_at (suc zero) = FrameType.error
type_at _ = FrameType.message

-- What `read_frame` makes of a buffer, by the size and the type that it announces.
abbrev pub FrameReads : ℕ → ℕ → Bytes → Outcome (FrameType × Bytes) → Type 0
FrameReads size t rest r =
    ((length rest + 4 < size) × (r ≡ protocol_other (bytes "帧数据不完整")))
    ⊎ ((size ≤ length rest + 4) × (2 < t) × (r ≡ protocol_other (bytes "未知帧类型: " ++ show_dec t)))
    ⊎ ((size < 4) × (t ≤ 2) × (r ≡ panic))
    ⊎ ((4 ≤ size) × (size ≤ length rest + 4) × (t ≤ 2) × (r ≡ ok (type_at t, take (size - 4) rest)))

read_frame_step :
    (size t : ℕ) (rest : Bytes)
    → size < 2 ^ 32
    → t < 2 ^ 32
    → read_frame (framed size t rest) ≡ (
        if ltb (length rest + 8) (size + 4) then protocol_other (bytes "帧数据不完整") else do
          ft ← frame_type_of t
          payload ← slice 8 (size + 4) (framed size t rest)
          ok (ft, payload))
unfolding read_frame
read_frame_step size t rest hs ht = ground (
  arith,
  read_cursor-be32 size (be32 t ++ rest),
  read_cursor-be32 t rest,
  from_be-be32 size hs,
  from_be-be32 t ht,
  length-append (be32 size) (be32 t ++ rest),
  length-append (be32 t) rest,
  length-be32 size,
  length-be32 t,
)

slice_payload :
    (size t : ℕ) (rest : Bytes)
    → 4 ≤ size
    → size ≤ length rest + 4
    → slice 8 (size + 4) (framed size t rest) ≡ ok (take (size - 4) rest)
unfolding slice be32
slice_payload size t rest lo hi = ground arith

slice_backwards :
    (size t : ℕ) (rest : Bytes) → size < 4 → slice 8 (size + 4) (framed size t rest) ≡ panic
unfolding slice
slice_backwards size t rest h = ground arith

-- A buffer that holds less than the frame announces, and a type above 2, are refused; a size below 4
-- makes the slice run backwards, which panics; and otherwise the frame is read with its type and with
-- `size - 4` bytes of payload, whatever follows them.
pub read_frame-FrameReads :
    (size t : ℕ) (rest : Bytes)
    → size < 2 ^ 32
    → t < 2 ^ 32
    → FrameReads size t rest (read_frame (framed size t rest))
unfolding frame_type_of
read_frame-FrameReads size t rest hs ht = ground (
  arith,
  read_frame_step size t rest hs ht,
  slice_payload size t rest,
  slice_backwards size t rest,
)

-- What `Message::from_bytes` makes of a buffer whose first field, a size, it skips.
abbrev pub MessageReads : ℕ → ℕ → Bytes → Outcome Message → Type 0
MessageReads cell t rest r =
    ((length rest < 18) × (r ≡ protocol_other (bytes "消息大小不足")))
    ⊎ ((18 ≤ length rest) × (t ≢ 2) × (r ≡ protocol_other (bytes "无效的帧类型: " ++ show_dec t)))
    ⊎ ((18 ≤ length rest) × (length rest < 26) × (t ≡ 2) × (r ≡ err short_read))
    ⊎ ((26 ≤ length rest) × (t ≡ 2) × (r ≡ decode_message cell rest))

drop-drop {ℓ} : {A : Type ℓ} (m n : ℕ) (xs : List A) → drop n (drop m xs) ≡ drop (m + n) xs
drop-drop zero n xs = rw zero-add
drop-drop (suc m) zero [] = rw suc-add
drop-drop (suc m) (suc n) [] = rw suc-add
drop-drop (suc m) n (x ∷ xs) = rw suc-add (drop-drop m n xs)

from_typed_cases :
    (cell : ℕ) (d : Bytes)
    → from_typed cell 2 d ≡ (
        if ltb (length d) 26
        then err short_read
        else ok (
            Message.new cell
              (take 16 (drop 10 d))
              (drop 26 d)
              (from_be (take 8 d))
              (from_be (take 2 (drop 8 d)))))
unfolding from_typed read_cursor split_exact
from_typed_cases cell d =
    ground (arith, length-drop 8 d, length-drop 2 (drop 8 d), drop-drop 8 2 d, drop-drop 10 16 d)

skip_size : (n : ℕ) (rest : Bytes) → drop 4 (be32 n ++ rest) ≡ rest
unfolding be32
skip_size n rest = refl

-- `from_bytes` decodes exactly as `decode_message` does the bytes behind the type, where these are 26
-- at least; a buffer of 26 to 33 bytes passes its own length check and then fails as a short read,
-- and never panics.
pub from_bytes-MessageReads :
    (cell size t : ℕ) (rest : Bytes)
    → t < 2 ^ 32
    → MessageReads cell t rest (from_bytes cell (framed size t rest))
unfolding from_bytes
from_bytes-MessageReads cell size t rest ht = ground (
  arith,
  skip_size size (be32 t ++ rest),
  read_cursor-be32 t rest,
  from_be-be32 t ht,
  from_typed_cases cell rest,
  decode_message-Decodes cell rest,
  length-append (be32 size) (be32 t ++ rest),
  length-append (be32 t) rest,
  length-be32 size,
  length-be32 t,
)
