-- ===== src/Connection/Frames.antt =====
-- `read_frame` of src/connection.rs on the stream that a peer sends.
use nsq_async_rs.Base.{
  ℕ, ◌+◌, ◌-◌, ◌^◌, ◌≤◌, ◌<◌, ltb, leb, if◌then◌else◌, Bool, true, false, inl, inr, Bool-cases,
  some, ◌++◌, length, ◌≡◌, sym, ap, ◌∙◌, arith,
}
use nsq_async_rs.Base.Octets.{
  Bytes, be32, length-be32, from_be, from_be-be32, split_exact, split_exact-append,
}
use nsq_async_rs.Base.Int.{to_i32}
use nsq_async_rs.Error.{invalid_frame_type, Error, ok, err}
use nsq_async_rs.Protocol.Frame.{decode_frame}
use nsq_async_rs.Connection.{
  Connection, Act, fail, ◌>>=◌, continue, read_exact, read_typed, read_sized, read_frame,
}

-- The connection with other bytes still to be read.
abbrev pub with_input : Bytes → Connection → Connection
with_input bs c = record c { input = bs }

read_exact-some :
    (limited : Bool) (n : ℕ) (c : Connection) {bs rest : Bytes}
    → split_exact n c.input ≡ some (bs, rest)
    → read_exact limited n c ≡ (ok bs, with_input rest c)
unfolding read_exact
read_exact-some limited n c h = rw (h, read_exact)

-- Reading as many bytes as the front of the input has gives just these.
pub read_exact-append :
    (limited : Bool) (xs ys : Bytes) (c : Connection)
    → read_exact limited (length xs) (with_input (xs ++ ys) c) ≡ (ok xs, with_input ys c)
read_exact-append limited xs ys c =
    read_exact-some limited (length xs) (with_input (xs ++ ys) c) (split_exact-append xs ys)

pub read_exact-be32 :
    (limited : Bool) (n : ℕ) (ys : Bytes) (c : Connection)
    → read_exact limited 4 (with_input (be32 n ++ ys) c) ≡ (ok (be32 n), with_input ys c)
read_exact-be32 limited n ys c =
    ap (λ k. read_exact limited k (with_input (be32 n ++ ys) c)) (sym (length-be32 n))
    ∙ read_exact-append limited (be32 n) ys c

-- The first step of a chain that succeeds.
pub bind_ok {ℓ κ} :
    {A : Type ℓ} {B : Type κ} (m : Act A) (f : A → Act B) (c : Connection) {a : A} {c' : Connection}
    → m c ≡ (ok a, c')
    → (m >>= f) c ≡ f a c'
bind_ok m f c e = ap (λ x. continue x.0 f x.1) e

-- A frame on the stream: its size, its type and its payload, and what follows.
abbrev pub frame_on : ℕ → Bytes → Bytes → Bytes
frame_on t payload rest = be32 (4 + length payload) ++ (be32 t ++ (payload ++ rest))

read_payload :
    (cell t : ℕ) (payload rest : Bytes) (c : Connection)
    → t ≤ 2
    → read_typed cell (4 + length payload) (be32 t) (with_input (payload ++ rest) c)
      ≡ (decode_frame cell (be32 t ++ payload), with_input rest c)
read_payload cell t payload rest c h =
    typed (be32 t) (rw (from_be-be32 t (omega arith)) (ground arith)) payload
  where
    typed :
        (type_buf : Bytes)
        → leb (from_be type_buf) 2 ≡ true
        → (d : Bytes)
        → read_typed cell (4 + length d) type_buf (with_input (d ++ rest) c)
          ≡ (decode_frame cell (type_buf ++ d), with_input rest c)
    typed type_buf ok_type d =
        let e : (4 + length d) - 4 ≡ length d = omega arith in
        unfold read_typed in
        rw (ok_type, e)
          (bind_ok (read_exact true (length d)) (λ p. fail (decode_frame cell (type_buf ++ p)))
            (with_input (d ++ rest) c) (read_exact-append true d rest c))

read_unknown :
    (cell t size : ℕ) (rest : Bytes) (c : Connection)
    → t < 2 ^ 32
    → leb t 2 ≡ false
    → read_typed cell size (be32 t) (with_input rest c)
      ≡ (err (Error.protocol (invalid_frame_type (to_i32 t))), with_input rest c)
unfolding read_typed
read_unknown cell t size rest c ht e = rw (from_be-be32 t ht) (rw e)

-- The size and the type of a frame are read, and lead on to its payload.
read_frame-sized :
    (cell t size : ℕ) (rest : Bytes) (c : Connection)
    → size < 2 ^ 32
    → 4 ≤ size
    → read_frame cell (with_input (be32 size ++ (be32 t ++ rest)) c)
      ≡ read_typed cell size (be32 t) (with_input rest c)
unfolding read_frame read_sized
read_frame-sized cell t size rest c hs h =
    bind_ok (read_exact true 4) (λ size_buf. read_sized cell (from_be size_buf))
      (with_input (be32 size ++ (be32 t ++ rest)) c) (read_exact-be32 true size (be32 t ++ rest) c)
    ∙ rw (from_be-be32 size hs, big)
        (bind_ok (read_exact true 4) (λ type_buf. read_typed cell size type_buf)
          (with_input (be32 t ++ rest) c) (read_exact-be32 true t rest c))
  where
    big : ltb size 4 ≡ false
    big = ground arith

-- A frame of type 0, 1 or 2 is read whole: its bytes are decoded, and the stream goes on right behind
-- it. A frame of another type is refused with its number, and its payload stays in the stream, where
-- the next read takes it for a frame.
pub read_frame-frame_on :
    (cell t : ℕ) (payload rest : Bytes) (c : Connection)
    → t < 2 ^ 32
    → 4 + length payload < 2 ^ 32
    → read_frame cell (with_input (frame_on t payload rest) c) ≡ (
        if leb t 2
        then (decode_frame cell (be32 t ++ payload), with_input rest c)
        else (err (Error.protocol (invalid_frame_type (to_i32 t))), with_input (payload ++ rest) c))
read_frame-frame_on cell t payload rest c ht hs =
    read_frame-sized cell t (4 + length payload) (payload ++ rest) c hs (omega arith)
    ∙ elim (Bool-cases (leb t 2)) [
      | inl known ↦ rw known (read_payload cell t payload rest c (ground arith))
      | inr other_type ↦
          rw other_type (read_unknown cell t (4 + length payload) (payload ++ rest) c ht other_type)
    ]
