-- ===== src/Protocol/Frame/Decode.antt =====
-- `decode_message` and `decode_frame` on every length of input.
use nsq_async_rs.Base.{
  ℕ, zero, suc, length-drop, ◌-◌, ◌^◌, ◌≤◌, ◌<◌, List, [], ◌∷◌, ◌++◌, length, take, drop,
  length-append, take-length_append, drop-length_append, ◌≡◌, refl, ap, ◌∙◌, sym, arith, ◌⊎◌,
}
use nsq_async_rs.Base.Octets.{
  Bytes, from_be, length-be32, be16, be32, be64, from_be-be16, from_be-be32, from_be-be64,
}
use nsq_async_rs.Base.Int.{to_i32}
use nsq_async_rs.Error.{invalid_frame_size, invalid_frame_type, Error, Outcome, ok, err, panic}
use nsq_async_rs.Protocol.Message.{Message}
use nsq_async_rs.Protocol.Message
use nsq_async_rs.Protocol.Frame.{Frame, slice, decode_message, decode_typed, decode_frame}

-- A message with all of its fields, as the protocol lays them out.
unfoldable pub message_wire : ℕ → ℕ → Bytes → Bytes → Bytes
message_wire timestamp attempts id body = be64 timestamp ++ (be16 attempts ++ (id ++ body))

-- What `decode_message` does with an input, by its length alone.
abbrev pub Decodes : ℕ → Bytes → Outcome Message → Type 0
Decodes cell d r =
    ((length d < 4) × (r ≡ err (Error.protocol invalid_frame_size)))
    ⊎ ((4 ≤ length d) × (length d < 26) × (r ≡ panic))
    ⊎ ((26 ≤ length d)
        × (r
            ≡ ok (
                Message.new cell (take 16 (drop 10 d)) (drop 26 d) (from_be (take 8 d))
                  (from_be (take 2 (drop 8 d))))))

take_all {ℓ} : {A : Type ℓ} (n : ℕ) (xs : List A) → length xs ≤ n → take n xs ≡ xs
take_all zero [] h = refl
take_all (suc n) [] h = refl
take_all zero (x ∷ xs) h = absurd (omega arith)
take_all (suc n) (x ∷ xs) h = ap (◌∷◌ x) (take_all n xs (omega arith))

pub decode_message-Decodes : (cell : ℕ) (d : Bytes) → Decodes cell d (decode_message cell d)
unfolding decode_message
decode_message-Decodes cell d =
    ground (arith, take_all (length d - 26) (drop 26 d), length-drop 26 d)

slice_prefix : (xs ys : Bytes) → slice 0 (length xs) (xs ++ ys) ≡ ok xs
unfolding slice
slice_prefix xs ys = ground (arith, length-append xs ys, take-length_append xs ys)

slice_suffix : (xs ys : Bytes) → slice (length xs) (length (xs ++ ys)) (xs ++ ys) ≡ ok ys
unfolding slice
slice_suffix xs ys = ground (
  arith,
  length-append xs ys,
  drop-length_append xs ys,
  take_all (length (xs ++ ys) - length xs) ys,
)

-- The type of a frame is read whole, and the payload is all that follows it.
decode_frame-be32 :
    (cell t : ℕ) (payload : Bytes)
    → t < 2 ^ 32
    → decode_frame cell (be32 t ++ payload) ≡ decode_typed cell (to_i32 t) payload
unfolding decode_frame
decode_frame-be32 cell t payload h = ground (
  arith,
  slice_prefix (be32 t) payload,
  slice_suffix (be32 t) payload,
  from_be-be32 t h,
  length-append (be32 t) payload,
  length-be32 t,
)

module _ (timestamp attempts : ℕ) (id body : Bytes) (hi : length id ≡ 16) where
  abbrev wire : Bytes
  wire = message_wire timestamp attempts id body

  id_of_wire : take 16 (drop 10 wire) ≡ id
  unfolding message_wire be64 be32 be16
  id_of_wire = rw (← hi) (take-length_append id body)

  body_of_wire : drop 26 wire ≡ body
  unfolding message_wire be64 be32 be16
  body_of_wire = rw e (drop-length_append id body)
    where
      e : ◌≡◌ {A = Bytes} (drop 16 (id ++ body)) (drop (length id) (id ++ body))
      e = ap (λ n. drop n (id ++ body)) (sym hi)

  length-wire : 26 ≤ length wire
  unfolding message_wire be64 be32 be16
  length-wire = omega (arith, length-append id body)

  timestamp_of_wire : take 8 wire ≡ be64 timestamp
  unfolding message_wire be64 be32 be16
  timestamp_of_wire = refl

  attempts_of_wire : take 2 (drop 8 wire) ≡ be16 attempts
  unfolding message_wire be64 be32 be16
  attempts_of_wire = refl

  decode_message-message_wire :
      (cell : ℕ)
      → timestamp < 2 ^ 64
      → attempts < 2 ^ 16
      → decode_message cell wire ≡ ok (Message.new cell id body timestamp attempts)
  decode_message-message_wire cell ht ha = ground (
    arith,
    decode_message-Decodes cell wire,
    id_of_wire,
    body_of_wire,
    length-wire,
    timestamp_of_wire,
    attempts_of_wire,
    from_be-be64 timestamp ht,
    from_be-be16 attempts ha,
  )

-- A message that a server sends, with a 64-bit timestamp, a 16-bit count of attempts, an id of 16
-- bytes and any body, is decoded from its frame with just these fields, without a connection and with its automatic
-- response on.
pub decode_frame-message_wire :
    (cell timestamp attempts : ℕ) (id body : Bytes)
    → timestamp < 2 ^ 64
    → attempts < 2 ^ 16
    → length id ≡ 16
    → decode_frame cell (be32 2 ++ message_wire timestamp attempts id body)
      ≡ ok (Frame.message (Message.new cell id body timestamp attempts))
decode_frame-message_wire cell timestamp attempts id body ht ha hi =
    decode_frame-be32 cell 2 (message_wire timestamp attempts id body) (omega arith)
    ∙ unfold decode_typed in
      rw (decode_message-message_wire timestamp attempts id body hi cell ht ha)

-- What `decode_frame` makes of a frame of each type and payload.
abbrev pub FrameDecodes : ℕ → ℕ → Bytes → Outcome Frame → Type 0
FrameDecodes cell t d r =
    ((t ≡ 0) × (r ≡ ok (Frame.response d)))
    ⊎ ((t ≡ 1) × (r ≡ ok (Frame.error d)))
    ⊎ ((t ≡ 2) × (length d < 4) × (r ≡ err (Error.protocol invalid_frame_size)))
    ⊎ ((t ≡ 2) × (4 ≤ length d) × (length d < 26) × (r ≡ panic))
    ⊎ ((t ≡ 2)
        × (26 ≤ length d)
        × (r
            ≡ ok (
                Frame.message (
                  Message.new cell (take 16 (drop 10 d)) (drop 26 d) (from_be (take 8 d))
                    (from_be (take 2 (drop 8 d)))))))
    ⊎ ((2 < t) × (r ≡ err (Error.protocol (invalid_frame_type (to_i32 t)))))

-- A frame is decoded by its type: a response or an error as its payload; a message from 26 bytes of
-- payload on, while fewer than 4 are refused and 4 to 25 make the slices of `decode_message` panic;
-- any other type is refused with the signed number that its four bytes stand for.
pub decode_frame-FrameDecodes :
    (cell t : ℕ) (d : Bytes) → t < 2 ^ 32 → FrameDecodes cell t d (decode_frame cell (be32 t ++ d))
unfolding decode_typed
decode_frame-FrameDecodes cell t d h =
    ground (arith, decode_frame-be32 cell t d h, decode_message-Decodes cell d)
