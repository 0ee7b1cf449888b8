-- ===== src/Connection/Setup.antt =====
-- `initialize` of src/connection.rs: the handshake with nsqd.
use nsq_async_rs.Base.{
  ℕ, suc, ◌+◌, ◌-◌, ◌^◌, ◌<◌, ltb, ◌==◌, Bool, true, false, ◌⊎◌, Option, none, some, ◌++◌, length,
  ◌≡◌, refl, ap, ◌∙◌, arith,
}
use nsq_async_rs.Base.Octets.{Bytes, be32, from_be, from_be-be32}
use nsq_async_rs.Base.Text.{bytes}
use nsq_async_rs.Error.{Error, ok, err, panic}
use nsq_async_rs.Protocol.Command.{IdentifyConfig, Command, to_bytes}
use nsq_async_rs.Connection.{
  Connection, pure, fail, ◌>>=◌, ◌>>◌, read_exact, sub_four, reply_typed, reply_sized, read_reply,
  write_all, auth_refusal, identify_refusal, authenticate, introduce, initialize,
}
use nsq_async_rs.Connection.Frames.{
  with_input, frame_on, read_exact-append, read_exact-be32, bind_ok,
}

-- What a response announces decides what becomes of it: a size of 0 is refused, so is a type other
-- than 0, and otherwise a size of 1 to 3 makes `size - 4` panic.
module _ (refuse : Option ℕ → Error) where
  reply_head :
      (size t : ℕ) (rest : Bytes) (c : Connection)
      → size < 2 ^ 32
      → t < 2 ^ 32
      → 0 < size
      → read_reply refuse (with_input (be32 size ++ (be32 t ++ rest)) c)
        ≡ reply_typed refuse size t (with_input rest c)
  unfolding read_reply reply_sized
  reply_head size t rest c hs ht positive =
      bind_ok (read_exact false 4) (λ b. reply_sized refuse (from_be b))
        (with_input (be32 size ++ (be32 t ++ rest)) c)
        (read_exact-be32 false size (be32 t ++ rest) c)
      ∙ rw (from_be-be32 size hs, some_size)
          (bind_ok (read_exact false 4) (λ b. reply_typed refuse size (from_be b))
              (with_input (be32 t ++ rest) c) (read_exact-be32 false t rest c)
            ∙ ap (λ n. reply_typed refuse size n (with_input rest c)) (from_be-be32 t ht))
    where
      some_size : (size == 0) ≡ false
      some_size = ground arith

  -- A response of type 0 is read whole, and the stream goes on right behind it.
  read_reply-frame_on :
      (payload rest : Bytes) (c : Connection)
      → 4 + length payload < 2 ^ 32
      → read_reply refuse (with_input (frame_on 0 payload rest) c) ≡ (ok tt, with_input rest c)
  unfolding reply_typed sub_four
  read_reply-frame_on payload rest c h =
      reply_head (4 + length payload) 0 (payload ++ rest) c h (omega arith) (omega arith)
      ∙ rw (enough, four)
          (bind_ok (read_exact false (length payload)) (λ _. pure tt)
            (with_input (payload ++ rest) c) (read_exact-append false payload rest c))
    where
      enough : ltb (4 + length payload) 4 ≡ false
      enough = ground arith

      four : (4 + length payload) - 4 ≡ length payload
      four = omega arith

  -- A response of type 0 and a size of 1 to 3 makes the client panic, with either request.
  read_reply_short :
      (size : ℕ) (rest : Bytes) (c : Connection)
      → 0 < size
      → size < 4
      → (read_reply refuse (with_input (be32 size ++ (be32 0 ++ rest)) c)).0 ≡ panic
  unfolding reply_typed sub_four
  read_reply_short size rest c lo hi =
      ap (λ x. x.0) (reply_head size 0 rest c (omega arith) (omega arith) lo) ∙ rw short
    where
      short : ltb size 4 ≡ true
      short = ground arith

  read_reply_refused :
      (size t : ℕ) (rest : Bytes) (c : Connection)
      → size < 2 ^ 32
      → 0 < size
      → t < 2 ^ 32
      → 0 < t
      → read_reply refuse (with_input (be32 size ++ (be32 t ++ rest)) c)
        ≡ (err (refuse (some t)), with_input rest c)
  unfolding reply_typed
  read_reply_refused size t rest c hs ps ht pt = reply_head size t rest c hs ht ps ∙ rw other
    where
      other : (t == 0) ≡ false
      other = ground arith

-- A write that goes through.
abbrev pub after_write : Bytes → ℕ → Connection → Connection
after_write bs room c = record c { sent = c.sent ++ bs; write_room = room }

pub write_all_room :
    (limited : Bool) (bs : Bytes) (c : Connection) (room : ℕ)
    → c.write_room ≡ suc room
    → write_all limited bs c ≡ (ok tt, after_write bs room c)
unfolding write_all
write_all_room limited bs c room e = rw (e, write_all)

module _ (to_json : IdentifyConfig → Bytes ⊎ Bytes) where
  -- A request is sent, and its response is a frame of type 0.
  request_reply :
      (refuse : Option ℕ → Error) (cmd : Command) (wire payload rest : Bytes) (room : ℕ)
      (c : Connection)
      → c.write_room ≡ suc room
      → to_bytes to_json cmd ≡ ok wire
      → 4 + length payload < 2 ^ 32
      → (fail (to_bytes to_json cmd) >>= λ bs. write_all false bs >> read_reply refuse)
          (with_input (frame_on 0 payload rest) c)
        ≡ (ok tt, with_input rest (after_write wire room c))
  request_reply refuse cmd wire payload rest room c w e h =
      bind_ok (fail (to_bytes to_json cmd)) (λ bs. write_all false bs >> read_reply refuse)
        (with_input (frame_on 0 payload rest) c)
        (ap (λ r. (r, with_input (frame_on 0 payload rest) c)) e)
      ∙ bind_ok (write_all false wire) (λ _. read_reply refuse)
          (with_input (frame_on 0 payload rest) c)
          (write_all_room false wire (with_input (frame_on 0 payload rest) c) room w)
      ∙ read_reply-frame_on refuse payload rest (after_write wire room c) h

  introduced :
      (c : Connection) (wire payload rest : Bytes) (room : ℕ)
      → c.write_room ≡ suc (suc room)
      → to_bytes to_json (Command.identify c.identify_config) ≡ ok wire
      → 4 + length payload < 2 ^ 32
      → initialize to_json (with_input (frame_on 0 payload rest) c)
        ≡ authenticate to_json c.auth_secret
            (with_input rest (after_write wire room (after_write (bytes "  V2") (suc room) c)))
  unfolding initialize
  introduced c wire payload rest room w e h =
      bind_ok (write_all false (bytes "  V2"))
        (λ _. introduce to_json c.identify_config >> authenticate to_json c.auth_secret)
        (with_input (frame_on 0 payload rest) c)
        (write_all_room false (bytes "  V2") (with_input (frame_on 0 payload rest) c) (suc room) w)
      ∙ bind_ok (introduce to_json c.identify_config) (λ _. authenticate to_json c.auth_secret)
          (with_input (frame_on 0 payload rest) (after_write (bytes "  V2") (suc room) c))
          (unfold introduce in
            request_reply identify_refusal (Command.identify c.identify_config) wire payload rest
              room (after_write (bytes "  V2") (suc room) c) refl e h)

  -- Without a secret, a handshake whose first response is a frame of type 0 succeeds: nsqd is sent the
  -- magic and IDENTIFY and nothing else, and the stream is left right behind the response.
  pub initialize_anonymous :
      (c : Connection) (wire payload rest : Bytes) (room : ℕ)
      → c.auth_secret ≡ none
      → c.write_room ≡ suc (suc room)
      → to_bytes to_json (Command.identify c.identify_config) ≡ ok wire
      → 4 + length payload < 2 ^ 32
      → initialize to_json (with_input (frame_on 0 payload rest) c) ≡ (
        ok tt,
        record c { input = rest; sent = (c.sent ++ bytes "  V2") ++ wire; write_room = room },
      )
  initialize_anonymous c wire payload rest room s w e h =
      introduced c wire payload rest room w e h ∙ rw s (unfold authenticate in refl)

  -- With a secret, the client also sends AUTH, after the first response and before it waits for the
  -- second, and reads both responses whole.
  initialize_secret :
      (c : Connection) (secret wire auth_wire payload payload' rest : Bytes) (room : ℕ)
      → c.auth_secret ≡ some secret
      → c.write_room ≡ suc (suc (suc room))
      → to_bytes to_json (Command.identify c.identify_config) ≡ ok wire
      → to_bytes to_json (Command.auth (some secret)) ≡ ok auth_wire
      → 4 + length payload < 2 ^ 32
      → 4 + length payload' < 2 ^ 32
      → initialize to_json (with_input (frame_on 0 payload (frame_on 0 payload' rest)) c) ≡ (
        ok tt,
        record c {
          input = rest;
          sent = ((c.sent ++ bytes "  V2") ++ wire) ++ auth_wire;
          write_room = room;
        },
      )
  initialize_secret c secret wire auth_wire payload payload' rest room s w e e' h h' =
      introduced c wire payload (frame_on 0 payload' rest) (suc room) w e h
      ∙ ap
          (λ o. authenticate to_json o (
            with_input (frame_on 0 payload' rest)
              (after_write wire (suc room) (after_write (bytes "  V2") (suc (suc room)) c))))
          s
      ∙ (unfold authenticate in
          request_reply auth_refusal (Command.auth (some secret)) auth_wire payload' rest room
            (after_write wire (suc room) (after_write (bytes "  V2") (suc (suc room)) c)) refl e'
            h')
