-- ===== src/Consumer/Session/Torn.antt =====
-- What becomes of a frame that the heartbeat cuts in two.
use nsq_async_rs.Base.{
  ℕ, suc, ◌+◌, ◌^◌, ◌≤◌, ◌<◌, ltb, leb, ◌≡◌, refl, ap, ◌∙◌, true, false, ◌⊎◌, none, some, [], ◌∷◌,
  ◌++◌, length, length-append, take, drop, arith,
}
use nsq_async_rs.Base.Octets.{Bytes, bytes_eq, be32, from_be, from_be-be32, length-be32}
use nsq_async_rs.Base.Text.{bytes}
use nsq_async_rs.Error.{display, protocol_display, Error, invalid_frame_size, err}
use nsq_async_rs.Protocol.Command.{IdentifyConfig, Command}
use nsq_async_rs.Connection.{Connection, read_frame, read_sized, read_exact}
use nsq_async_rs.Connection.Frames.{with_input, frame_on, read_exact-be32, bind_ok}
use nsq_async_rs.Connection.Setup.{after_write}
use nsq_async_rs.Consumer.Retry.{retries, is_connection_error}
use nsq_async_rs.Consumer.Session.{
  contains, Settings, Session, cut, frame, mid_frame, lose, tear, receive, on_frame, sends, step,
  run,
}
use nsq_async_rs.Consumer.Session.Ends.{
  in_select_going, update_same, after_read, sends_nop, step_frame,
}

retries-invalid_frame_size : retries (Error.protocol invalid_frame_size) ≡ false
unfolding retries is_connection_error display protocol_display contains bytes bytes_eq
retries-invalid_frame_size = refl

-- A size of less than 4 is refused.
read_frame_small :
    (cell size : ℕ) (rest : Bytes) (c : Connection)
    → size < 4
    → read_frame cell (with_input (be32 size ++ rest) c)
      ≡ (err (Error.protocol invalid_frame_size), with_input rest c)
unfolding read_frame read_sized
read_frame_small cell size rest c small =
    bind_ok (read_exact true 4) (λ size_buf. read_sized cell (from_be size_buf))
      (with_input (be32 size ++ rest) c) (read_exact-be32 true size rest c)
    ∙ rw (from_be-be32 size (omega arith), lt) refl
  where
    lt : ltb size 4 ≡ true
    lt = ground arith

drop_size : (n : ℕ) (xs : Bytes) → drop 4 (be32 n ++ xs) ≡ xs
unfolding be32
drop_size n xs = refl

take_size : (n : ℕ) (xs : Bytes) → take 4 (be32 n ++ xs) ≡ be32 n
unfolding be32
take_size n xs = refl

mid_header :
    (t : ℕ) (payload rest : Bytes)
    → 4 + length payload < 2 ^ 32
    → mid_frame 4 (frame_on t payload rest) ≡ true
unfolding mid_frame
mid_header t payload rest fits =
    let big : leb 4 (4 + length payload) ≡ true = ground arith in
    let long : leb 4 (length (frame_on t payload rest)) ≡ true = ground (
      arith,
      length-append (be32 (4 + length payload)) (be32 t ++ (payload ++ rest)),
      length-be32 (4 + length payload),
    ) in
    rw long (
      rw
        (
          take_size (4 + length payload) (be32 t ++ (payload ++ rest)),
          from_be-be32 (4 + length payload) fits,
        )
        (rw big refl))

module _ (to_json : IdentifyConfig → Bytes ⊎ Bytes) (config : Settings) (a : ℕ) where
  received :
      (s : Session) (size : ℕ) (rest : Bytes) (c : Connection)
      → size < 4
      → s.shared.world.connections a ≡ with_input (be32 size ++ rest) c
      → (receive to_json config a s).result ≡ some (err (Error.protocol invalid_frame_size))
  unfolding receive on_frame
  received s size rest c small conn =
      let e : (read_frame s.fresh (s.shared.world.connections a)).0
          ≡ err (Error.protocol invalid_frame_size) =
        ap (λ x. (read_frame s.fresh x).0) conn
        ∙ ap (λ x. x.0) (read_frame_small s.fresh size rest c small) in
      ap
        (λ r.
          (on_frame to_json config a r (
            after_read to_json config a s
              (read_frame s.fresh (s.shared.world.connections a)).1)).result)
        e

  torn :
      (s : Session) (t room : ℕ) (payload rest : Bytes) (c : Connection)
      → s.result ≡ none
      → s.pending ≡ none
      → s.shared.world.connections a ≡ with_input (frame_on t payload rest) c
      → 4 + length payload < 2 ^ 32
      → step to_json config a s (cut 4) ≡ sends to_json config a Command.nop (lose a 4 s)
  unfolding step tear
  torn s t room payload rest c going free conn fits =
      in_select_going (tear to_json config a 4) s going free
      ∙ rw (ap (λ x. mid_frame 4 x.input) conn ∙ mid_header t payload rest fits) refl

  -- A frame can be torn in two. If the heartbeat ticks when the size of a frame has come in and the rest
  -- of it has not, then `select!` drops the read, which loses the size. The loop sends its NOP, takes
  -- the frame's type for the size of the next frame, and ends with an error after which its task does
  -- not connect again: the consumer has lost this nsqd for good.
  pub torn_frame :
      (s : Session) (t room : ℕ) (payload rest : Bytes) (c : Connection)
      → s.result ≡ none
      → s.pending ≡ none
      → s.is_running ≡ true
      → s.shared.world.connections a ≡ with_input (frame_on t payload rest) c
      → c.write_room ≡ suc room
      → t ≤ 2
      → 4 + length payload < 2 ^ 32
      → ((run to_json config a s (cut 4 ∷ frame ∷ [])).result
          ≡ some (err (Error.protocol invalid_frame_size)))
        × (retries (Error.protocol invalid_frame_size) ≡ false)
  unfolding run
  torn_frame s t room payload rest c going free running conn w known fits =
      let nop = after_write (bytes "NOP\n") room in
      let left = be32 t ++ (payload ++ rest) in
      let s0 = lose a 4 s in
      let here : s0.shared.world.connections a ≡ with_input left c =
        update_same s.shared.world.connections a _
        ∙ ap (λ x. with_input (drop 4 x.input) x) conn
        ∙ ap (λ i. with_input i c) (drop_size (4 + length payload) left) in
      let s1 = after_read to_json config a s0 (nop (s0.shared.world.connections a)) in
      let e : step to_json config a s (cut 4) ≡ s1 =
        torn s t room payload rest c going free conn fits
        ∙ sends_nop to_json config a s0 room running (ap (λ d. d.write_room) here ∙ w) in
      let there : s1.shared.world.connections a ≡ with_input left (nop c) =
        update_same s0.shared.world.connections a _ ∙ ap nop here in
      (
        ap (λ x. (step to_json config a x frame).result) e
            ∙ ap (λ x. x.result) (step_frame to_json config a s1 going free)
            ∙ received s1 t (payload ++ rest) (nop c) (omega arith) there,
        retries-invalid_frame_size,
      )
