-- ===== src/Commands/Answers.antt =====
-- What the one-shot methods of src/commands.rs make of nsqd's answer.
use nsq_async_rs.Base.{
  ℕ, zero, suc, ◌+◌, ◌^◌, ◌≤◌, ◌<◌, leb, if◌then◌else◌, ◌⊎◌, true, ◌++◌, length, ◌≡◌, refl, ap, ◌∙◌,
  arith,
}
use nsq_async_rs.Base.Octets.{Bytes, be32}
use nsq_async_rs.Base.Text.{bytes, from_utf8_lossy}
use nsq_async_rs.Error.{ok}
use nsq_async_rs.Protocol.Command.{IdentifyConfig, Command, to_bytes}
use nsq_async_rs.Protocol.Frame.{Frame, decode_frame}
use nsq_async_rs.Protocol.Frame.Decode.{decode_frame-FrameDecodes}
use nsq_async_rs.Connection.{Connection, fail, continue, ◌>>=◌, send_command, read_frame}
use nsq_async_rs.Connection.Frames.{with_input, frame_on, read_frame-frame_on, bind_ok}
use nsq_async_rs.Connection.Setup.{after_write}
use nsq_async_rs.Connection.Sending.{send_command_ok}
use nsq_async_rs.Network.{Env}
use nsq_async_rs.Commands.{refused, confirm, exchange, subscription}

-- The frame of a type up to 1.
abbrev pub answer_frame : ℕ → Bytes → Frame
answer_frame zero d = Frame.response d
answer_frame _ d = Frame.error d

decode_answer :
    (cell t : ℕ) (d : Bytes) → t ≤ 1 → decode_frame cell (be32 t ++ d) ≡ ok (answer_frame t d)
decode_answer cell t d h = ground (arith, decode_frame-FrameDecodes cell t d)

pub read_answer :
    (cell t : ℕ) (d rest : Bytes) (c : Connection)
    → t ≤ 1
    → 4 + length d < 2 ^ 32
    → read_frame cell (with_input (frame_on t d rest) c)
      ≡ (ok (answer_frame t d), with_input rest c)
read_answer cell t d rest c h fits =
    read_frame-frame_on cell t d rest c (omega arith) fits
    ∙ rw (small t h) (ap (λ r. (r, with_input rest c)) (decode_answer cell t d h))
  where
    small : (n : ℕ) → n ≤ 1 → leb n 2 ≡ true
    small n k = ground arith

module _ (to_json : IdentifyConfig → Bytes ⊎ Bytes) where
  -- A request that can be written, and its answer.
  exchange-answered :
      (cell t room : ℕ) (cmd : Command) (failed odd wire d rest : Bytes) (c : Connection)
      → to_bytes to_json cmd ≡ ok wire
      → c.write_room ≡ suc room
      → t ≤ 1
      → 4 + length d < 2 ^ 32
      → exchange to_json cell cmd failed odd (with_input (frame_on t d rest) c)
        ≡ (confirm failed odd (answer_frame t d), with_input rest (after_write wire room c))
  unfolding exchange
  exchange-answered cell t room cmd failed odd wire d rest c e w h fits =
      bind_ok (send_command to_json cmd)
        (λ _. read_frame cell >>= λ frame. fail (confirm failed odd frame))
        (with_input (frame_on t d rest) c)
        (send_command_ok to_json cmd wire (with_input (frame_on t d rest) c) room e w)
      ∙ bind_ok (read_frame cell) (λ frame. fail (confirm failed odd frame))
          (with_input (frame_on t d rest) (after_write wire room c))
          (read_answer cell t d rest (after_write wire room c) h fits)

-- `subscribe` on a connection through which two writes go: nsqd is sent SUB and, if it answers with a
-- response, RDY behind that; if it answers with an error, the error is handed on with its text, and no
-- RDY is sent. The stream is left right behind the answer.
pub subscription-answered :
    (env : Env) (cell t room count : ℕ) (topic channel wire ready_wire d rest : Bytes)
    (c : Connection)
    → to_bytes env.to_json (Command.subscribe topic channel) ≡ ok wire
    → to_bytes env.to_json (Command.ready count) ≡ ok ready_wire
    → c.write_room ≡ suc (suc room)
    → t ≤ 1
    → 4 + length d < 2 ^ 32
    → subscription env cell topic channel count (with_input (frame_on t d rest) c) ≡ (
        let c' = with_input rest (after_write wire (suc room) c) in
        if leb 1 t
        then (refused (bytes "订阅时出错: " ++ from_utf8_lossy d), c')
        else (ok tt, after_write ready_wire room c'))
unfolding subscription confirm
subscription-answered env cell t room count topic channel wire ready_wire d rest c e e' w h fits =
    ap (λ x. continue x.0 (λ _. send_command env.to_json (Command.ready count)) x.1)
      (exchange-answered env.to_json cell t (suc room) (Command.subscribe topic channel)
        (bytes "订阅时出错: ") (bytes "订阅时收到意外响应") wire d rest c e w h fits)
    ∙ confirmed t
  where
    confirmed :
        (n : ℕ)
        → continue
            (confirm (bytes "订阅时出错: ") (bytes "订阅时收到意外响应") (answer_frame n d))
            (λ _. send_command env.to_json (Command.ready count))
            (with_input rest (after_write wire (suc room) c))
          ≡ (let c' = with_input rest (after_write wire (suc room) c) in
              if leb 1 n
              then (refused (bytes "订阅时出错: " ++ from_utf8_lossy d), c')
              else (ok tt, after_write ready_wire room c'))
    confirmed zero =
        send_command_ok env.to_json (Command.ready count) ready_wire
          (with_input rest (after_write wire (suc room) c)) room e' refl
    confirmed (suc n) = ground arith
