-- ===== src/Connection.antt =====
-- src/connection.rs: one TCP connection to nsqd. Its peer and the network are data: the bytes that
-- come in, how reading ends behind them, and how many writes go through.
pub mod Frames
pub mod Setup
pub mod Sending
pub mod Agree
mod Stream
unfoldable pub use Stream.*
use nsq_async_rs.Base.{
  ℕ, ◌+◌, ◌/◌, leb, ◌==◌, if◌then◌else◌, false, ◌⊎◌, inl, inr, Option, none, some, ◌++◌,
}
use nsq_async_rs.Base.Octets.{Bytes, from_be}
use nsq_async_rs.Base.Int.{to_i32}
use nsq_async_rs.Base.Text.{bytes}
use nsq_async_rs.Base.Decimal.{show_dec}
use nsq_async_rs.Error.{
  broken_pipe, invalid_frame_size, invalid_frame_type, Error, timed_out, Outcome, ok, err,
}
use nsq_async_rs.Protocol.Command.{IdentifyConfig, Command, to_bytes}
use nsq_async_rs.Protocol.Message.{Message}
use nsq_async_rs.Protocol.Frame.{Frame}

-- A response that `initialize` waits for: `none` is a size of 0, `some t` a frame type other than 0.
unfoldable pub reply_typed : (Option ℕ → Error) → ℕ → ℕ → Act (Unit {0})
reply_typed refuse size t =
    if t == 0
    then (do n ← fail (sub_four size); read_exact false n; pure tt)
    else fail (err (refuse (some t)))

unfoldable pub reply_sized : (Option ℕ → Error) → ℕ → Act (Unit {0})
reply_sized refuse size =
    if size == 0
    then fail (err (refuse none))
    else (do type_buf ← read_exact false 4; reply_typed refuse size (from_be type_buf))

unfoldable pub read_reply : (Option ℕ → Error) → Act (Unit {0})
read_reply refuse = do size_buf ← read_exact false 4; reply_sized refuse (from_be size_buf)

unfoldable pub identify_refusal : Option ℕ → Error
identify_refusal none = Error.protocol invalid_frame_size
identify_refusal (some t) = Error.protocol (invalid_frame_type (to_i32 t))

unfoldable pub auth_refusal : Option ℕ → Error
unfolding bytes show_dec
auth_refusal none = Error.auth (bytes "认证响应大小为0")
auth_refusal (some t) = Error.auth (bytes "认证失败，帧类型 " ++ show_dec t)

-- `read_message`: a response, and an error, which is only logged, are no message.
abbrev pub only_message : Frame → Option Message
only_message (Frame.message m) = some m
only_message _ = none

unfoldable pub read_message : ℕ → Act (Option Message)
unfolding read_frame
read_message cell = do frame ← read_frame cell; pure (only_message frame)

module _ (to_json : IdentifyConfig → Bytes ⊎ Bytes) where
  unfoldable pub send_command : Command → Act (Unit {0})
  send_command cmd = do bs ← fail (to_bytes to_json cmd); write_bytes bs

  unfoldable pub authenticate : Option Bytes → Act (Unit {0})
  authenticate none = pure tt
  authenticate (some secret) = do
    bs ← fail (to_bytes to_json (Command.auth (some secret)))
    write_all false bs
    read_reply auth_refusal

  -- `initialize`: the magic, IDENTIFY and its response, and AUTH with its own.
  unfoldable pub introduce : IdentifyConfig → Act (Unit {0})
  introduce config = do
    bs ← fail (to_bytes to_json (Command.identify config))
    write_all false bs
    read_reply identify_refusal

  unfoldable pub initialize : Act (Unit {0})
  initialize c =
      (do write_all false (bytes "  V2"); introduce c.identify_config; authenticate c.auth_secret) c

  unfoldable pub handle_heartbeat : Act (Unit {0})
  handle_heartbeat = send_command Command.nop

  -- `ping`: the write stands under two timeouts, and the shorter one speaks; at a tie the inner one,
  -- which is polled first.
  unfoldable pub after_ping : ℕ → ℕ → Outcome (Unit {0}) → Outcome (Unit {0})
  unfolding bytes show_dec
  after_ping outer inner (err timed_out) =
      if leb inner outer
      then err timed_out
      else err (Error.timeout (bytes "Ping 操作超时 (" ++ (show_dec (outer / 1000) ++ bytes "秒)")))
  after_ping outer inner r = r

  unfoldable pub ping : Option ℕ → Act (Unit {0})
  ping limit c =
      let outer : ℕ = elim limit [ none ↦ 5000 | some d ↦ d ] in
      let (r, c') = send_command Command.nop c in (after_ping outer c.write_timeout r, c')

  -- `reconnect`, with what `connect_with_retry` comes to: a stream that is connected afresh, by the
  -- peer's part of `fresh`, or the text of the last error.
  unfoldable pub reconnect : Connection ⊎ Bytes → Act (Unit {0})
  reconnect (inr reason) c =
      (err (Error.connection (bytes "无法连接到 " ++ (c.addr ++ (bytes ": " ++ reason)))), c)
  reconnect (inl fresh) c = initialize (record fresh {
    addr = c.addr;
    identify_config = c.identify_config;
    auth_secret = c.auth_secret;
    read_timeout = c.read_timeout;
    write_timeout = c.write_timeout;
  })

  -- `close_connection`
  unfoldable pub close_connection : Act (Unit {0})
  close_connection = send_command Command.cls

-- `close`: the write half is shut down, and nothing is written any more.
unfoldable pub close : Act (Unit {0})
unfolding bytes
close c = elim c.shutdown_result [
  | some e ↦ (err (Error.io e), c)
  | none ↦ (
    ok tt,
    record c {
      write_room = 0;
      write_cut = 0;
      write_end = breaks (record { kind = broken_pipe; message = bytes "broken pipe" });
    },
  )
]
