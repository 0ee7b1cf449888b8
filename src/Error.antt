-- ===== src/Error.antt =====
-- src/error.rs and the error types of src/protocol.rs: what can go wrong, how it is printed, and the
-- results of fallible code.
use nsq_async_rs.Base.{◌++◌}
use nsq_async_rs.Base.Octets.{Bytes}
use nsq_async_rs.Base.Text.{bytes}
use nsq_async_rs.Base.Decimal.{show_int}
use nsq_async_rs.Base.Int.{ℤ}

-- `std::io::ErrorKind`: the kinds that the source tells apart, and all others.
pub data IoKind : Type 0 where
  broken_pipe connection_reset connection_aborted unexpected_eof other_kind : IoKind

-- `std::io::Error`: its kind and the text that it prints.
pub record IoError : Type 0 where
  pub kind : IoKind
  pub message : Bytes

pub data ProtocolError : Type 0 where
  io : IoError → ProtocolError
  invalid_frame_size : ProtocolError
  invalid_magic_version : ProtocolError
  invalid_frame_type : ℤ → ProtocolError
  other : Bytes → ProtocolError

-- The errors of `serde_json` and `reqwest` are kept as the texts that they print.
pub data Error : Type 0 where
  io : IoError → Error
  serialize : Bytes → Error
  connection : Bytes → Error
  protocol : ProtocolError → Error
  timeout : Bytes → Error
  timed_out : Error
  auth : Bytes → Error
  message_handling : Bytes → Error
  config : Bytes → Error
  http : Bytes → Error
  other : Bytes → Error

-- `Display` of both types, as `thiserror` derives it from the `#[error]` attributes.
unfoldable pub protocol_display : ProtocolError → Bytes
unfolding bytes show_int
protocol_display (ProtocolError.io e) = bytes "IO error: " ++ e.message
protocol_display ProtocolError.invalid_frame_size = bytes "Invalid frame size"
protocol_display ProtocolError.invalid_magic_version = bytes "Invalid magic version"
protocol_display (ProtocolError.invalid_frame_type t) = bytes "Invalid frame type: " ++ show_int t
protocol_display (ProtocolError.other s) = bytes "Protocol error: " ++ s

unfoldable pub display : Error → Bytes
unfolding bytes protocol_display
display (Error.io e) = bytes "IO错误: " ++ e.message
display (Error.serialize s) = bytes "序列化错误: " ++ s
display (Error.connection s) = bytes "连接错误: " ++ s
display (Error.protocol e) = bytes "协议错误: " ++ protocol_display e
display (Error.timeout s) = bytes "操作超时: " ++ s
display Error.timed_out = bytes "操作超时"
display (Error.auth s) = bytes "认证失败: " ++ s
display (Error.message_handling s) = bytes "消息处理错误: " ++ s
display (Error.config s) = bytes "配置错误: " ++ s
display (Error.http s) = bytes "HTTP错误: " ++ s
display (Error.other s) = bytes "其他错误: " ++ s

-- `backoff::Error<Error>`, by the two cases that the source matches.
pub data BackoffError : Type 0 where
  permanent : Error → BackoffError
  transient : Error → BackoffError

unfoldable pub from_backoff : BackoffError → Error
from_backoff (permanent e) = e
from_backoff (transient e) = e

-- A `Result`, or what is no value: a panic (an index out of range, an overflow in arithmetic), or an
-- `await` that never ends.
pub data Outcome {ℓ} (A : Type ℓ) : Type ℓ where
  ok : A → Outcome A
  err : Error → Outcome A
  panic : Outcome A
  hang : Outcome A

infixl 5 ◌>>=◌ ◌>>◌
abbrev pub ◌>>=◌ {ℓ κ} : {A : Type ℓ} {B : Type κ} → Outcome A → (A → Outcome B) → Outcome B
ok a >>= f = f a
err e >>= f = err e
panic >>= f = panic
hang >>= f = hang

abbrev pub ◌>>◌ {ℓ κ} : {A : Type ℓ} {B : Type κ} → Outcome A → Outcome B → Outcome B
m >> k = m >>= λ _. k
