-- ===== src/Commands.antt =====
-- src/commands.rs: one-shot publishing and subscribing, each on a connection of its own.
pub mod Answers
use nsq_async_rs.Base.{ℕ, suc, Option, none, some, List, [], ◌∷◌, ◌++◌, ◌⊎◌}
use nsq_async_rs.Base.Octets.{Bytes}
use nsq_async_rs.Base.Text.{bytes, from_utf8_lossy}
use nsq_async_rs.Error.{Error, ProtocolError, Outcome, ok, err, panic, hang}
use nsq_async_rs.Protocol.Command.{IdentifyConfig, Command}
use nsq_async_rs.Protocol.Frame.{Frame}
use nsq_async_rs.Connection.{
  Connection, Act, pure, fail, continue, ◌>>=◌, ◌>>◌, send_command, read_frame,
}
use nsq_async_rs.Network.{Env, Net, share}
use nsq_async_rs.Network

-- `lookup_nsqd_nodes` sends nothing: it gives back the address of nsqlookupd as that of an nsqd.
unfoldable pub lookup_nsqd_nodes : Bytes → Bytes → Outcome (List Bytes)
lookup_nsqd_nodes addr topic = ok (addr ∷ [])

-- `Err(Error::Protocol(ProtocolError::Other(..)))`
abbrev pub refused {ℓ} : {A : Type ℓ} → Bytes → Outcome A
refused s = err (Error.protocol (ProtocolError.other s))

-- What is made of the frame that answers a request; `failed` and `odd` are the texts of the two errors.
unfoldable pub confirm : Bytes → Bytes → Frame → Outcome (Unit {0})
confirm failed odd (Frame.response d) = ok tt
confirm failed odd (Frame.error d) = refused (failed ++ from_utf8_lossy d)
confirm failed odd (Frame.message m) = refused odd

-- A request and the frame that answers it; `cell` is the address of a `responded` flag.
unfoldable pub exchange :
    (IdentifyConfig → Bytes ⊎ Bytes) → ℕ → Command → Bytes → Bytes → Act (Unit {0})
unfolding confirm
exchange to_json cell cmd failed odd = do
  send_command to_json cmd
  frame ← read_frame cell
  fail (confirm failed odd frame)

module _ (env : Env) where
  -- `create_nsqd_connection`, before its `Arc::new`: 60 seconds for reading and 1 for writing.
  unfoldable pub create_nsqd_connection :
      Bytes → Option IdentifyConfig → Option Bytes → Net → Outcome Connection × Net
  create_nsqd_connection addr config secret n = Network.new env addr config secret 60000 1000 n

  -- What a method does on a connection that was just opened; it is shared at the end.
  abbrev pub on_opened : Act (Unit {0}) → Outcome Connection × Net → Outcome ℕ × Net
  on_opened act (ok c, n) = elim (act c).0 [
    | ok u ↦ (ok n.next, (share (act c).1 n).1)
    | err e ↦ (err e, (share (act c).1 n).1)
    | panic ↦ (panic, (share (act c).1 n).1)
    | hang ↦ (hang, (share (act c).1 n).1)
  ]
  on_opened act (err e, n) = (err e, n)
  on_opened act (panic, n) = (panic, n)
  on_opened act (hang, n) = (hang, n)

  abbrev pub forget : Outcome ℕ × Net → Outcome (Unit {0}) × Net
  forget (ok a, n) = (ok tt, n)
  forget (err e, n) = (err e, n)
  forget (panic, n) = (panic, n)
  forget (hang, n) = (hang, n)

  unfoldable pub publish_message : ℕ → Bytes → Bytes → Bytes → Net → Outcome (Unit {0}) × Net
  unfolding bytes create_nsqd_connection exchange
  publish_message cell addr topic message n = forget (
      on_opened
        (exchange env.to_json cell (Command.publish topic message) (bytes "发布消息时出错: ")
          (bytes "发布消息时收到意外响应"))
        (create_nsqd_connection addr none none n))

  unfoldable pub mpublish_messages : ℕ → Bytes → Bytes → List Bytes → Net → Outcome (Unit {0}) × Net
  unfolding bytes create_nsqd_connection exchange
  mpublish_messages cell addr topic [] n = (ok tt, n)
  mpublish_messages cell addr topic (m ∷ ms) n = forget (
      on_opened
        (exchange env.to_json cell (Command.mpublish topic (m ∷ ms)) (bytes "批量发布消息时出错: ")
          (bytes "批量发布消息时收到意外响应"))
        (create_nsqd_connection addr none none n))

  -- SUB and its answer, and then RDY.
  unfoldable pub subscription : ℕ → Bytes → Bytes → ℕ → Act (Unit {0})
  unfolding bytes exchange
  subscription cell topic channel ready_count = do
    exchange env.to_json cell (Command.subscribe topic channel) (bytes "订阅时出错: ")
        (bytes "订阅时收到意外响应")
    send_command env.to_json (Command.ready ready_count)

  -- `subscribe` gives the address of the connection.
  unfoldable pub subscribe : ℕ → Bytes → Bytes → Bytes → ℕ → Net → Outcome ℕ × Net
  unfolding create_nsqd_connection subscription
  subscribe cell addr topic channel ready_count n =
      on_opened (subscription cell topic channel ready_count)
        (create_nsqd_connection addr none none n)
