-- ===== src/Responder.antt =====
-- `MessageResponder` and the responses of `Message` of src/protocol.rs, over the shared state that
-- they change: the flags `responded`, which the clones of a message share, and the connections. `touch`
-- looks at the flag in one step and sends in another.
pub mod Once
use nsq_async_rs.Base.{
  ℕ, ◌==◌, if◌then◌else◌, Bool, true, false, Option, none, some, List, [], ◌∷◌, ◌⊎◌,
}
use nsq_async_rs.Base.Octets.{Bytes}
use nsq_async_rs.Base.Text.{bytes, from_utf8_lossy}
use nsq_async_rs.Error.{Error, Outcome, ok, err}
use nsq_async_rs.Protocol.Command.{IdentifyConfig, Command}
use nsq_async_rs.Protocol.Message.{Message, MessageResponder}
use nsq_async_rs.Connection.{Connection, send_command}

pub record World : Type 0 where
  pub flags : ℕ → Bool
  pub connections : ℕ → Connection

abbrev pub update {ℓ} : {A : Type ℓ} → (ℕ → A) → ℕ → A → ℕ → A
update f p v q = if p == q then v else f q

-- `Message::with_responder`
unfoldable pub with_responder : ℕ → Message → Message
with_responder connection m = record m {
  connection = some (record { connection = connection; msg_id = from_utf8_lossy m.id });
}

-- `Message::id_string`
unfoldable pub id_string : Message → Bytes
id_string m = from_utf8_lossy m.id

unfoldable pub has_responded : Message → World → Bool
has_responded m w = w.flags m.responded

-- `Err(Error::Other("消息没有关联的连接"))`
unfoldable pub no_connection : Error
unfolding bytes
no_connection = Error.other (bytes "消息没有关联的连接")

module _ (to_json : IdentifyConfig → Bytes ⊎ Bytes) where
  -- A command on the connection at an address.
  unfoldable pub send_on : ℕ → Command → World → Outcome (Unit {0}) × World
  send_on a cmd w =
      let (r, c) = send_command to_json cmd (w.connections a) in
      (r, record w { connections = update w.connections a c })

  -- `MessageResponder::{finish, requeue, touch}`
  unfoldable pub respond :
      (Bytes → Command) → Option MessageResponder → World → Outcome (Unit {0}) × World
  respond cmd none w = (err no_connection, w)
  respond cmd (some r) w = send_on r.connection (cmd r.msg_id) w

  -- The compare-and-swap of `finish` and `requeue`, and what they do when it succeeds.
  unfoldable pub respond_once : (Bytes → Command) → Message → World → Outcome (Unit {0}) × World
  respond_once cmd m w =
      if w.flags m.responded
      then (ok tt, w)
      else respond cmd m.connection (record w { flags = update w.flags m.responded true })

  unfoldable pub finish : Message → World → Outcome (Unit {0}) × World
  unfolding respond_once respond
  finish m = respond_once Command.finish m

  unfoldable pub requeue : ℕ → Message → World → Outcome (Unit {0}) × World
  unfolding respond_once respond
  requeue delay m = respond_once (λ id. Command.requeue id delay) m

  -- `touch` behind its look at the flag. Before it, other tasks may run.
  unfoldable pub touch_sends : Message → World → Outcome (Unit {0}) × World
  unfolding respond
  touch_sends m w = respond Command.touch m.connection w

  -- `touch` when nothing runs in between.
  unfoldable pub touch : Message → World → Outcome (Unit {0}) × World
  unfolding touch_sends has_responded
  touch m w = if has_responded m w then (ok tt, w) else touch_sends m w
