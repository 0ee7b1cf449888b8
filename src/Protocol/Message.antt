-- ===== src/Protocol/Message.antt =====
-- The data of `Message` and `MessageResponder` of src/protocol.rs; what they do is in `Responder`.
use nsq_async_rs.Base.{ℕ, Bool, true, false, Option, none}
use nsq_async_rs.Base.Octets.{Bytes}

-- `connection` is the address of the shared `Connection`.
pub record MessageResponder : Type 0 where
  pub connection : ℕ
  pub msg_id : Bytes

-- `responded` is the address of the shared `AtomicBool`, which every clone of the message holds. Its
-- value is in the store of `Responder`: the loop of `Consumer.Session` sets it to false when it has read
-- the message.
pub record Message : Type 0 where
  pub id : Bytes
  pub timestamp : ℕ
  pub attempts : ℕ
  pub body : Bytes
  pub connection : Option MessageResponder
  pub auto_response_disabled : Bool
  pub responded : ℕ

-- `Message::new`; `cell` is the address that `Arc::new` gives.
abbrev pub new : ℕ → Bytes → Bytes → ℕ → ℕ → Message
new cell id body timestamp attempts = record {
  id = id;
  timestamp = timestamp;
  attempts = attempts;
  body = body;
  connection = none;
  auto_response_disabled = false;
  responded = cell;
}

abbrev pub disable_auto_response : Message → Message
disable_auto_response m = record m { auto_response_disabled = true }
