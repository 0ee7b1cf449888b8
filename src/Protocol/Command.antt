-- ===== src/Protocol/Command.antt =====
-- `Command` of src/protocol.rs and the bytes that it is sent as.
pub mod Request
pub mod Reading
use nsq_async_rs.Base.{
  ℕ, ◌+◌, Bool, true, Option, none, some, List, [], ◌∷◌, ◌++◌, ◌⊎◌, inl, inr, length, ◌≡◌, refl,
}
use nsq_async_rs.Base.Octets.{Bytes, as_u32, be32}
use nsq_async_rs.Base.Int.{ℤ, pos}
use nsq_async_rs.Base.Text.{bytes}
use nsq_async_rs.Base.Decimal.{show_dec}
use nsq_async_rs.Error.{Error, Outcome, ok, err, ◌>>=◌}

pub record IdentifyConfig : Type 0 where
  pub client_id : Option Bytes
  pub hostname : Option Bytes
  pub feature_negotiation : Option Bool
  pub heartbeat_interval : Option ℤ
  pub output_buffer_size : Option ℤ
  pub output_buffer_timeout : Option ℤ
  pub tls_v1 : Option Bool
  pub snappy : Option Bool
  pub sample_rate : Option ℤ
  pub user_agent : Option Bytes
  pub msg_timeout : Option ℤ

pub data Command : Type 0 where
  identify : IdentifyConfig → Command
  subscribe : Bytes → Bytes → Command
  publish : Bytes → Bytes → Command
  delayed_publish : Bytes → Bytes → ℕ → Command
  mpublish : Bytes → List Bytes → Command
  ready : ℕ → Command
  finish : Bytes → Command
  requeue : Bytes → ℕ → Command
  touch : Bytes → Command
  nop : Command
  cls : Command
  auth : Option Bytes → Command

-- `IdentifyConfig::default()`: what `hostname::get` gives as text, and the package's version.
unfoldable pub default_config : Option Bytes → Bytes → IdentifyConfig
unfolding bytes
default_config host version = record {
  client_id = some name;
  hostname = some name;
  feature_negotiation = some true;
  heartbeat_interval = some (pos 30000);
  output_buffer_size = some (pos 16384);
  output_buffer_timeout = some (pos 250);
  tls_v1 = none;
  snappy = none;
  sample_rate = none;
  user_agent = some (bytes "rust-nsq/" ++ version);
  msg_timeout = some (pos 60000);
}
  where
    name : Bytes
    name = elim host [ none ↦ bytes "unknown" | some h ↦ h ]

-- The `total_size` loop. It counts bytes that are in memory, so that it does not pass a `usize`.
unfoldable pub total_size : ℕ → List Bytes → ℕ
total_size n [] = n
total_size n (body ∷ bodies) = total_size (n + (4 + length body)) bodies

-- `write_u32(len as u32)` and the bytes.
unfoldable pub sized : Bytes → Bytes
sized body = be32 (as_u32 (length body)) ++ body

unfoldable pub sized_all : List Bytes → Bytes
unfolding sized
sized_all [] = []
sized_all (body ∷ bodies) = sized body ++ sized_all bodies

or_serialize : Bytes ⊎ Bytes → Outcome Bytes
or_serialize (inl text) = ok text
or_serialize (inr e) = err (Error.serialize e)

unfoldable pub auth_body : Option Bytes → Bytes
unfolding sized
auth_body (some s) = sized s
auth_body none = be32 0

-- `to_json` is `serde_json::to_string`: the text, or the text of an error.
module _ (to_json : IdentifyConfig → Bytes ⊎ Bytes) where
  unfoldable pub to_bytes : Command → Outcome Bytes
  unfolding or_serialize bytes sized_all total_size auth_body
  to_bytes (identify config) = do
    json ← or_serialize (to_json config)
    ok (bytes "IDENTIFY\n" ++ sized json)
  to_bytes (subscribe topic channel) =
      ok (bytes "SUB " ++ (topic ++ (bytes " " ++ (channel ++ bytes "\n"))))
  to_bytes (publish topic body) = ok (bytes "PUB " ++ (topic ++ (bytes "\n" ++ sized body)))
  to_bytes (delayed_publish topic body delay) =
      ok (bytes "DPUB " ++ (topic ++ (bytes " " ++ (show_dec delay ++ (bytes "\n" ++ sized body)))))
  to_bytes (mpublish topic bodies) = ok (
      bytes "MPUB "
      ++ (topic
          ++ (bytes "\n"
              ++ (be32 (as_u32 (total_size 4 bodies))
                  ++ (be32 (as_u32 (length bodies)) ++ sized_all bodies)))))
  to_bytes (ready count) = ok (bytes "RDY " ++ (show_dec count ++ bytes "\n"))
  to_bytes (finish id) = ok (bytes "FIN " ++ (id ++ bytes "\n"))
  to_bytes (requeue id delay) =
      ok (bytes "REQ " ++ (id ++ (bytes " " ++ (show_dec delay ++ bytes "\n"))))
  to_bytes (touch id) = ok (bytes "TOUCH " ++ (id ++ bytes "\n"))
  to_bytes nop = ok (bytes "NOP\n")
  to_bytes cls = ok (bytes "CLS\n")
  to_bytes (auth secret) = ok (bytes "AUTH\n" ++ auth_body secret)
