-- ===== src/Protocol/Words/Bare.antt =====
-- `write_command` and `encode_command` against `Command::to_bytes`.
use nsq_async_rs.Base.{Option, none, some, List, [], ◌∷◌, ◌⊎◌, append_assoc, append-nil, ◌≡◌, refl}
use nsq_async_rs.Base.Octets.{Bytes}
use nsq_async_rs.Base.Text.{bytes}
use nsq_async_rs.Base.Decimal.{show_dec}
use nsq_async_rs.Error.{Outcome, ok}
use nsq_async_rs.Protocol.Command.{IdentifyConfig, Command, to_bytes}
use nsq_async_rs.Protocol.Words.{write_command, params_from}

-- The name and the parameters of a command without a body.
abbrev pub bare : Command → Option (Bytes × List Bytes)
bare (Command.subscribe topic channel) = some (bytes "SUB", topic ∷ channel ∷ [])
bare (Command.ready count) = some (bytes "RDY", show_dec count ∷ [])
bare (Command.finish id) = some (bytes "FIN", id ∷ [])
bare (Command.requeue id delay) = some (bytes "REQ", id ∷ show_dec delay ∷ [])
bare (Command.touch id) = some (bytes "TOUCH", id ∷ [])
bare Command.nop = some (bytes "NOP", [])
bare Command.cls = some (bytes "CLS", [])
bare _ = none

written :
    (name name' : Bytes) (params params' : List Bytes)
    → ◌≡◌ {A = Option (Bytes × List Bytes)} (some (name', params')) (some (name, params))
    → {w : Bytes} → w ≡ write_command name' params'
    → ◌≡◌ {A = Outcome Bytes} (ok w) (ok (write_command name params))
written name name' params params' h e = cc

-- The two ways to write a command agree: one without a body is encoded by `to_bytes` as just what
-- `write_command` writes for its name and its parameters.
pub to_bytes-write_command :
    (to_json : IdentifyConfig → Bytes ⊎ Bytes) (c : Command) (name : Bytes) (params : List Bytes)
    → bare c ≡ some (name, params)
    → to_bytes to_json c ≡ ok (write_command name params)
unfolding to_bytes write_command params_from bytes
to_bytes-write_command to_json (Command.subscribe t ch) name params h =
    written _ _ _ _ h (simp (append_assoc, append-nil))
to_bytes-write_command to_json (Command.ready n) name params h = written _ _ _ _ h (simp append-nil)
to_bytes-write_command to_json (Command.finish id) name params h =
    written _ _ _ _ h (simp append-nil)
to_bytes-write_command to_json (Command.requeue id d) name params h =
    written _ _ _ _ h (simp (append_assoc, append-nil))
to_bytes-write_command to_json (Command.touch id) name params h =
    written _ _ _ _ h (simp append-nil)
to_bytes-write_command to_json Command.nop name params h = written _ _ _ _ h refl
to_bytes-write_command to_json Command.cls name params h = written _ _ _ _ h refl
to_bytes-write_command to_json (Command.identify c) name params h = cc
to_bytes-write_command to_json (Command.publish t b) name params h = cc
to_bytes-write_command to_json (Command.delayed_publish t b d) name params h = cc
to_bytes-write_command to_json (Command.mpublish t bs) name params h = cc
to_bytes-write_command to_json (Command.auth s) name params h = cc
