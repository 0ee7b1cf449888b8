-- ===== src/Consumer/Task/Ready.antt =====
-- The flow control of a connection: `total_rdy_count` and the refill of RDY.
use nsq_async_rs.Base.{ℕ, suc, ◌-◌, ◌/◌, ◌≤◌, ◌<◌, if◌then◌else◌, ◌⊎◌, leb, ◌≡◌, arith}
use nsq_async_rs.Base.Octets.{Bytes}
use nsq_async_rs.Base.Int.{ℤ, pos, negsuc, of_i32}
use nsq_async_rs.Error.{ok}
use nsq_async_rs.Protocol.Command.{IdentifyConfig, Command, to_bytes}
use nsq_async_rs.Connection.Setup.{after_write}
use nsq_async_rs.Connection.Sending.{send_command_ok}
use nsq_async_rs.Responder.{send_on}
use nsq_async_rs.Consumer.Task.{Shared, refill}

-- The count of RDY lies above half the maximum and not above the maximum.
abbrev pub IsReady : ℕ → ℤ → Type 0
IsReady max (pos n) = (max / 2 < n) × (n ≤ max)
IsReady max (negsuc n) = ⊥

module _ (to_json : IdentifyConfig → Bytes ⊎ Bytes) where
  -- While writes go through, the end of a handler leaves the count of RDY above half the maximum: nsqd
  -- is told the maximum again exactly when the count has fallen to half of it, and nothing otherwise.
  refill-IsReady :
      (max n a room : ℕ) (wire : Bytes) (s : Shared)
      → 0 < max
      → s.rdy ≡ pos n
      → IsReady max (pos n)
      → to_bytes to_json (Command.ready (of_i32 (pos max))) ≡ ok wire
      → (s.world.connections a).write_room ≡ suc room
      → let s' = refill to_json (pos max) a s in
        IsReady max s'.rdy
        × (s'.world.connections a ≡ (
            if leb (n - 1) (max / 2)
            then after_write wire room (s.world.connections a)
            else s.world.connections a))
  unfolding refill send_on
  refill-IsReady max n a room wire s positive e h w r = ground (
    arith,
    send_command_ok to_json (Command.ready (of_i32 (pos max))) wire (s.world.connections a) room w
        r,
  )
