-- ===== src/Tests/Order.antt =====
-- A consumer with its map in another order.
use nsq_async_rs.Base.{ℕ, ◌+◌, List, [], ◌∷◌, ◌≡◌, refl, arith}
use mathlib.Core.List.{Permᴰ}
use nsq_async_rs.Base.Octets.{Bytes, be32, from_be}
use nsq_async_rs.Protocol.Command.{to_bytes}
use nsq_async_rs.Connection.{
  initialize, write_all, introduce, read_reply, read_exact, reply_sized, reply_typed, sub_four,
  authenticate,
}
use nsq_async_rs.Network
use nsq_async_rs.Consumer.Registry.{stats, default_config}
use nsq_async_rs.Consumer.Registry.Counting.{Operation, connects, disconnects, stops, run}
use nsq_async_rs.Consumer.Registry.Order.{order_unobserved}
use nsq_async_rs.Tests.Network.{env, net}
use nsq_async_rs.Tests.Registry.{fresh, fresh_new}

abbrev before : List Operation
before = connects (110 ∷ []) ∷ connects (111 ∷ []) ∷ []

abbrev after : List Operation
after = connects (112 ∷ []) ∷ disconnects (110 ∷ []) ∷ connects (111 ∷ []) ∷ stops 2 ∷ []

-- The entry of the second connection comes first; here it is put last.
abbrev turned : List (Bytes × ℕ)
turned = (110 ∷ [], net.next) ∷ (111 ∷ [], net.next + 1) ∷ []

order_unobserved_example :
    let d = run env after (run env before fresh) in
    let d' = run env after (record (run env before fresh) { connections = turned }) in
    (stats d' ≡ stats d)
    × (d'.net ≡ d.net)
    × (d'.tasks ≡ d.tasks)
    × Permᴰ d.connections d'.connections
unfolding run Network.new initialize write_all introduce to_bytes read_reply read_exact be32
    reply_sized from_be reply_typed sub_four authenticate
order_unobserved_example =
    order_unobserved env (116 ∷ []) (99 ∷ []) default_config net fresh before after turned fresh_new
      (Permᴰ.swap refl refl) (tt, (tt, (tt, (omega arith, tt))))
