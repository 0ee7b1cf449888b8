-- ===== src/Pool/Sweep.antt =====
-- `clean_idle_conns` of src/pool.rs.
use nsq_async_rs.Base.{ℕ, ◌+◌, ◌++◌, if◌then◌else◌, Option, none, some, List, [], ◌∷◌}
use nsq_async_rs.Base.Octets.{Bytes}
use nsq_async_rs.Pool.{
  Methods, Pool, IdleConn, Reply, ok, err, panic, close_connection, idle_expired, minus,
}

-- What the loop leaves: the queue, how many it removed and which, and the error that stopped it.
pub record Swept (T : Type 0) : Type 0 where
  pub kept : List (IdleConn T)
  pub removed : ℕ
  pub dropped : List T
  pub failure : Option Bytes

module _ {T : Type 0} (m : Methods T) where
  -- One index of the loop, behind those after it.
  unfoldable pub sweep_at : ℕ → IdleConn T → Swept T → Swept T
  unfolding idle_expired
  sweep_at now i s = elim s.failure [
    | some e ↦ record s { kept = i ∷ s.kept }
    | none ↦
        if idle_expired m.config now i
        then (elim (m.closer i.conn) [
          | some e ↦ record s { kept = i ∷ s.kept; failure = some e }
          | none ↦ record s { removed = s.removed + 1; dropped = i.conn ∷ s.dropped }
        ])
        else record s { kept = i ∷ s.kept }
  ]

  -- `for i in (0..conns.len()).rev()`: the back of the queue comes first.
  unfoldable pub sweep : ℕ → List (IdleConn T) → Swept T
  unfolding sweep_at
  sweep now [] = record { kept = []; removed = 0; dropped = []; failure = none }
  sweep now (i ∷ is) = sweep_at now i (sweep now is)

  -- A failure returns before the count is lowered.
  unfoldable pub settle : Swept T → Pool T → Reply (Unit {0}) × Pool T
  unfolding minus
  settle s p =
      let p' = record p { idle = s.kept; discarded = s.dropped ++ p.discarded } in
      elim s.failure [
        | some e ↦ (err (close_connection e), p')
        | none ↦ elim (minus p.opening s.removed) [
          | none ↦ (panic, p')
          | some n ↦ (ok tt, record p' { opening = n })
        ]
      ]

  unfoldable pub clean_idle_conns : ℕ → Pool T → Reply (Unit {0}) × Pool T
  unfolding sweep settle
  clean_idle_conns now p = if p.closed then (ok tt, p) else settle (sweep now p.idle) p
