-- ===== src/Pool/System.antt =====
-- A pool and its clients: histories of phases of the methods of src/pool.rs, in any order. A `get` is
-- the phases `takes` and `opens`, between which others may run; what a client holds is `lent`.
use nsq_async_rs.Base.{
  ℕ, zero, suc, ltb, if◌then◌else◌, Bool, Option, none, some, List, [], ◌∷◌, length, map,
}
use nsq_async_rs.Pool.{
  Methods, Pool, PooledConn, Reply, ok, err, panic, Got, got, waits, take_idle, open_or_wait, put,
  release, new,
}
use nsq_async_rs.Pool.Sweep.{clean_idle_conns}

-- `created` are all connections that the factory made. `leaked` are those that a client gave back
-- and that neither the queue, a waiter nor the closer got.
pub record System (T : Type 0) : Type 0 where
  pub pool : Pool T
  pub lent : List (PooledConn T)
  pub created : List T
  pub leaked : List T

-- `puts now alive k` gives back the k-th connection that is lent.
pub data Event : Type 0 where
  takes : ℕ → Event
  opens : ℕ → ℕ → Event
  puts : ℕ → (ℕ → Bool) → ℕ → Event
  cleans : ℕ → Event
  releases : Event

module _ {T : Type 0} where
  unfoldable pub pick : ℕ → List (PooledConn T) → Option (PooledConn T × List (PooledConn T))
  pick k [] = none
  pick zero (c ∷ cs) = some (c, cs)
  pick (suc k) (c ∷ cs) = elim (pick k cs) [ none ↦ none | some (d, rest) ↦ some (d, c ∷ rest) ]

  unfoldable pub taken : Reply (Option (PooledConn T)) → Pool T → System T → System T
  taken (ok (some c)) p s = record s { pool = p; lent = c ∷ s.lent }
  taken (ok none) p s = record s { pool = p }
  taken (err e) p s = record s { pool = p }
  taken panic p s = record s { pool = p }

  unfoldable pub opened : Reply (Got T) → Pool T → System T → System T
  opened (ok (got c)) p s = record s { pool = p; lent = c ∷ s.lent; created = c.conn ∷ s.created }
  opened (ok (waits w)) p s = record s { pool = p }
  opened (err e) p s = record s { pool = p }
  opened panic p s = record s { pool = p }

  -- A connection that a waiter was sent is lent to it; one that a closed pool took is gone.
  unfoldable pub returned : PooledConn T → List (PooledConn T) → Pool T → System T → System T
  returned c rest p s =
      if s.pool.closed
      then record s { pool = p; lent = rest; leaked = c.conn ∷ s.leaked }
      else if ltb (length s.pool.answers) (length p.answers)
      then record s { pool = p; lent = c ∷ rest }
      else record s { pool = p; lent = rest }

  module _ (m : Methods T) where
    unfoldable pub step : System T → Event → System T
    unfolding taken opened pick returned
    step s (takes now) = let (r, p) = take_idle m now s.pool in taken r p s
    step s (opens now w) = let (r, p) = open_or_wait m now w s.pool in opened r p s
    step s (puts now alive k) = elim (pick k s.lent) [
      | none ↦ s
      | some (c, rest) ↦ returned c rest (put m now 1 alive c s.pool).1 s
    ]
    step s (cleans now) = record s { pool = (clean_idle_conns m now s.pool).1 }
    step s releases = record s { pool = (release m s.pool).1 }

    unfoldable pub run : System T → List Event → System T
    run s [] = s
    run s (e ∷ es) = run (step s e) es

    -- The system when `Pool::new` has returned.
    unfoldable pub start : ℕ → System T
    start now =
        let p = (new m now).1 in
        record { pool = p; lent = []; created = map (λ i. i.conn) p.idle; leaked = [] }
