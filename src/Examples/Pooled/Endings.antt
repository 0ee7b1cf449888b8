-- ===== src/Examples/Pooled/Endings.antt =====
-- How `main` of examples/pub/pool_producer.rs ends.
use nsq_async_rs.Base.{ℕ, List, ◌∷◌, [], ◌≡◌}
use nsq_async_rs.Base.Octets.{Bytes}
use nsq_async_rs.Error.{Outcome, ok, panic, hang}
use nsq_async_rs.Network.{Env}
use nsq_async_rs.Producer.{Producer}
use nsq_async_rs.Pool.{Pool, Reply}
use nsq_async_rs.Examples.Pooled.{Bench, Ending, finished, returns, panics, hangs}

module _ (env : Env) where
  -- The last publication has come to this.
  abbrev pub Ends : Outcome (Unit {0}) → Bench → Type 0
  Ends o b =
      (message : Bytes) × (earlier : List (Bytes × Outcome (Unit {0}))) × (b.log
        ≡ (message, o) ∷ earlier)

  -- The pool is in a state, and no operation of it has failed.
  abbrev pub Quiet : (Pool ℕ → Type 0) → Bench → Type 0
  Quiet P b = P b.pool × (b.errors ≡ [])

  -- `main`, or a part of it, comes to its end with the pool in a state and without an error of the pool,
  -- or its last publication has panicked or hangs, and no operation of the pool has failed before it.
  abbrev pub Leaves : (Pool ℕ → Type 0) → Ending × Bench → Type 0
  Leaves P (finished, b) = Quiet P b
  Leaves P (returns e, b) = ⊥
  Leaves P (panics, b) = Ends panic b × (b.errors ≡ [])
  Leaves P (hangs, b) = Ends hang b × (b.errors ≡ [])

  -- What is done with the reply of a `put` or a `release` that succeeds.
  abbrev Passes : (Reply (Unit {0}) → Ending) → Type 0
  Passes end = end (Reply.ok tt) ≡ finished
