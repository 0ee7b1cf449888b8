-- ===== src/Pool/Capacity/Phases.antt =====
-- The count of open connections in each phase of the methods.
use nsq_async_rs.Base.{
  ℕ, zero, suc, ◌+◌, ◌-◌, ◌≤◌, ◌≡◌, ◌≢◌, refl, ltb, if◌then◌else◌, Bool, true, false, Option, some,
  List, [], ◌∷◌, length, length-append, arith, Option-cases, inl, inr,
}
use nsq_async_rs.Pool.{
  Methods, Pool, IdleConn, PooledConn, Reply, ok, panic, take_loop, take_idle, discard, park, put,
  release_loop, release,
}
use nsq_async_rs.Pool.Sweep.{sweep, clean_idle_conns}
use nsq_async_rs.Pool.System.{System, pick}

module _ {T : Type 0} where
  -- The queue with `k` more connections is counted, and the count stays within `cap`.
  pub record Counted (cap k : ℕ) (p : Pool T) : Type 0 where
    pub held : length p.idle + k ≤ p.opening
    pub capped : p.opening ≤ cap

  -- While the pool is open, its count covers the connections in the queue, those lent and `lost` more,
  -- and stays within `cap`.
  pub record IsCounted (cap lost : ℕ) (s : System T) : Type 0 where
    pub when_open : s.pool.closed ≡ false → Counted cap (length s.lent + lost) s.pool

  abbrev pub took : Reply (Option (PooledConn T)) → ℕ
  took (ok (some c)) = 1
  took _ = 0

  module _ (m : Methods T) (cap : ℕ) where
    take_loop-Counted :
        (now k : ℕ) (is : List (IdleConn T)) (p : Pool T)
        → length is + k ≤ p.opening
        → p.opening ≤ cap
        → ((take_loop m now is p).0 ≢ panic)
          × (length (take_loop m now is p).1.idle + took (take_loop m now is p).0 + k
              ≤ (take_loop m now is p).1.opening)
          × ((take_loop m now is p).1.opening ≤ cap)
    unfolding take_loop
    take_loop-Counted now k [] p h b = ground arith
    take_loop-Counted now k (i ∷ is) p h b = ground (
      arith,
      take_loop-Counted now k is
          (record p { opening = p.opening - 1; discarded = i.conn ∷ p.discarded }),
    )

    discard-Counted :
        (t : T) (k : ℕ) (p : Pool T)
        → Counted cap (suc k) p
        → ((discard t p).0 ≢ panic) × Counted cap k (discard t p).1
    unfolding discard
    discard-Counted t k p h = ground arith

    park-Counted :
        (now k : ℕ) (c : PooledConn T) (p : Pool T)
        → Counted cap (suc k) p
        → ((park m now c p).0 ≢ panic) × Counted cap k (park m now c p).1
    unfolding park
    park-Counted now k c p h = ground (
      arith,
      length-append p.idle
          (record { conn = c.conn; idle_time = now; created_time = c.created_time } ∷ []),
    )

    length-sweep :
        (now : ℕ) (is : List (IdleConn T))
        → length (sweep m now is).kept + (sweep m now is).removed ≡ length is
    unfolding sweep
    length-sweep now [] = omega arith
    length-sweep now (i ∷ is) = ground (arith, length-sweep now is)

    pub clean-Counted :
        (now k : ℕ) (p : Pool T)
        → Counted cap k p
        → ((clean_idle_conns m now p).0 ≢ panic) × Counted cap k (clean_idle_conns m now p).1
    unfolding clean_idle_conns
    clean-Counted now k p h = ground (arith, length-sweep now p.idle)

    pub put-Counted :
        (now k : ℕ) (alive : ℕ → Bool) (c : PooledConn T) (p : Pool T)
        → p.closed ≡ false
        → Counted cap (suc k) p
        → let r = put m now 1 alive c p in
          (r.0 ≢ panic)
          × Counted cap (if ltb (length p.answers) (length r.1.answers) then suc k else k) r.1
    unfolding put
    put-Counted now k alive c p live h = ground (arith, park-Counted now k c p)

    pub take_idle-Counted :
        (now k : ℕ) (p : Pool T)
        → Counted cap k p
        → ((take_idle m now p).0 ≢ panic)
          × (length (take_idle m now p).1.idle + took (take_idle m now p).0 + k
              ≤ (take_idle m now p).1.opening)
          × ((take_idle m now p).1.opening ≤ cap)
    unfolding take_idle
    take_idle-Counted now k p h = ground (arith, take_loop-Counted now k p.idle p)

    pub length-pick :
        (k : ℕ) (cs : List (PooledConn T)) (c : PooledConn T) (rest : List (PooledConn T))
        → pick k cs ≡ some (c, rest)
        → length cs ≡ suc (length rest)
    unfolding pick
    length-pick k [] c rest e = ground arith
    length-pick zero (x ∷ cs) c rest e = ground arith
    length-pick (suc k) (x ∷ cs) c rest e = elim (Option-cases (pick k cs)) [
      | inl p ↦ ground arith
      | inr ((d, rest'), p) ↦ ground (arith, length-pick k cs d rest' p)
    ]

    closed-take_loop :
        (now : ℕ) (is : List (IdleConn T)) (p : Pool T) → (take_loop m now is p).1.closed ≡ p.closed
    unfolding take_loop
    closed-take_loop now [] p = refl
    closed-take_loop now (i ∷ is) p = ground (
      arith,
      closed-take_loop now is
          (record p { opening = p.opening - 1; discarded = i.conn ∷ p.discarded }),
    )

    pub closed-take : (now : ℕ) (p : Pool T) → (take_idle m now p).1.closed ≡ p.closed
    unfolding take_idle
    closed-take now p = ground (arith, closed-take_loop now p.idle p)

    pub closed-put :
        (now : ℕ) (alive : ℕ → Bool) (c : PooledConn T) (p : Pool T)
        → (put m now 1 alive c p).1.closed ≡ p.closed
    unfolding put
    closed-put now alive c p = ground arith

    pub closed-clean : (now : ℕ) (p : Pool T) → (clean_idle_conns m now p).1.closed ≡ p.closed
    unfolding clean_idle_conns
    closed-clean now p = ground arith

    closed-release_loop :
        (is : List (IdleConn T)) (p : Pool T) → (release_loop m is p).1.closed ≡ p.closed
    unfolding release_loop
    closed-release_loop [] p = refl
    closed-release_loop (i ∷ is) p =
        ground (arith, closed-release_loop is (record p { discarded = i.conn ∷ p.discarded }))

    pub closed-release : (p : Pool T) → (release m p).1.closed ≡ true
    unfolding release
    closed-release p = closed-release_loop p.idle (record p { closed = true })
