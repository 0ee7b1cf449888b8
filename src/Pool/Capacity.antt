-- ===== src/Pool/Capacity.antt =====
-- The count of open connections: what it bounds, and that it never underflows.
pub mod Phases
use nsq_async_rs.Base.{
  ℕ, zero, suc, ◌+◌, ◌-◌, ◌≤◌, ◌≡◌, ◌≢◌, refl, ltb, if◌then◌else◌, Bool, true, false, Option, some,
  List, [], ◌∷◌, length, length-append, arith, All, Option-cases, ⊎-cases, inl, inr,
}
use nsq_async_rs.Pool.{
  Methods, Pool, IdleConn, PooledConn, Reply, ok, panic, take_loop, take_idle, open_or_wait,
  discard, park, put, release_loop, release, open_initial, add_initial, new, empty,
}
use nsq_async_rs.Pool.Sweep.{sweep, clean_idle_conns}
use nsq_async_rs.Pool.System.{
  System, Event, takes, opens, puts, cleans, releases, pick, returned, step, run, start,
}
use nsq_async_rs.Pool.Capacity.Phases.{
  Counted, IsCounted, clean-Counted, put-Counted, take_idle-Counted, length-pick, closed-take,
  closed-put, closed-clean, closed-release,
}

module _ {T : Type 0} where
  module _ (m : Methods T) (cap lost : ℕ) where
    returned-IsCounted :
        (s : System T) (now : ℕ) (alive : ℕ → Bool) (c : PooledConn T) (rest : List (PooledConn T))
        → length s.lent ≡ suc (length rest)
        → IsCounted cap lost s
        → IsCounted cap lost (returned c rest (put m now 1 alive c s.pool).1 s)
    unfolding returned
    returned-IsCounted s now alive c rest e h = record {
      when_open = λ live. ground (
        arith,
        h.when_open,
        closed-put m cap now alive c s.pool,
        put-Counted m cap now (length rest + lost) alive c s.pool,
      );
    }

    module _ (fits : m.config.max_cap ≤ cap) where
      opens-IsCounted :
          (s : System T) (now w : ℕ)
          → IsCounted cap lost s
          → IsCounted cap lost (step m s (opens now w))
      unfolding step open_or_wait
      opens-IsCounted s now w h = record { when_open = λ live. ground (arith, h.when_open) }

      pub step-IsCounted :
          (s : System T) (e : Event) → IsCounted cap lost s → IsCounted cap lost (step m s e)
      unfolding step
      step-IsCounted s (takes now) h = record {
        when_open = λ live. ground (
          arith,
          h.when_open,
          closed-take m cap now s.pool,
          take_idle-Counted m cap now (length s.lent + lost) s.pool,
        );
      }
      step-IsCounted s (opens now w) h = opens-IsCounted s now w h
      step-IsCounted s (puts now alive k) h = elim (Option-cases (pick k s.lent)) [
        | inl e ↦ rw (e, step) h
        | inr ((c, rest), e) ↦
            rw (e, step)
              (returned-IsCounted s now alive c rest (length-pick m cap k s.lent c rest e) h)
      ]
      step-IsCounted s (cleans now) h = record {
        when_open = λ live. ground (
          arith,
          h.when_open,
          closed-clean m cap now s.pool,
          clean-Counted m cap now (length s.lent + lost) s.pool,
        );
      }
      step-IsCounted s releases h = record { when_open = λ live. cc (closed-release m cap s.pool) }

      run-IsCounted :
          (s : System T) (es : List Event) → IsCounted cap lost s → IsCounted cap lost (run m s es)
      unfolding run
      run-IsCounted s [] h = h
      run-IsCounted s (e ∷ es) h = run-IsCounted (step m s e) es (step-IsCounted s e h)

  module _ (m : Methods T) (cap : ℕ) where
    open_initial-Counted :
        (now n : ℕ) (p : Pool T)
        → p.closed ≡ false
        → length p.idle ≤ p.opening
        → p.opening + n ≤ cap
        → Counted cap 0 (open_initial m now n p).1
    unfolding open_initial
    open_initial-Counted now zero p c h b = omega arith
    open_initial-Counted now (suc n) p c h b = elim (⊎-cases (m.factory p.made)) [
      | inl (t, e) ↦
          rw (e, open_initial)
            (open_initial-Counted now n (add_initial now t p) c
              (omega (
                arith,
                length-append p.idle
                    (record { conn = t; idle_time = now; created_time = now } ∷ []),
              ))
              (omega arith))
      | inr (x, e) ↦ rw (e, open_initial) (omega arith)
    ]

    pub start-IsCounted : (now : ℕ) → m.config.initial_cap ≤ cap → IsCounted cap 0 (start m now)
    unfolding start new
    start-IsCounted now h = record {
      when_open =
          λ _. open_initial-Counted now m.config.initial_cap empty refl (omega arith) (omega arith);
    }

-- However the operations of a pool and of its clients follow one another, as long as the pool is not
-- closed the connections in the queue and those lent are no more than the count of open ones, and
-- that is no more than the larger of the maximal and the initial number.
pub run-start-Counted :
    {T : Type 0} (m : Methods T) (cap now : ℕ) (es : List Event)
    → m.config.max_cap ≤ cap
    → m.config.initial_cap ≤ cap
    → (run m (start m now) es).pool.closed ≡ false
    → Counted cap (length (run m (start m now) es).lent) (run m (start m now) es).pool
run-start-Counted m cap now es hm hi live =
    let h =
      (run-IsCounted m cap 0 hm (start m now) es (start-IsCounted m cap now hi)).when_open live in
    record { held = omega (arith, h.held); capped = h.capped }

-- After any history that leaves the pool open, no method panics: neither `get` on the idle queue, nor
-- the cleaner, nor a client that gives back any of the connections that are lent, so that `*count -= 1`
-- and `*count -= removed` never underflow.
pub run-start-ne-panic :
    {T : Type 0} (m : Methods T) (now : ℕ) (es : List Event) (later : ℕ) (alive : ℕ → Bool)
    → (run m (start m now) es).pool.closed ≡ false
    → let s = run m (start m now) es in
      ((take_idle m later s.pool).0 ≢ panic)
      × ((clean_idle_conns m later s.pool).0 ≢ panic)
      × All (λ c. (put m later 1 alive c s.pool).0 ≢ panic) s.lent
run-start-ne-panic {T} m now es later alive live = (
  (take_idle-Counted m cap later n s.pool h).0,
  (clean-Counted m cap later n s.pool h).0,
  puts_back s.lent h,
)
  where
    cap : ℕ
    cap = m.config.max_cap + m.config.initial_cap

    s : System T
    s = run m (start m now) es

    n : ℕ
    n = length s.lent

    h : Counted cap n s.pool
    h = run-start-Counted m cap now es (omega arith) (omega arith) live

    puts_back :
        (cs : List (PooledConn T))
        → Counted cap (length cs) s.pool
        → All (λ c. (put m later 1 alive c s.pool).0 ≢ panic) cs
    puts_back [] g = tt
    puts_back (c ∷ cs) g = (
      (put-Counted m cap later (length cs) alive c s.pool live g).0,
      puts_back cs (record { held = omega (arith, g.held); capped = g.capped }),
    )
