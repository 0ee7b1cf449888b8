-- ===== src/Pool/Ledger.antt =====
-- Where each connection is: no phase of a method loses one or makes one up. A list is weighed by any
-- measure of its connections, so that equal weights for every measure are equal multisets.
use nsq_async_rs.Base.{
  ℕ, zero, suc, ◌+◌, ◌-◌, ◌≡◌, refl, ap, ◌<◌, ltb, if◌then◌else◌, Bool, true, false, Option, some,
  List, [], ◌∷◌, ◌++◌, map, length, arith, Option-cases, ⊎-cases, inl, inr,
}
use nsq_async_rs.Pool.{
  Methods, Pool, IdleConn, PooledConn, Reply, ok, take_loop, take_idle, open_or_wait, discard, park,
  put, release_loop, release, open_initial, add_initial, new, empty,
}
use nsq_async_rs.Pool.Sweep.{sweep, clean_idle_conns}
use nsq_async_rs.Pool.System.{
  System, Event, takes, opens, puts, cleans, releases, pick, returned, step, run, start,
}

abbrev pub weigh {ℓ} : {A : Type ℓ} → (A → ℕ) → List A → ℕ
weigh f [] = 0
weigh f (x ∷ xs) = f x + weigh f xs

weigh-append {ℓ} :
    {A : Type ℓ} (f : A → ℕ) (xs ys : List A) → weigh f (xs ++ ys) ≡ weigh f xs + weigh f ys
weigh-append f [] ys = omega arith
weigh-append f (x ∷ xs) ys = omega (arith, weigh-append f xs ys)

module _ {T : Type 0} (m : Methods T) where
  answers-discard : (t : T) (p : Pool T) → (discard t p).1.answers ≡ p.answers
  unfolding discard
  answers-discard t p = ground arith

  answers-park : (now : ℕ) (c : PooledConn T) (p : Pool T) → (park m now c p).1.answers ≡ p.answers
  unfolding park
  answers-park now c p = ground arith

module _ {T : Type 0} (f : T → ℕ) where
  abbrev of_idle : IdleConn T → ℕ
  of_idle i = f i.conn

  abbrev of_lent : PooledConn T → ℕ
  of_lent c = f c.conn

  -- What a pool holds, and what it has dropped.
  abbrev holdings : Pool T → ℕ
  holdings p = weigh of_idle p.idle + weigh f p.discarded

  abbrev of_taken : Reply (Option (PooledConn T)) → ℕ
  of_taken (ok (some c)) = f c.conn
  of_taken _ = 0

  discard-holdings : (t : T) (p : Pool T) → holdings (discard t p).1 ≡ holdings p + f t
  unfolding discard
  discard-holdings t p = ground arith

  module _ (m : Methods T) where
    take_loop-holdings :
        (now : ℕ) (is : List (IdleConn T)) (p : Pool T)
        → holdings (take_loop m now is p).1 + of_taken (take_loop m now is p).0
          ≡ weigh of_idle is + weigh f p.discarded
    unfolding take_loop
    take_loop-holdings now [] p = omega arith
    take_loop-holdings now (i ∷ is) p = ground (
      arith,
      take_loop-holdings now is
          (record p { opening = p.opening - 1; discarded = i.conn ∷ p.discarded }),
    )

    park-holdings :
        (now : ℕ) (c : PooledConn T) (p : Pool T)
        → holdings (park m now c p).1 ≡ holdings p + f c.conn
    unfolding park
    park-holdings now c p = ground (
      arith,
      discard-holdings c.conn p,
      weigh-append of_idle p.idle
          (record { conn = c.conn; idle_time = now; created_time = c.created_time } ∷ []),
    )

    sweep-holdings :
        (now : ℕ) (is : List (IdleConn T))
        → weigh of_idle (sweep m now is).kept + weigh f (sweep m now is).dropped ≡ weigh of_idle is
    unfolding sweep
    sweep-holdings now [] = refl
    sweep-holdings now (i ∷ is) = ground (arith, sweep-holdings now is)

    clean-holdings : (now : ℕ) (p : Pool T) → holdings (clean_idle_conns m now p).1 ≡ holdings p
    unfolding clean_idle_conns
    clean-holdings now p =
        ground (
          arith,
          sweep-holdings now p.idle,
          weigh-append f (sweep m now p.idle).dropped p.discarded,
        )

    release_loop-holdings :
        (is : List (IdleConn T)) (p : Pool T)
        → holdings (release_loop m is p).1 ≡ weigh of_idle is + weigh f p.discarded
    unfolding release_loop
    release_loop-holdings [] p = omega arith
    release_loop-holdings (i ∷ is) p =
        ground (arith, release_loop-holdings is (record p { discarded = i.conn ∷ p.discarded }))

    put-holdings :
        (now strong : ℕ) (alive : ℕ → Bool) (c : PooledConn T) (p : Pool T)
        → p.closed ≡ false
        → 0 < strong
        → let q = (put m now strong alive c p).1 in
          holdings q + (if ltb (length p.answers) (length q.answers) then f c.conn else 0)
          ≡ holdings p + f c.conn
    unfolding put
    put-holdings now strong alive c p live one =
        ground (arith, park-holdings now c p, discard-holdings c.conn p, answers-park m now c p)

    closed-put :
        (now strong : ℕ) (alive : ℕ → Bool) (c : PooledConn T) (p : Pool T)
        → p.closed ≡ true
        → (put m now strong alive c p).1 ≡ p
    unfolding put
    closed-put now strong alive c p shut = ground arith

    take_idle-holdings :
        (now : ℕ) (p : Pool T)
        → holdings (take_idle m now p).1 + of_taken (take_idle m now p).0 ≡ holdings p
    unfolding take_idle
    take_idle-holdings now p = ground (arith, take_loop-holdings now p.idle p)

    open_initial-holdings :
        (now n : ℕ) (p : Pool T)
        → weigh f (open_initial m now n p).1.discarded ≡ weigh f p.discarded
    unfolding open_initial
    open_initial-holdings now zero p = refl
    open_initial-holdings now (suc n) p = elim (⊎-cases (m.factory p.made)) [
      | inl (t, e) ↦ rw (e, open_initial) (open_initial-holdings now n (add_initial now t p))
      | inr (x, e) ↦ rw (e, open_initial)
    ]

    release-holdings : (p : Pool T) → holdings (release m p).1 ≡ holdings p
    unfolding release
    release-holdings p = release_loop-holdings p.idle (record p { closed = true })

    -- The connections that the factory made are those in the queue, those lent, those dropped and those
    -- leaked, each as often.
    abbrev Balanced : System T → Type 0
    Balanced s = holdings s.pool + weigh of_lent s.lent + weigh f s.leaked ≡ weigh f s.created

    pick-weigh :
        (k : ℕ) (cs : List (PooledConn T)) (c : PooledConn T) (rest : List (PooledConn T))
        → pick k cs ≡ some (c, rest)
        → weigh of_lent cs ≡ f c.conn + weigh of_lent rest
    unfolding pick
    pick-weigh k [] c rest e = ground arith
    pick-weigh zero (x ∷ cs) c rest e = ground arith
    pick-weigh (suc k) (x ∷ cs) c rest e = elim (Option-cases (pick k cs)) [
      | inl p ↦ ground arith
      | inr ((d, rest'), p) ↦ ground (arith, pick-weigh k cs d rest' p)
    ]

    opens-Balanced : (s : System T) (now w : ℕ) → Balanced s → Balanced (step m s (opens now w))
    unfolding step open_or_wait
    opens-Balanced s now w h = ground arith

    returned-Balanced :
        (s : System T) (now : ℕ) (alive : ℕ → Bool) (c : PooledConn T) (rest : List (PooledConn T))
        → weigh of_lent s.lent ≡ f c.conn + weigh of_lent rest
        → Balanced s
        → Balanced (returned c rest (put m now 1 alive c s.pool).1 s)
    unfolding returned
    returned-Balanced s now alive c rest e h =
        ground (arith, put-holdings now 1 alive c s.pool, closed-put now 1 alive c s.pool)

    step-Balanced : (s : System T) (e : Event) → Balanced s → Balanced (step m s e)
    unfolding step
    step-Balanced s (takes now) h = ground (arith, take_idle-holdings now s.pool)
    step-Balanced s (opens now w) h = opens-Balanced s now w h
    step-Balanced s (puts now alive k) h = elim (Option-cases (pick k s.lent)) [
      | inl e ↦ rw (e, step) h
      | inr ((c, rest), e) ↦
          rw (e, step) (returned-Balanced s now alive c rest (pick-weigh k s.lent c rest e) h)
    ]
    step-Balanced s (cleans now) h = ground (arith, clean-holdings now s.pool)
    step-Balanced s releases h = ground (arith, release-holdings s.pool)

    run-Balanced : (s : System T) (es : List Event) → Balanced s → Balanced (run m s es)
    unfolding run
    run-Balanced s [] h = h
    run-Balanced s (e ∷ es) h = run-Balanced (step m s e) es (step-Balanced s e h)

    weigh-map : (is : List (IdleConn T)) → weigh f (map (λ i. i.conn) is) ≡ weigh of_idle is
    weigh-map [] = refl
    weigh-map (i ∷ is) = ap (◌+◌ (f i.conn)) (weigh-map is)

    start-Balanced : (now : ℕ) → Balanced (start m now)
    unfolding start new
    start-Balanced now = omega (
      arith,
      weigh-map (start m now).pool.idle,
      open_initial-holdings now m.config.initial_cap empty,
    )

-- After any history of a pool, with its operations in any order, the connections that the factory
-- made are exactly those in the idle queue, those lent to clients, those dropped by the pool and
-- those leaked, each as often: any measure `f` of connections weighs the two sides alike.
pub run-start-Balanced :
    {T : Type 0} (f : T → ℕ) (m : Methods T) (now : ℕ) (es : List Event)
    → let s = run m (start m now) es in
      weigh (λ i. f i.conn) s.pool.idle
        + weigh f s.pool.discarded
        + weigh (λ c. f c.conn) s.lent
        + weigh f s.leaked
      ≡ weigh f s.created
run-start-Balanced f m now es = run-Balanced f m (start m now) es (start-Balanced f m now)
