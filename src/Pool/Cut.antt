-- ===== src/Pool/Cut.antt =====
-- A `get` of src/pool.rs that is dropped, as by a timeout around it, while it waits for the lock of the
-- count: the connection that it has taken off the queue and closed is not counted out.
use nsq_async_rs.Base.{
  ℕ, zero, suc, ◌+◌, ◌-◌, ◌≤◌, if◌then◌else◌, Bool, true, false, either, List, [], ◌∷◌, length, ◌≡◌,
  ◌≢◌, refl, arith,
}
use nsq_async_rs.Pool.{Methods, Pool, IdleConn, ok, panic, waits, usable, take_idle, open_or_wait}
use nsq_async_rs.Pool.System.{System, Event, step, start}
use nsq_async_rs.Pool.Capacity.{step-IsCounted, start-IsCounted}
use nsq_async_rs.Pool.Capacity.Phases.{IsCounted, take_idle-Counted}

-- A history that also has calls of `get` that are dropped: at the n-th connection that they discard,
-- counted from 0.
pub data Turn : Type 0 where
  goes : Event → Turn
  cuts : ℕ → ℕ → Turn

module _ {T : Type 0} (m : Methods T) where
  -- The loop of `get` up to there: the `Bool` tells whether it came so far. A call that finds a usable
  -- connection first is not cut: it leaves the queue from there on to the next phase.
  unfoldable pub cut_loop : ℕ → ℕ → List (IdleConn T) → Pool T → Bool × Pool T
  unfolding usable
  cut_loop now n [] p = (false, record p { idle = [] })
  cut_loop now zero (i ∷ is) p =
      if usable m now i
      then (false, record p { idle = i ∷ is })
      else (true, record p { idle = is; discarded = i.conn ∷ p.discarded })
  cut_loop now (suc n) (i ∷ is) p =
      let rest =
        cut_loop now n is
          (record p { opening = p.opening - 1; discarded = i.conn ∷ p.discarded }) in
      if usable m now i then (false, record p { idle = i ∷ is }) else rest

  unfoldable pub cut_get : ℕ → ℕ → Pool T → Bool × Pool T
  unfolding cut_loop
  cut_get now n p = if p.closed then (false, p) else cut_loop now n p.idle p

  -- With the number of calls that were cut.
  unfoldable pub turn : System T × ℕ → Turn → System T × ℕ
  unfolding step cut_get
  turn (s, lost) (goes e) = (step m s e, lost)
  turn (s, lost) (cuts now n) =
      let (cut, p) = cut_get now n s.pool in (record s { pool = p }, if cut then suc lost else lost)

  unfoldable pub turns : System T × ℕ → List Turn → System T × ℕ
  unfolding turn
  turns x [] = x
  turns x (t ∷ ts) = turns (turn x t) ts

  module _ (cap : ℕ) where
    abbrev after_cut : ℕ → Bool → ℕ
    after_cut lost cut = if cut then suc lost else lost

    cut_loop-Counted :
        (now n k : ℕ) (is : List (IdleConn T)) (p : Pool T)
        → length is + k ≤ p.opening
        → p.opening ≤ cap
        → let (cut, q) = cut_loop now n is p in
          (length q.idle + after_cut k cut ≤ q.opening) × (q.opening ≤ cap) × (q.closed ≡ p.closed)
    unfolding cut_loop
    cut_loop-Counted now n k [] p h b = (omega arith, b, refl)
    cut_loop-Counted now zero k (i ∷ is) p h b = ground arith
    cut_loop-Counted now (suc n) k (i ∷ is) p h b = ground (
      arith,
      cut_loop-Counted now n k is
          (record p { opening = p.opening - 1; discarded = i.conn ∷ p.discarded }),
    )

    after_cut-plus : (j lost : ℕ) (cut : Bool) → after_cut (j + lost) cut ≡ j + after_cut lost cut
    after_cut-plus j lost true = omega arith
    after_cut-plus j lost false = refl

    cut_get-IsCounted :
        (now n lost : ℕ) (s : System T)
        → IsCounted cap lost s
        → let (cut, p) = cut_get now n s.pool in
          IsCounted cap (after_cut lost cut) (record s { pool = p })
    unfolding cut_get
    cut_get-IsCounted now n lost s h =
        let P : Bool × Pool T → Type 0 =
          λ y. IsCounted cap (after_cut lost y.0) (record s { pool = y.1 }) in
        either P s.pool.closed _ _ (λ gone. h)
          (λ live.
            let k = length s.lent + lost in
            let c = h.when_open live in
            let x = cut_loop now n s.pool.idle s.pool in
            let (held, capped, same) =
              cut_loop-Counted now n k s.pool.idle s.pool c.held c.capped in
            record {
              when_open = λ live'. record {
                held = omega (arith, held, after_cut-plus (length s.lent) lost x.0);
                capped = capped;
              };
            })

    module _ (fits : m.config.max_cap ≤ cap) where
      turn-IsCounted :
          (x : System T × ℕ) (t : Turn)
          → IsCounted cap x.1 x.0
          → IsCounted cap (turn x t).1 (turn x t).0
      unfolding turn
      turn-IsCounted (s, lost) (goes e) h = step-IsCounted m cap lost fits s e h
      turn-IsCounted (s, lost) (cuts now n) h = cut_get-IsCounted now n lost s h

      turns-IsCounted :
          (x : System T × ℕ) (ts : List Turn)
          → IsCounted cap x.1 x.0
          → IsCounted cap (turns x ts).1 (turns x ts).0
      unfolding turns
      turns-IsCounted x [] h = h
      turns-IsCounted x (t ∷ ts) h = turns-IsCounted (turn x t) ts (turn-IsCounted x t h)

waits_when_full :
    {T : Type 0} (m : Methods T) (now w : ℕ) (p : Pool T)
    → m.config.max_cap ≤ p.opening
    → (open_or_wait m now w p).0 ≡ ok (waits w)
unfolding open_or_wait
waits_when_full m now w p h = ground (arith, h)

-- In a pool that does not begin with more connections than it may have (`initial_cap` at most
-- `max_cap`), each `get` that is dropped while it waits to count out a connection takes away one place
-- for good: once there were as many as the pool has places, and as long as it is not closed, no connection is idle
-- and none is lent, and yet every `get` waits. But the count never underflows: a `get` on the idle queue
-- does not panic.
pub cut_gets_starve :
    {T : Type 0} (m : Methods T) (now later w : ℕ) (ts : List Turn)
    → m.config.initial_cap ≤ m.config.max_cap
    → let x = turns m (start m now, 0) ts in
      x.0.pool.closed ≡ false
      → m.config.max_cap ≤ x.1
      → (length x.0.pool.idle ≡ 0)
        × (length x.0.lent ≡ 0)
        × ((open_or_wait m later w x.0.pool).0 ≡ ok (waits w))
        × ((take_idle m later x.0.pool).0 ≢ panic)
cut_gets_starve m now later w ts fits live many =
    let x = turns m (start m now, 0) ts in
    let cap = m.config.max_cap in
    let h =
      (turns-IsCounted m cap (omega arith) (start m now, 0) ts
          (start-IsCounted m cap now fits)).when_open
        live in
    (
      omega (arith, h.held, h.capped, many),
      omega (arith, h.held, h.capped, many),
      waits_when_full m later w x.0.pool (omega (arith, h.held, many)),
      (take_idle-Counted m cap later (length x.0.lent + x.1) x.0.pool h).0,
    )
