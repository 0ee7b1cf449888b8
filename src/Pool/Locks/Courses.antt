-- ===== src/Pool/Locks/Courses.antt =====
-- Which course a call of src/pool.rs takes, from the pool that it finds.
use nsq_async_rs.Base.{
  ℕ, suc, ◌-◌, ◌≤◌, ltb, leb, if◌then◌else◌, Bool, false, none, some, List, [], ◌∷◌, length, map,
  take, ◌≡◌, refl, arith,
}
use nsq_async_rs.Pool.{Methods, Pool, PooledConn, IdleConn, usable, life_expired}
use nsq_async_rs.Pool.Locks.{
  Course, turned_away, get_idle, get_waits, get_opens, put_expired, put_hands, put_in_vain,
  put_parks, put_full, Task, finished, Leads, calls,
}
use nsq_async_rs.Pool.Locks.Deadlock.{waits_full, first_of, second_of, clashes_deadlock}

module _ {T : Type 0} (m : Methods T) where
  -- A `get` behind the `n` connections that it has dropped.
  unfoldable pub idle_course : ℕ → ℕ → List (IdleConn T) → ℕ → Course
  unfolding usable
  idle_course now n [] opening = if leb m.config.max_cap opening then get_waits n else get_opens n
  idle_course now n (i ∷ is) opening =
      let later = idle_course now (suc n) is (opening - 1) in
      if usable m now i then get_idle n else later

  unfoldable pub get_course : ℕ → Pool T → Course
  unfolding idle_course
  get_course now p = if p.closed then turned_away else idle_course now 0 p.idle p.opening

  unfoldable pub park_course : PooledConn T → Pool T → Course
  park_course c p =
      if ltb (length p.idle) m.config.max_idle
      then put_parks
      else (elim (m.closer c.conn) [ some e ↦ put_parks | none ↦ put_full ])

  abbrev pub hand_course : (ℕ → Bool) → Course → List ℕ → Course
  hand_course alive parked [] = parked
  hand_course alive parked (w ∷ ws) = if alive w then put_hands else put_in_vain

  unfoldable pub put_course : ℕ → (ℕ → Bool) → PooledConn T → Pool T → Course
  unfolding life_expired park_course
  put_course now alive c p =
      if p.closed
      then turned_away
      else if life_expired m.config now c.created_time
      then put_expired
      else hand_course alive (park_course c p) p.waiters

  -- The pool is not closed, keeps no idle connections and has all open that it may; nobody waits, and a
  -- client has a connection that is young and closes without an error.
  pub record IsFull (now : ℕ) (c : PooledConn T) (p : Pool T) : Type 0 where
    pub not_closed : p.closed ≡ false
    pub no_idle : p.idle ≡ []
    pub nobody : p.waiters ≡ []
    pub keeps_none : m.config.max_idle ≡ 0
    pub all_open : m.config.max_cap ≤ p.opening
    pub young : life_expired m.config now c.created_time ≡ false
    pub closes : m.closer c.conn ≡ none

  get_course_full :
      (now : ℕ) (c : PooledConn T) (p : Pool T) → IsFull now c p → get_course now p ≡ get_waits 0
  unfolding get_course idle_course
  get_course_full now c p h = ground (arith, h.not_closed, h.no_idle, h.all_open)

  park_course_full :
      (now : ℕ) (c : PooledConn T) (p : Pool T) → IsFull now c p → park_course c p ≡ put_full
  unfolding park_course
  park_course_full now c p h = rw h.no_idle (rw h.keeps_none (rw h.closes refl))

  put_course_full :
      (now : ℕ) (alive : ℕ → Bool) (c : PooledConn T) (p : Pool T)
      → IsFull now c p
      → put_course now alive c p ≡ put_full
  unfolding put_course
  put_course_full now alive c p h =
      rw h.not_closed (rw h.young (rw h.nobody (park_course_full now c p h)))

  -- In a pool that keeps no idle connections and has all open that it may, a call that asks for a
  -- connection and one that gives its own back can block each other for good, among any other calls that
  -- run at once: the two can reach a point from which, whatever all of them do then, neither ever ends.
  pub full_pool_deadlocks :
      (now : ℕ) (alive : ℕ → Bool) (c : PooledConn T) (p : Pool T) (cs : List Course)
      (us : List Task)
      → IsFull now c p
      → Leads (first_of (waits_full 0) ∷ second_of (waits_full 0) ∷ calls cs) us
      → Leads
          (calls (get_course now p ∷ put_course now alive c p ∷ cs))
          (first_of (waits_full 0) ∷ second_of (waits_full 0) ∷ calls cs)
        × (map finished (take 2 us) ≡ false ∷ false ∷ [])
  full_pool_deadlocks now alive c p cs us h go = rw (get_course_full now c p h) (
      rw (put_course_full now alive c p h)
        (clashes_deadlock (get_waits 0) put_full cs (waits_full 0) us go))
