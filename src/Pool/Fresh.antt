-- ===== src/Pool/Fresh.antt =====
-- What `get` hands out.
use nsq_async_rs.Base.{
  ℕ, suc, ◌+◌, ◌-◌, ◌≤◌, ◌<◌, ◌≡◌, refl, ap, ◌∙◌, sym, leb, true, false, Option, none, some, List,
  [], ◌∷◌, ◌++◌, length, arith, ⊎-cases, inl, inr, append-nil, ◌⊎◌, Bool-cases, Bool, All,
}
use nsq_async_rs.Pool.{
  Methods, Pool, IdleConn, PooledConn, Reply, ok, err, Got, got, waits, take_loop, take_idle,
  idle_expired, life_expired, answers_ping, usable, open_or_wait, get, after_idle, minus, PoolError,
}

module _ {T : Type 0} (m : Methods T) where
  -- Each of the connections fails one of the checks.
  abbrev pub Unusable : ℕ → List (IdleConn T) → Type 0
  Unusable now [] = Unit {0}
  Unusable now (i ∷ is) = (usable m now i ≡ false) × Unusable now is

  -- A connection that is fit to be handed out at a time: not idle for longer than `idle_timeout`, not
  -- older than `max_lifetime`, where these are not 0, and alive to the pinger, if there is one.
  pub record IsFit (now : ℕ) (i : IdleConn T) : Type 0 where
    pub rested : (m.config.idle_timeout ≡ 0) ⊎ (now ≤ i.idle_time + m.config.idle_timeout)
    pub young : (m.config.max_lifetime ≡ 0) ⊎ (now ≤ i.created_time + m.config.max_lifetime)
    pub alive :
        (m.pinger ≡ none) ⊎ ((ping : T → Bool) × (m.pinger ≡ some ping) × (ping i.conn ≡ true))

  -- One that was idle for too long, is too old, or is dead to the pinger.
  abbrev pub IsStale : ℕ → IdleConn T → Type 0
  IsStale now i =
      ((0 < m.config.idle_timeout) × (i.idle_time + m.config.idle_timeout < now))
      ⊎ ((0 < m.config.max_lifetime) × (i.created_time + m.config.max_lifetime < now))
      ⊎ ((ping : T → Bool) × (m.pinger ≡ some ping) × (ping i.conn ≡ false))

  rests : (now : ℕ) (i : IdleConn T) → IsFit now i → idle_expired m.config now i ≡ false
  unfolding idle_expired
  rests now i h = ground (arith, h.rested)

  lives :
      (now : ℕ) (i : IdleConn T) → IsFit now i → life_expired m.config now i.created_time ≡ false
  unfolding life_expired
  lives now i h = ground (arith, h.young)

  answers : (now : ℕ) (i : IdleConn T) → IsFit now i → answers_ping m.pinger i.conn ≡ true
  unfolding answers_ping
  answers now i h = elim h.alive [
    | inl e ↦ rw (e, answers_ping) refl
    | inr (ping, e, well) ↦ rw (e, answers_ping) well
  ]

  usable-IsFit : (now : ℕ) (i : IdleConn T) → IsFit now i → usable m now i ≡ true
  unfolding usable
  usable-IsFit now i h = rw (rests now i h, lives now i h, answers now i h) refl

  usable-IsStale : (now : ℕ) (i : IdleConn T) → IsStale now i → usable m now i ≡ false
  unfolding usable
  usable-IsStale now i (inl (lo, hi)) = unfold idle_expired in ground (arith, lo, hi)
  usable-IsStale now i (inr (inl (lo, hi))) = unfold life_expired in ground (arith, lo, hi)
  usable-IsStale now i (inr (inr (ping, e, ill))) =
      let dead : answers_ping m.pinger i.conn ≡ false =
        unfold answers_ping in rw (e, answers_ping) ill in
      ground (arith, dead)

  Unusable-IsStale : (now : ℕ) (is : List (IdleConn T)) → All (IsStale now) is → Unusable now is
  Unusable-IsStale now [] h = tt
  Unusable-IsStale now (i ∷ is) h = (usable-IsStale now i h.0, Unusable-IsStale now is h.1)

  -- Dropping connections from the front, the last dropped first.
  abbrev pub dropped_onto : List (IdleConn T) → List T → List T
  dropped_onto [] ds = ds
  dropped_onto (i ∷ is) ds = dropped_onto is (i.conn ∷ ds)

  pub minus-some : (n k : ℕ) → k ≤ n → minus n k ≡ some (n - k)
  unfolding minus
  minus-some n k h = ground arith

  -- What the loop leaves of a pool when it has dropped the front of the queue.
  abbrev pub without_front : List (IdleConn T) → Pool T → Pool T
  without_front is p = record p {
    opening = p.opening - length is;
    discarded = dropped_onto is p.discarded;
  }

  pub take_loop_drop :
      (now : ℕ) (i : IdleConn T) (is : List (IdleConn T)) (p : Pool T)
      → usable m now i ≡ false
      → 1 ≤ p.opening
      → take_loop m now (i ∷ is) p
        ≡ take_loop m now is
            (record p { opening = p.opening - 1; discarded = i.conn ∷ p.discarded })
  take_loop_drop now i is p u h =
      unfold take_loop in rw (u, take_loop) (rw (minus-some p.opening 1 h, take_loop))

  take_loop_skip :
      (now : ℕ) (before rest : List (IdleConn T)) (p : Pool T)
      → Unusable now before
      → length before ≤ p.opening
      → take_loop m now (before ++ rest) p ≡ take_loop m now rest (without_front before p)
  take_loop_skip now [] rest p u h =
      ap (λ n. take_loop m now rest (record p { opening = n })) (omega arith)
  take_loop_skip now (i ∷ before) rest p u h =
      take_loop_drop now i (before ++ rest) p u.0 (omega arith)
      ∙ take_loop_skip now before rest
          (record p { opening = p.opening - 1; discarded = i.conn ∷ p.discarded }) u.1 (omega arith)
      ∙ ap
          (λ n.
            take_loop m now rest
              (record p { opening = n; discarded = dropped_onto before (i.conn ∷ p.discarded) }))
          (omega arith)

  pub take_loop_hit :
      (now : ℕ) (i : IdleConn T) (is : List (IdleConn T)) (p : Pool T)
      → usable m now i ≡ true
      → take_loop m now (i ∷ is) p ≡ (
        ok (some (record { conn = i.conn; created_time = i.created_time })),
        record p { idle = is },
      )
  take_loop_hit now i is p u = unfold take_loop in rw (u, take_loop)

  pub take_idle-take_loop :
      (now : ℕ) (p : Pool T) → p.closed ≡ false → take_idle m now p ≡ take_loop m now p.idle p
  unfolding take_idle
  take_idle-take_loop now p live = simp live

  get_phases :
      (now w : ℕ) (p : Pool T)
      → get m now w p ≡ after_idle m now w (take_idle m now p).0 (take_idle m now p).1
  unfolding get
  get_phases now w p = refl

  get-take_loop :
      (now w : ℕ) (p : Pool T) (r : Reply (Option (PooledConn T))) (q : Pool T)
      → p.closed ≡ false
      → take_loop m now p.idle p ≡ (r, q)
      → get m now w p ≡ after_idle m now w r q
  get-take_loop now w p r q live e =
      get_phases now w p ∙ ap (λ x. after_idle m now w x.0 x.1) (take_idle-take_loop now p live ∙ e)

  -- On an open pool, whose count covers what it drops, `get` hands out the first connection of the
  -- queue that is neither idle for longer than `idle_timeout`, nor older than `max_lifetime`, where
  -- these are not 0, nor dead to the pinger, with its time of creation; it drops and counts out those in
  -- front of it, keeps those behind it, and opens nothing.
  pub get_first :
      (now w : ℕ) (p : Pool T) (before after : List (IdleConn T)) (i : IdleConn T)
      → p.closed ≡ false
      → p.idle ≡ before ++ (i ∷ after)
      → All (IsStale now) before
      → IsFit now i
      → length before ≤ p.opening
      → get m now w p ≡ (
        ok (got (record { conn = i.conn; created_time = i.created_time })),
        record (without_front before p) { idle = after },
      )
  get_first now w p before after i live e stale fit h =
      get-take_loop now w p _ _ live (
        ap (λ is. take_loop m now is p) e
        ∙ take_loop_skip now before (i ∷ after) p (Unusable-IsStale now before stale) h
        ∙ take_loop_hit now i after (without_front before p) (usable-IsFit now i fit))
      ∙ unfold after_idle in refl

  -- What `get` comes to when the queue has nothing to offer.
  abbrev pub Opens : ℕ → ℕ → Pool T → Reply (Got T) × Pool T → Type 0
  Opens now w p r =
      ((m.config.max_cap ≤ p.opening) × (r ≡ (ok (waits w), record p { waiters = w ∷ p.waiters })))
      ⊎ ((p.opening < m.config.max_cap)
          × (t : T) × (m.factory p.made ≡ inl t)
          × (r ≡ (
            ok (got (record { conn = t; created_time = now })),
            record p { opening = p.opening + 1; made = suc p.made },
          )))
      ⊎ ((p.opening < m.config.max_cap)
          × (e : PoolError) × (m.factory p.made ≡ inr e)
          × (r ≡ (err e, record p { made = suc p.made })))

  open_or_wait-Opens : (now w : ℕ) (p : Pool T) → Opens now w p (open_or_wait m now w p)
  open_or_wait-Opens now w p = elim (Bool-cases (leb m.config.max_cap p.opening)) [
    | inl full ↦ inl (ground arith, unfold open_or_wait in rw full)
    | inr room ↦ elim (⊎-cases (m.factory p.made)) [
      | inl (t, e) ↦ inr (inl (ground arith, t, e, unfold open_or_wait in rw room (rw e)))
      | inr (x, e) ↦ inr (inr (ground arith, x, e, unfold open_or_wait in rw room (rw e)))
    ]
  ]

  take_loop-none :
      (now : ℕ) (p : Pool T)
      → Unusable now p.idle
      → length p.idle ≤ p.opening
      → take_loop m now p.idle p ≡ (ok none, record (without_front p.idle p) { idle = [] })
  take_loop-none now p u h =
      ap (λ is. take_loop m now is p) (sym (append-nil p.idle))
      ∙ take_loop_skip now p.idle [] p u h
      ∙ unfold take_loop in refl

  get_opens :
      (now w : ℕ) (p : Pool T)
      → p.closed ≡ false
      → Unusable now p.idle
      → length p.idle ≤ p.opening
      → get m now w p ≡ open_or_wait m now w (record (without_front p.idle p) { idle = [] })
  get_opens now w p live u h =
      get-take_loop now w p _ _ live (take_loop-none now p u h) ∙ unfold after_idle in refl

  -- On an open pool whose queue has no usable connection `get` drops and counts out all of them; then
  -- it waits, behind the newest waiter, exactly if the count has reached the maximum, and otherwise
  -- returns a new connection, counted, or the error of the factory with nothing counted.
  get_none :
      (now w : ℕ) (p : Pool T)
      → p.closed ≡ false
      → Unusable now p.idle
      → length p.idle ≤ p.opening
      → Opens now w (record (without_front p.idle p) { idle = [] }) (get m now w p)
  get_none now w p live u h =
      rw (get_opens now w p live u h)
        (open_or_wait-Opens now w (record (without_front p.idle p) { idle = [] }))
