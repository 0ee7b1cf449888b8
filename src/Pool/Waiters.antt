-- ===== src/Pool/Waiters.antt =====
-- Who waits, who is served, and what `put` and `release` do to those who wait.
use nsq_async_rs.Base.{
  ℕ, ◌≤◌, ◌<◌, ◌≡◌, refl, ap, ◌∙◌, sym, Bool, true, false, none, some, List, [], ◌∷◌, ◌++◌, arith,
  append-nil,
}
use nsq_async_rs.Base.Octets.{Bytes}
use nsq_async_rs.Pool.{
  Methods, Pool, IdleConn, PooledConn, ok, err, life_expired, close_connection, take_idle,
  open_or_wait, discard, put, refuse_all, release_loop, release, granted, Answer,
}
use nsq_async_rs.Pool.Fresh.{dropped_onto}
use nsq_async_rs.Pool.System.{System, Event, takes, opens, puts, step, run}

module _ {T : Type 0} (m : Methods T) where
  -- A round in which a client comes to wait and the holder of the first lent connection gives it back.
  abbrev round : ℕ → ℕ → List Event → List Event
  round now w es = opens now w ∷ puts now (λ _. true) 0 ∷ es

  abbrev pub rounds : ℕ → List ℕ → List Event
  rounds now [] = []
  rounds now (w ∷ ws) = round now w (rounds now ws)

  -- A pool at its maximum, with a connection lent that has not outlived its time.
  pub record IsBusy (now : ℕ) (c : PooledConn T) (s : System T) : Type 0 where
    pub live : s.pool.closed ≡ false
    pub full : m.config.max_cap ≤ s.pool.opening
    pub young : life_expired m.config now c.created_time ≡ false
    pub rest : List (PooledConn T)
    pub held : s.lent ≡ c ∷ rest

  -- After one round the newcomer holds the connection, and nothing else has changed.
  served : ℕ → PooledConn T → System T → System T
  served w c s = record s { pool = record s.pool { answers = (w, granted c) ∷ s.pool.answers } }

  round-served :
      (now w : ℕ) (c : PooledConn T) (s : System T)
      → IsBusy now c s
      → step m (step m s (opens now w)) (puts now (λ _. true) 0) ≡ served w c s
  unfolding step served open_or_wait put
  round-served now w c s h = ground (arith, h.live, h.full, h.young, h.held)

  served-IsBusy :
      (now w : ℕ) (c : PooledConn T) (s : System T) → IsBusy now c s → IsBusy now c (served w c s)
  unfolding served
  served-IsBusy now w c s h = record {
    live = h.live;
    full = h.full;
    young = h.young;
    rest = h.rest;
    held = h.held;
  }

  waiters-rounds :
      (now : ℕ) (ws : List ℕ) (c : PooledConn T) (s : System T)
      → IsBusy now c s
      → (run m s (rounds now ws)).pool.waiters ≡ s.pool.waiters
  unfolding run
  waiters-rounds now [] c s h = refl
  waiters-rounds now (w ∷ ws) c s h =
      ap (λ t. (run m t (rounds now ws)).pool.waiters) (round-served now w c s h)
      ∙ waiters-rounds now ws c (served w c s) (served-IsBusy now w c s h)
      ∙ unfold served in refl

  abbrev pub grants : PooledConn T → List ℕ → List (ℕ × Answer T) → List (ℕ × Answer T)
  grants c [] sent = sent
  grants c (w ∷ ws) sent = grants c ws ((w, granted c) ∷ sent)

  answers-rounds :
      (now : ℕ) (ws : List ℕ) (c : PooledConn T) (s : System T)
      → IsBusy now c s
      → (run m s (rounds now ws)).pool.answers ≡ grants c ws s.pool.answers
  unfolding run
  answers-rounds now [] c s h = refl
  answers-rounds now (w ∷ ws) c s h =
      ap (λ t. (run m t (rounds now ws)).pool.answers) (round-served now w c s h)
      ∙ answers-rounds now ws c (served w c s) (served-IsBusy now w c s h)
      ∙ unfold served in refl

  -- Waiters are served newest first: while a pool is at its maximum, and each newcomer that waits is
  -- followed by one connection given back, every newcomer is served and nobody who waited before is,
  -- however many rounds there are.
  rounds_overtake :
      (now : ℕ) (ws : List ℕ) (c : PooledConn T) (s : System T)
      → IsBusy now c s
      → ((run m s (rounds now ws)).pool.answers ≡ grants c ws s.pool.answers)
        × ((run m s (rounds now ws)).pool.waiters ≡ s.pool.waiters)
  rounds_overtake now ws c s h = (answers-rounds now ws c s h, waiters-rounds now ws c s h)

  -- A connection that has outlived its time is counted out, and nobody who waits hears of the place
  -- that this leaves: `put` answers no one, and the waiters stay as they are below the maximum.
  put_expired :
      (now : ℕ) (alive : ℕ → Bool) (c : PooledConn T) (p : Pool T)
      → p.closed ≡ false
      → life_expired m.config now c.created_time ≡ true
      → 0 < p.opening
      → p.opening ≤ m.config.max_cap
      → let q = (put m now 1 alive c p).1 in
        (q.opening < m.config.max_cap) × (q.waiters ≡ p.waiters) × (q.answers ≡ p.answers)
  unfolding put discard
  put_expired now alive c p live old some_open capped = ground arith

  -- If a connection is given back between the two phases of a `get`, the `get` waits although the
  -- queue now holds a connection: for a pool at its maximum with an empty queue and no waiters.
  get_misses :
      (now w : ℕ) (c : PooledConn T) (s : System T)
      → IsBusy now c s
      → s.pool.idle ≡ []
      → s.pool.waiters ≡ []
      → 0 < m.config.max_idle
      → let q = (run m s (takes now ∷ puts now (λ _. true) 0 ∷ opens now w ∷ [])).pool in
        (q.waiters ≡ w ∷ [])
        × (q.idle ≡ record { conn = c.conn; idle_time = now; created_time = c.created_time } ∷ [])
        × (q.answers ≡ s.pool.answers)
  unfolding run step take_idle put open_or_wait
  get_misses now w c s h e n room = ground (arith, h.live, h.full, h.young, h.held)

  -- Each of the connections is closed without an error.
  abbrev pub Closable : List (IdleConn T) → Type 0
  Closable [] = Unit {0}
  Closable (i ∷ is) = (m.closer i.conn ≡ none) × Closable is

  release_loop_next :
      (i : IdleConn T) (is : List (IdleConn T)) (p : Pool T)
      → m.closer i.conn ≡ none
      → release_loop m (i ∷ is) p
        ≡ release_loop m is (record p { discarded = i.conn ∷ p.discarded })
  unfolding release_loop
  release_loop_next i is p h = rw (h, release_loop)

  release_loop_fails :
      (i : IdleConn T) (is : List (IdleConn T)) (p : Pool T) (e : Bytes)
      → m.closer i.conn ≡ some e
      → release_loop m (i ∷ is) p
        ≡ (err (close_connection e), record p { idle = is; discarded = i.conn ∷ p.discarded })
  unfolding release_loop
  release_loop_fails i is p e h = rw (h, release_loop)

  release_loop_skip :
      (before rest : List (IdleConn T)) (p : Pool T)
      → Closable before
      → release_loop m (before ++ rest) p
        ≡ release_loop m rest (record p { discarded = dropped_onto m before p.discarded })
  release_loop_skip [] rest p h = refl
  release_loop_skip (i ∷ before) rest p h =
      release_loop_next i (before ++ rest) p h.0
      ∙ release_loop_skip before rest (record p { discarded = i.conn ∷ p.discarded }) h.1

  -- `release` closes every connection of the queue, from the front, tells everyone who waits that the
  -- pool is closed, and sets the count to 0.
  release_all :
      (p : Pool T)
      → Closable p.idle
      → release m p ≡ (
        ok tt,
        record p {
          idle = [];
          opening = 0;
          closed = true;
          waiters = [];
          discarded = dropped_onto m p.idle p.discarded;
          answers = refuse_all p.waiters p.answers;
        },
      )
  unfolding release
  release_all p h =
      ap (λ is. release_loop m is (record p { closed = true })) (sym (append-nil p.idle))
      ∙ release_loop_skip p.idle [] (record p { closed = true }) h
      ∙ unfold release_loop in refl

  -- The first connection that fails to close stops `release`: the pool is closed, but those behind it
  -- stay open in the queue, and no one who waits gets an answer.
  release_stops :
      (p : Pool T) (before after : List (IdleConn T)) (i : IdleConn T) (e : Bytes)
      → p.idle ≡ before ++ (i ∷ after)
      → Closable before
      → m.closer i.conn ≡ some e
      → release m p ≡ (
        err (close_connection e),
        record p {
          idle = after;
          closed = true;
          discarded = i.conn ∷ dropped_onto m before p.discarded;
        },
      )
  unfolding release
  release_stops p before after i e s h f =
      ap (λ is. release_loop m is (record p { closed = true })) s
      ∙ release_loop_skip before (i ∷ after) (record p { closed = true }) h
      ∙ release_loop_fails i after _ e f
