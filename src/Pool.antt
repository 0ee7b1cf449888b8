-- ===== src/Pool.antt =====
-- src/pool.rs: the generic connection pool. Each method takes the pool and returns its reply with
-- the new pool; a phase of a method that runs under one lock is a function of its own. Times are
-- nanoseconds on one clock, read once in a phase.
pub mod Locks
pub mod Sweep
pub mod System
pub mod Ledger
pub mod Capacity
pub mod Fresh
pub mod Cut
pub mod Waiters
mod Data
unfoldable pub use Data.*
use nsq_async_rs.Base.{
  ℕ, zero, suc, ◌+◌, ◌-◌, ltb, leb, ◌==◌, if◌then◌else◌, Bool, true, false, not, ◌&&◌, inl, inr,
  Option, none, some, List, [], ◌∷◌, ◌++◌, map, length,
}

-- `*count -= k` on a `usize`; `none` is the panic of an underflow.
unfoldable pub minus : ℕ → ℕ → Option ℕ
minus n k = if ltb n k then none else some (n - k)

unfoldable pub idle_expired : {T : Type 0} → PoolConfig → ℕ → IdleConn T → Bool
idle_expired c now i = ltb 0 c.idle_timeout && ltb c.idle_timeout (now - i.idle_time)

unfoldable pub life_expired : PoolConfig → ℕ → ℕ → Bool
life_expired c now created = ltb 0 c.max_lifetime && ltb c.max_lifetime (now - created)

module _ {T : Type 0} where
  unfoldable pub answers_ping : Option (T → Bool) → T → Bool
  answers_ping none t = true
  answers_ping (some ping) t = ping t

  -- The three checks of `get` on an idle connection; each that fails has the same consequence.
  unfoldable pub usable : Methods T → ℕ → IdleConn T → Bool
  unfolding idle_expired life_expired answers_ping
  usable m now i =
      not (idle_expired m.config now i)
      && not (life_expired m.config now i.created_time)
      && answers_ping m.pinger i.conn

  abbrev pub empty : Pool T
  empty = record {
    idle = [];
    opening = 0;
    closed = false;
    waiters = [];
    made = 0;
    discarded = [];
    answers = [];
  }

  -- Close and drop a connection, whatever the closer says, and count it out.
  unfoldable pub discard : T → Pool T → Reply (Unit {0}) × Pool T
  unfolding minus
  discard t p = elim (minus p.opening 1) [
    | none ↦ (panic, record p { discarded = t ∷ p.discarded })
    | some n ↦ (ok tt, record p { opening = n; discarded = t ∷ p.discarded })
  ]

  -- The answers that `release` sends, to the oldest waiter first.
  unfoldable pub refuse_all : List ℕ → List (ℕ × Answer T) → List (ℕ × Answer T)
  refuse_all ws sent = map (λ w. (w, refused closed)) ws ++ sent

  -- A connection that `Pool::new` opens goes to the back of the queue.
  unfoldable pub add_initial : ℕ → T → Pool T → Pool T
  add_initial now t p = record p {
    idle = p.idle ++ (record { conn = t; idle_time = now; created_time = now } ∷ []);
    opening = p.opening + 1;
    made = suc p.made;
  }

  module _ (m : Methods T) where
    -- The loop of `Pool::new` over the initial connections.
    unfoldable pub open_initial : ℕ → ℕ → Pool T → Reply (Unit {0}) × Pool T
    unfolding add_initial
    open_initial now zero p = (ok tt, p)
    open_initial now (suc n) p = elim (m.factory p.made) [
      | inr e ↦ (err e, record p { made = suc p.made })
      | inl t ↦ open_initial now n (add_initial now t p)
    ]

    unfoldable pub new : ℕ → Reply (Unit {0}) × Pool T
    unfolding open_initial
    new now = open_initial now m.config.initial_cap empty

    -- The `while let` loop of `get` over the idle queue, from the front.
    unfoldable pub take_loop :
        ℕ → List (IdleConn T) → Pool T → Reply (Option (PooledConn T)) × Pool T
    unfolding usable minus
    take_loop now [] p = (ok none, record p { idle = [] })
    take_loop now (i ∷ is) p = elim (usable m now i) [
      | true ↦ (
        ok (some (record { conn = i.conn; created_time = i.created_time })),
        record p { idle = is },
      )
      | false ↦ elim (minus p.opening 1) [
        | none ↦ (panic, record p { idle = is; discarded = i.conn ∷ p.discarded })
        | some n ↦ take_loop now is (record p { opening = n; discarded = i.conn ∷ p.discarded })
      ]
    ]

    -- The first phase of `get`: the check of `closed` and the idle queue.
    unfoldable pub take_idle : ℕ → Pool T → Reply (Option (PooledConn T)) × Pool T
    unfolding take_loop
    take_idle now p = if p.closed then (err closed, p) else take_loop now p.idle p

    -- The second phase, under the lock of the count: a new connection, or a place among the waiters.
    unfoldable pub open_or_wait : ℕ → ℕ → Pool T → Reply (Got T) × Pool T
    open_or_wait now w p =
        if leb m.config.max_cap p.opening
        then (ok (waits w), record p { waiters = w ∷ p.waiters })
        else (elim (m.factory p.made) [
          | inl t ↦ (
            ok (got (record { conn = t; created_time = now })),
            record p { opening = p.opening + 1; made = suc p.made },
          )
          | inr e ↦ (err e, record p { made = suc p.made })
        ])

    unfoldable pub after_idle :
        ℕ → ℕ → Reply (Option (PooledConn T)) → Pool T → Reply (Got T) × Pool T
    unfolding open_or_wait
    after_idle now w (ok none) p = open_or_wait now w p
    after_idle now w (ok (some c)) p = (ok (got c), p)
    after_idle now w (err e) p = (err e, p)
    after_idle now w panic p = (panic, p)

    -- `get`, with nothing between its phases; `w` is the number of the channel, if it comes to wait.
    unfoldable pub get : ℕ → ℕ → Pool T → Reply (Got T) × Pool T
    unfolding take_idle after_idle
    get now w p = let (r, p') = take_idle now p in after_idle now w r p'

    -- The end of `put`, where nobody waits.
    unfoldable pub park : ℕ → PooledConn T → Pool T → Reply (Unit {0}) × Pool T
    unfolding discard
    park now c p =
        if ltb (length p.idle) m.config.max_idle
        then (
          ok tt,
          record p {
            idle =
                p.idle
                ++ (record { conn = c.conn; idle_time = now; created_time = c.created_time } ∷ []);
          },
        )
        else (elim (m.closer c.conn) [
          | some e ↦ (err (close_connection e), record p { discarded = c.conn ∷ p.discarded })
          | none ↦ discard c.conn p
        ])

    -- `conn_reqs.pop()` and what follows it. `alive w` tells whether the receiver `w` still listens.
    unfoldable pub hand_over :
        ℕ → (ℕ → Bool) → PooledConn T → List ℕ → Pool T → Reply (Unit {0}) × Pool T
    unfolding park discard
    hand_over now alive c [] p = park now c p
    hand_over now alive c (w ∷ ws) p =
        if alive w
        then (ok tt, record p { waiters = ws; answers = (w, granted c) ∷ p.answers })
        else discard c.conn (record p { waiters = ws })

    -- `put`; `strong` is the strong count of the connection's `Arc`.
    unfoldable pub put : ℕ → ℕ → (ℕ → Bool) → PooledConn T → Pool T → Reply (Unit {0}) × Pool T
    unfolding life_expired discard hand_over
    put now strong alive c p =
        if strong == 0
        then (err nil_connection, p)
        else if p.closed
        then (ok tt, p)
        else if life_expired m.config now c.created_time
        then discard c.conn p
        else hand_over now alive c p.waiters p

    unfoldable pub release_loop : List (IdleConn T) → Pool T → Reply (Unit {0}) × Pool T
    unfolding refuse_all
    release_loop [] p = (
      ok tt,
      record p { idle = []; waiters = []; answers = refuse_all p.waiters p.answers; opening = 0 },
    )
    release_loop (i ∷ is) p = elim (m.closer i.conn) [
      | some e ↦
          (err (close_connection e), record p { idle = is; discarded = i.conn ∷ p.discarded })
      | none ↦ release_loop is (record p { discarded = i.conn ∷ p.discarded })
    ]

    unfoldable pub release : Pool T → Reply (Unit {0}) × Pool T
    unfolding release_loop
    release p = release_loop p.idle (record p { closed = true })

  -- What a waiting `get` returns when its channel has an answer, or was dropped without one.
  unfoldable pub await_answer : Option (Answer T) → Reply (PooledConn T)
  await_answer none = err max_active_conn_reached
  await_answer (some (granted c)) = ok c
  await_answer (some (refused e)) = err e

  unfoldable pub idle_count : Pool T → ℕ
  idle_count p = length p.idle

  unfoldable pub active_count : Pool T → ℕ
  active_count p = p.opening
