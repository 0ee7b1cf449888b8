-- ===== src/Examples/Pooled/Resting.antt =====
-- The pool of examples/pub/pool_producer.rs between the batches, and at the end.
use nsq_async_rs.Base.{
  either, ℕ, ◌+◌, ◌-◌, ◌≤◌, ltb, Bool, true, false, Bool-cases, inl, inr, Option, none, some, List,
  [], ◌∷◌, length, length-append, ◌≡◌, refl, sym, ap, arith,
}
use mathlib.Core.Path.{subst}
use nsq_async_rs.Pool.{
  Pool, IdleConn, PooledConn, Reply, Got, got, waits, new, get, put, release, take_loop, take_idle,
  open_or_wait, after_idle, hand_over, park, discard, life_expired, usable, release_loop,
}
use nsq_async_rs.Pool.Fresh.{take_loop_hit, take_loop_drop, take_idle-take_loop, minus-some}
use nsq_async_rs.Examples.Pooled.{methods}

-- An open pool that nobody waits for, with `k` of its connections lent. It never has more than the three
-- that it began with, and all that were made and are not open were closed.
abbrev pub IsLending : ℕ → Pool ℕ → Type 0
IsLending k p =
    (p.closed ≡ false)
    × (p.waiters ≡ [])
    × (p.opening ≡ k + length p.idle)
    × (p.opening ≤ 3)
    × (p.made ≡ p.opening + length p.discarded)

-- The pool at the end: everything that was ever made is closed.
abbrev pub IsOver : Pool ℕ → Type 0
IsOver p = (p.closed ≡ true) × (p.opening ≡ 0) × (p.idle ≡ []) × (p.made ≡ length p.discarded)

abbrev Taken : Reply (Option (PooledConn ℕ)) × Pool ℕ → Type 0
Taken (Reply.ok none, p) = IsLending 0 p × (p.idle ≡ [])
Taken (Reply.ok (some c), p) = IsLending 1 p
Taken (Reply.err e, p) = ⊥
Taken (Reply.panic, p) = ⊥

abbrev pub Gets : Reply (Got ℕ) × Pool ℕ → Type 0
Gets (Reply.ok (got c), p) = IsLending 1 p
Gets (Reply.ok (waits w), p) = ⊥
Gets (Reply.err e, p) = ⊥
Gets (Reply.panic, p) = ⊥

abbrev pub Rests : (Pool ℕ → Type 0) → Reply (Unit {0}) × Pool ℕ → Type 0
Rests P (Reply.ok u, p) = P p
Rests P (Reply.err e, p) = ⊥
Rests P (Reply.panic, p) = ⊥

take_loop-Taken :
    (now : ℕ) (is : List (IdleConn ℕ)) (p : Pool ℕ)
    → IsLending 0 (record p { idle = is })
    → Taken (take_loop methods now is p)
take_loop-Taken now [] p h = unfold take_loop in (h, refl)
take_loop-Taken now (i ∷ is) p (live, free, count, bound, made) =
    elim (Bool-cases (usable methods now i)) [
      | inl good ↦
          subst Taken (sym (take_loop_hit methods now i is p good))
            (live, free, omega (arith, count), bound, made)
      | inr bad ↦ subst Taken (sym (take_loop_drop methods now i is p bad (omega (arith, count)))) (
          take_loop-Taken now is _
            (live, free, omega (arith, count), omega (arith, bound), omega (arith, count, made)))
    ]

after_idle-Gets :
    (now w : ℕ) (x : Reply (Option (PooledConn ℕ)) × Pool ℕ)
    → Taken x
    → Gets (after_idle methods now w x.0 x.1)
unfolding after_idle
after_idle-Gets now w (Reply.ok none, p) ((live, free, count, bound, made), e) =
    let zero_open : p.opening ≡ 0 = omega (arith, count, ap length e) in
    unfold open_or_wait in
    rw zero_open
      (live, free, omega (arith, ap length e), omega arith, omega (arith, made, zero_open))
after_idle-Gets now w (Reply.ok (some c), p) h = h
after_idle-Gets now w (Reply.err e, p) h = elim h [ ]
after_idle-Gets now w (Reply.panic, p) h = elim h [ ]

pub get-Gets : (now w : ℕ) (p : Pool ℕ) → IsLending 0 p → Gets (get methods now w p)
unfolding get
get-Gets now w p h =
    after_idle-Gets now w (take_idle methods now p)
      (subst Taken (sym (take_idle-take_loop methods now p h.0)) (take_loop-Taken now p.idle p h))

discard_last :
    (c : ℕ) (p : Pool ℕ)
    → 1 ≤ p.opening
    → discard c p ≡ (Reply.ok tt, record p { opening = p.opening - 1; discarded = c ∷ p.discarded })
unfolding discard
discard_last c p h = rw (minus-some methods p.opening 1 h, discard) refl

discard-Rests : (c : ℕ) (p : Pool ℕ) → IsLending 1 p → Rests (IsLending 0) (discard c p)
discard-Rests c p (live, free, count, bound, made) =
    subst (Rests (IsLending 0)) (sym (discard_last c p (omega (arith, count))))
      (live, free, omega (arith, count), omega (arith, bound), omega (arith, count, made))

park-Rests :
    (now : ℕ) (c : PooledConn ℕ) (p : Pool ℕ)
    → IsLending 1 p
    → Rests (IsLending 0) (park methods now c p)
unfolding park
park-Rests now c p h =
    let (live, free, count, bound, made) = h in
    either (Rests (IsLending 0)) (ltb (length p.idle) 5) _ _
      (λ room. (
        live,
        free,
        omega (
          arith,
          count,
          length-append p.idle
              (record { conn = c.conn; idle_time = now; created_time = c.created_time } ∷ []),
        ),
        bound,
        made,
      ))
      (λ full. discard-Rests c.conn p h)

pub put-Rests :
    (now : ℕ) (alive : ℕ → Bool) (c : PooledConn ℕ) (p : Pool ℕ)
    → IsLending 1 p
    → Rests (IsLending 0) (put methods now 1 alive c p)
unfolding put hand_over
put-Rests now alive c p h =
    let P : Reply (Unit {0}) × Pool ℕ → Type 0 = Rests (IsLending 0) in
    either P p.closed _ _ (λ gone. cc)
      (λ live.
        either P (life_expired methods.config now c.created_time) _ _
          (λ old. discard-Rests c.conn p h)
          (λ young.
            subst (λ ws. P (hand_over methods now alive c ws p)) (sym h.1) (park-Rests now c p h)))

release_loop-Rests :
    (is : List (IdleConn ℕ)) (p : Pool ℕ)
    → p.closed ≡ true
    → p.made ≡ length is + length p.discarded
    → Rests IsOver (release_loop methods is p)
unfolding release_loop
release_loop-Rests [] p gone made = (gone, refl, refl, omega (arith, made))
release_loop-Rests (i ∷ is) p gone made =
    release_loop-Rests is (record p { discarded = i.conn ∷ p.discarded }) gone (omega (arith, made))

pub release-Rests : (p : Pool ℕ) → IsLending 0 p → Rests IsOver (release methods p)
unfolding release
release-Rests p (live, free, count, bound, made) =
    release_loop-Rests p.idle (record p { closed = true }) refl (omega (arith, count, made))

pub new-Rests : (now : ℕ) → Rests (IsLending 0) (new methods now)
unfolding new
new-Rests now = (refl, refl, refl, omega arith, refl)
