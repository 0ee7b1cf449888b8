-- ===== src/Pool/Locks/Progress.antt =====
-- Calls on the pool of src/pool.rs that take its locks in one order come to their end.
use nsq_async_rs.Base.{
  ℕ, zero, suc, ◌<◌, ◌⊎◌, inl, inr, Bool, true, false, List, [], ◌∷◌, All, ◌≡◌, refl, arith,
}
use nsq_async_rs.Pool.Locks.{
  idle_conns, conn_reqs, opening_conns, lock, unlock, Course, turned_away, get_idle, get_waits,
  get_opens, put_expired, put_hands, put_in_vain, put_parks, put_full, cleans, release_fails,
  release_all, idle_count, active_count, briefly, acts, Task, finished, Leads, calls,
}
use nsq_async_rs.Pool.Locks.Order.{
  IsOrdered, work, Leads-ordered, completes, drops-IsOrdered, calls-ordered,
}

-- The calls that do not wait inside `get` and do not release the pool.
abbrev pub unwaited : Course → Bool
unwaited (get_waits n) = false
unwaited release_all = false
unwaited _ = true

-- The calls that neither release the pool nor give back a young connection for which nobody waits.
abbrev pub welcome : Course → Bool
welcome put_parks = false
welcome put_full = false
welcome release_all = false
welcome _ = true

-- `closed`, `conn_reqs`, `idle_conns`, `opening_conns`
abbrev unwaited_order : ℕ → ℕ
unwaited_order zero = 0
unwaited_order (suc zero) = 2
unwaited_order (suc (suc zero)) = 1
unwaited_order _ = 3

-- `closed`, `idle_conns`, `opening_conns`, `conn_reqs`
abbrev welcome_order : ℕ → ℕ
welcome_order zero = 0
welcome_order (suc zero) = 1
welcome_order (suc (suc zero)) = 3
welcome_order _ = 2

module _ (r : ℕ → ℕ) (low : r 0 < r 1) (high : r 1 < r 3) (allowed : Course → Bool)
    (waits : (n : ℕ) → allowed (get_waits n) ≡ true → IsOrdered r [] (acts (get_waits n)))
    (parks : allowed put_parks ≡ true → IsOrdered r [] (acts put_parks))
    (full : allowed put_full ≡ true → IsOrdered r [] (acts put_full))
    (releases : allowed release_all ≡ true → IsOrdered r [] (acts release_all)) where
  -- The courses of which only four depend on the order.
  acts-IsOrdered : (c : Course) → allowed c ≡ true → IsOrdered r [] (acts c)
  unfolding acts
  acts-IsOrdered turned_away e = (tt, refl)
  acts-IsOrdered (get_idle n) e = (tt, (tt, drops-IsOrdered r n (unlock idle_conns ∷ []) high refl))
  acts-IsOrdered (get_waits n) e = waits n e
  acts-IsOrdered (get_opens n) e =
      (tt, (tt, drops-IsOrdered r n (unlock idle_conns ∷ briefly opening_conns) high (tt, refl)))
  acts-IsOrdered put_expired e = (tt, (tt, refl))
  acts-IsOrdered put_hands e = (tt, (tt, refl))
  acts-IsOrdered put_in_vain e = (tt, (tt, (tt, refl)))
  acts-IsOrdered put_parks e = parks e
  acts-IsOrdered put_full e = full e
  acts-IsOrdered cleans e = (tt, (tt, ((high, tt), refl)))
  acts-IsOrdered release_fails e = (tt, ((low, tt), refl))
  acts-IsOrdered release_all e = releases e
  acts-IsOrdered idle_count e = (tt, refl)
  acts-IsOrdered active_count e = (tt, refl)

  All-IsOrdered :
      (cs : List Course) → All (λ c. allowed c ≡ true) cs → All (λ c. IsOrdered r [] (acts c)) cs
  All-IsOrdered [] h = tt
  All-IsOrdered (c ∷ cs) h = (acts-IsOrdered c h.0, All-IsOrdered cs h.1)

unwaited-IsOrdered :
    (cs : List Course)
    → All (λ c. unwaited c ≡ true) cs
    → All (λ c. IsOrdered unwaited_order [] (acts c)) cs
unfolding acts
unwaited-IsOrdered =
    All-IsOrdered unwaited_order (omega arith) (omega arith) unwaited (λ n e. cc)
      (λ e. (tt, (tt, ((omega arith, tt), refl))))
      (λ e. (tt, (tt, ((omega arith, tt), ((omega arith, (omega arith, tt)), refl))))) (λ e. cc)

welcome-IsOrdered :
    (cs : List Course)
    → All (λ c. welcome c ≡ true) cs
    → All (λ c. IsOrdered welcome_order [] (acts c)) cs
unfolding acts
welcome-IsOrdered =
    All-IsOrdered welcome_order (omega arith) (omega arith) welcome
      (λ n e. (
        tt,
        (
          tt,
          drops-IsOrdered welcome_order n
              (unlock idle_conns
                ∷ lock opening_conns
                ∷ lock conn_reqs
                ∷ unlock conn_reqs
                ∷ unlock opening_conns
                ∷ [])
              (omega arith) (tt, ((omega arith, tt), refl)),
        ),
      ))
      (λ e. cc) (λ e. cc) (λ e. cc)

unwaited_low : (i : ℕ) → unwaited_order i < 4
unwaited_low zero = omega arith
unwaited_low (suc zero) = omega arith
unwaited_low (suc (suc zero)) = omega arith
unwaited_low (suc (suc (suc i))) = omega arith

welcome_low : (i : ℕ) → welcome_order i < 4
welcome_low zero = omega arith
welcome_low (suc zero) = omega arith
welcome_low (suc (suc zero)) = omega arith
welcome_low (suc (suc (suc i))) = omega arith

-- Any number of calls on one pool, in any interleaving of the locks that they take: as long as none of
-- them releases the pool, and either no `get` has to wait or no `put` parks or closes a connection
-- because nobody waits for it, the calls cannot block each other. Wherever they have got to, all of them
-- can still come to the end of what they do under locks.
pub calls_complete :
    (cs : List Course) (ts : List Task)
    → All (λ c. unwaited c ≡ true) cs ⊎ All (λ c. welcome c ≡ true) cs
    → Leads (calls cs) ts
    → (us : List Task) × Leads ts us × All (λ t. finished t ≡ true) us
calls_complete cs ts (inl h) l =
    completes unwaited_order 4 unwaited_low (work ts) ts (omega arith)
      (Leads-ordered unwaited_order l (calls-ordered unwaited_order cs (unwaited-IsOrdered cs h)))
calls_complete cs ts (inr h) l =
    completes welcome_order 4 welcome_low (work ts) ts (omega arith)
      (Leads-ordered welcome_order l (calls-ordered welcome_order cs (welcome-IsOrdered cs h)))
