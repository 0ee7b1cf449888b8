-- ===== src/Pool/Locks/Order.antt =====
-- Tasks that take locks in one order come to their end.
use nsq_async_rs.Base.{
  ℕ, zero, suc, ◌+◌, ◌≤◌, ◌<◌, ◌==◌, ==_iff, ◌⊎◌, inl, inr, true, false, Bool-cases, List, [], ◌∷◌,
  ◌++◌, length, All, ◌≡◌, refl, sym, arith,
}
use mathlib.Core.Path.{subst}
use nsq_async_rs.Pool.Locks.{
  Lock, idle_conns, Act, lock, unlock, Course, drops, acts, Task, index, holds, give_up, free,
  finished, Moves, takes, gives, OneMoves, here, there, Leads, done, next, calls,
}

-- With `r` as the order: each lock that is taken is above all that are held, and in the end none is held.
abbrev pub IsOrdered : (ℕ → ℕ) → List Lock → List Act → Type 0
IsOrdered r held [] = held ≡ []
IsOrdered r held (lock l ∷ more) =
    All (λ k. r (index k) < r (index l)) held × IsOrdered r (l ∷ held) more
IsOrdered r held (unlock l ∷ more) = IsOrdered r (give_up l held) more

abbrev TaskOrdered : (ℕ → ℕ) → Task → Type 0
TaskOrdered r t = IsOrdered r t.held t.rest

abbrev pub work : List Task → ℕ
work [] = 0
work (t ∷ ts) = length t.rest + work ts

abbrev Enabled : List Task → List Task → Type 0
Enabled ts us = (us' : List Task) × OneMoves ts us us'

module _ (r : ℕ → ℕ) where
  Moves-ordered :
      {ts : List Task} {t t' : Task} → Moves ts t t' → TaskOrdered r t → TaskOrdered r t'
  Moves-ordered {ts} {t} (takes l more e f) h = (subst (IsOrdered r t.held) e h).1
  Moves-ordered {ts} {t} (gives l more e) h = subst (IsOrdered r t.held) e h

  OneMoves-ordered :
      {ts us us' : List Task}
      → OneMoves ts us us'
      → All (TaskOrdered r) us
      → All (TaskOrdered r) us'
  OneMoves-ordered (here m) h = (Moves-ordered m h.0, h.1)
  OneMoves-ordered (there m) h = (h.0, OneMoves-ordered m h.1)

  pub Leads-ordered :
      {ts us : List Task} → Leads ts us → All (TaskOrdered r) ts → All (TaskOrdered r) us
  Leads-ordered (done ts) h = h
  Leads-ordered (next m l) h = Leads-ordered l (OneMoves-ordered m h)

  OneMoves-work : {ts us us' : List Task} → OneMoves ts us us' → work us ≡ suc (work us')
  OneMoves-work (here (takes l more e f)) = rw e (omega arith)
  OneMoves-work (here (gives l more e)) = rw e (omega arith)
  OneMoves-work (there m) = omega (arith, OneMoves-work m)

  -- One who holds a lock that is not free.
  holder :
      (l : Lock) (ts us : List Task)
      → All (TaskOrdered r) us
      → free l us ≡ false
      → (t : Task) × (holds l t.held ≡ true)
        × TaskOrdered r t
        × ((t' : Task) → Moves ts t t' → Enabled ts us)
  holder l ts [] h e = cc
  holder l ts (u ∷ us) h e = elim (Bool-cases (holds l u.held)) [
    | inl held ↦ (u, held, h.0, λ t' m. (t' ∷ us, here m))
    | inr not_held ↦
        let (t, held, o, go) = holder l ts us h.1 (ground (arith, e, not_held)) in
        (t, held, o, λ t' m. (u ∷ (go t' m).0, there (go t' m).1))
  ]

  below_held :
      (l : Lock) (held : List Lock) (n : ℕ)
      → holds l held ≡ true
      → All (λ k. r (index k) < n) held
      → r (index l) < n
  below_held l [] n e h = cc
  below_held l (k ∷ ks) n e h = elim (Bool-cases (index l == index k)) [
    | inl same ↦ subst (λ i. r i < n) (sym ((==_iff (index l) (index k)).0 same)) h.0
    | inr differ ↦ below_held l ks n (ground (arith, e, differ)) h.1
  ]

  -- One who holds a lock moves, or waits for a higher one.
  holder-Moves :
      (ts : List Task) (l : Lock) (more : List Act) (t : Task)
      → t.rest ≡ more
      → holds l t.held ≡ true
      → TaskOrdered r t
      → ((t' : Task) → Moves ts t t' → Enabled ts ts)
      → ((l' : Lock) → r (index l) < r (index l') → free l' ts ≡ false → Enabled ts ts)
      → Enabled ts ts
  holder-Moves ts l [] t e held o go wait =
      let none_held : t.held ≡ [] = subst (IsOrdered r t.held) e o in
      absurd (ground (arith, held, none_held))
  holder-Moves ts l (unlock l' ∷ more) t e held o go wait = go _ (gives l' more e)
  holder-Moves ts l (lock l' ∷ more) t e held o go wait = elim (Bool-cases (free l' ts)) [
    | inl is_free ↦ go _ (takes l' more e is_free)
    | inr taken ↦
        wait l' (below_held l t.held (r (index l')) held (subst (IsOrdered r t.held) e o).0) taken
  ]

  module _ (limit : ℕ) (bound : (i : ℕ) → r i < limit) where
    -- Of those who wait for a lock, one that waits for the highest can go on.
    waiter_moves :
        (ts : List Task) (k : ℕ) (l : Lock)
        → All (TaskOrdered r) ts
        → limit ≤ r (index l) + k
        → free l ts ≡ false
        → Enabled ts ts
    waiter_moves ts zero l h far e = absurd (omega (arith, bound (index l)))
    waiter_moves ts (suc k) l h far e =
        let (t, held, o, go) = holder l ts ts h e in
        holder-Moves ts l t.rest t refl held o go
          (λ l' above taken. waiter_moves ts k l' h (omega (arith, above, far)) taken)

    task-Moves :
        (ts : List Task) (more : List Act) (t : Task)
        → All (TaskOrdered r) ts
        → t.rest ≡ more
        → ((t' : Task) → Moves ts t t' → Enabled ts ts)
        → (finished t ≡ true) ⊎ Enabled ts ts
    task-Moves ts [] t h e go = inl (rw e refl)
    task-Moves ts (unlock l ∷ more) t h e go = inr (go _ (gives l more e))
    task-Moves ts (lock l ∷ more) t h e go = inr (elim (Bool-cases (free l ts)) [
      | inl is_free ↦ go _ (takes l more e is_free)
      | inr taken ↦ waiter_moves ts limit l h (omega arith) taken
    ])

    some_moves :
        (ts us : List Task)
        → All (TaskOrdered r) ts
        → ((us' : List Task) → OneMoves ts us us' → Enabled ts ts)
        → All (λ t. finished t ≡ true) us ⊎ Enabled ts ts
    some_moves ts [] h go = inl tt
    some_moves ts (u ∷ us) h go =
        elim (task-Moves ts u.rest u h refl (λ t' m. go (t' ∷ us) (here m))) [
          | inr able ↦ inr able
          | inl fin ↦ elim (some_moves ts us h (λ us' m. go (u ∷ us') (there m))) [
            | inr able ↦ inr able
            | inl fins ↦ inl (fin, fins)
          ]
        ]

    pub completes :
        (n : ℕ) (ts : List Task)
        → work ts ≤ n
        → All (TaskOrdered r) ts
        → (us : List Task) × Leads ts us × All (λ t. finished t ≡ true) us
    completes zero ts small h = elim (some_moves ts ts h (λ us m. (us, m))) [
      | inl fins ↦ (ts, done ts, fins)
      | inr (us, m) ↦ absurd (omega (arith, OneMoves-work m, small))
    ]
    completes (suc n) ts small h = elim (some_moves ts ts h (λ us m. (us, m))) [
      | inl fins ↦ (ts, done ts, fins)
      | inr (us, m) ↦
          let (vs, l, fins) =
            completes n us (omega (arith, OneMoves-work m, small)) (OneMoves-ordered m h) in
          (vs, next m l, fins)
    ]

  -- The drops of a `get`, under the lock of the idle connections.
  pub drops-IsOrdered :
      (n : ℕ) (more : List Act)
      → r 1 < r 3
      → IsOrdered r (idle_conns ∷ []) more
      → IsOrdered r (idle_conns ∷ []) (drops n ++ more)
  drops-IsOrdered zero more lt h = h
  drops-IsOrdered (suc n) more lt h = ((lt, tt), drops-IsOrdered n more lt h)

  pub calls-ordered :
      (cs : List Course) → All (λ c. IsOrdered r [] (acts c)) cs → All (TaskOrdered r) (calls cs)
  calls-ordered [] h = tt
  calls-ordered (c ∷ cs) h = (h.0, calls-ordered cs h.1)
