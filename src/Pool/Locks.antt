-- ===== src/Pool/Locks.antt =====
-- The locks of src/pool.rs: which of them a call takes and gives back, in which order, on each of its
-- courses, and how calls that run at once take turns.
pub mod Progress
pub mod Alone
pub mod Order
pub mod Deadlock
pub mod Courses
use nsq_async_rs.Base.{
  ℕ, zero, suc, ◌==◌, if◌then◌else◌, Bool, true, false, ◌||◌, ◌&&◌, not, List, [], ◌∷◌, ◌++◌, map,
  ◌≡◌,
}

-- `closed`, `idle_conns`, `conn_reqs` and `opening_conns`.
pub data Lock : Type 0 where
  closed : Lock
  idle_conns : Lock
  conn_reqs : Lock
  opening_conns : Lock

pub data Act : Type 0 where
  lock : Lock → Act
  unlock : Lock → Act

-- The courses of the methods on a shared pool. `turned_away` is any call that finds the pool closed. A
-- `get` drops the `n` first idle connections, and then takes the next, or opens one or fails to, or
-- waits; what a waiter then waits for is not a lock, and no part of its course. A `put` closes a
-- connection that is too old, hands it to a waiter, who may have gone (`put_in_vain`), parks it or fails
-- to close it (`put_parks`), or closes it (`put_full`). `cleans` is `clean_idle_conns`, with an error or
-- without; `release_fails` is a `release` that meets an error of the closer.
pub data Course : Type 0 where
  turned_away : Course
  get_idle : ℕ → Course
  get_waits : ℕ → Course
  get_opens : ℕ → Course
  put_expired : Course
  put_hands : Course
  put_in_vain : Course
  put_parks : Course
  put_full : Course
  cleans : Course
  release_fails : Course
  release_all : Course
  idle_count : Course
  active_count : Course

abbrev pub briefly : Lock → List Act
briefly l = lock l ∷ unlock l ∷ []

-- The count goes down once for each connection that is dropped.
abbrev pub drops : ℕ → List Act
drops zero = []
drops (suc n) = briefly opening_conns ++ drops n

-- The check of `closed`, and the idle connections that are dropped under their lock.
abbrev pub looks : ℕ → List Act
looks n = briefly closed ++ (lock idle_conns ∷ drops n)

unfoldable pub acts : Course → List Act
acts turned_away = briefly closed
acts (get_idle n) = looks n ++ (unlock idle_conns ∷ [])
acts (get_waits n) =
    looks n
    ++ (unlock idle_conns
        ∷ lock opening_conns
        ∷ lock conn_reqs
        ∷ unlock conn_reqs
        ∷ unlock opening_conns
        ∷ [])
acts (get_opens n) = looks n ++ (unlock idle_conns ∷ briefly opening_conns)
acts put_expired = briefly closed ++ briefly opening_conns
acts put_hands = briefly closed ++ briefly conn_reqs
acts put_in_vain = briefly closed ++ (briefly conn_reqs ++ briefly opening_conns)
acts put_parks =
    briefly closed ++ (lock conn_reqs ∷ lock idle_conns ∷ unlock idle_conns ∷ unlock conn_reqs ∷ [])
acts put_full =
    briefly closed
    ++ (lock conn_reqs
        ∷ lock idle_conns
        ∷ lock opening_conns
        ∷ unlock opening_conns
        ∷ unlock idle_conns
        ∷ unlock conn_reqs
        ∷ [])
acts cleans =
    briefly closed
    ++ (lock idle_conns ∷ lock opening_conns ∷ unlock opening_conns ∷ unlock idle_conns ∷ [])
acts release_fails = lock closed ∷ lock idle_conns ∷ unlock idle_conns ∷ unlock closed ∷ []
acts release_all =
    lock closed
    ∷ lock idle_conns
    ∷ lock conn_reqs
    ∷ lock opening_conns
    ∷ unlock opening_conns
    ∷ unlock conn_reqs
    ∷ unlock idle_conns
    ∷ unlock closed
    ∷ []
acts idle_count = briefly idle_conns
acts active_count = briefly opening_conns

-- A call that runs: the locks that it holds, and what it has still to do.
pub record Task : Type 0 where
  pub held : List Lock
  pub rest : List Act

abbrev pub index : Lock → ℕ
index closed = 0
index idle_conns = 1
index conn_reqs = 2
index opening_conns = 3

abbrev pub holds : Lock → List Lock → Bool
holds l [] = false
holds l (k ∷ ks) = (index l == index k) || holds l ks

abbrev pub give_up : Lock → List Lock → List Lock
give_up l [] = []
give_up l (k ∷ ks) = if index l == index k then ks else k ∷ give_up l ks

-- No call holds the lock.
abbrev pub free : Lock → List Task → Bool
free l [] = true
free l (t ∷ ts) = not (holds l t.held) && free l ts

abbrev none_left : List Act → Bool
none_left [] = true
none_left (a ∷ more) = false

abbrev pub finished : Task → Bool
finished t = none_left t.rest

-- What a call does next, among the calls `ts`: it takes a lock when nobody holds it, itself included.
pub data Moves (ts : List Task) (t : Task) : Task → Type 0 where
  takes :
      (l : Lock) (more : List Act)
      → t.rest ≡ lock l ∷ more
      → free l ts ≡ true
      → Moves ts t (record { held = l ∷ t.held; rest = more })
  gives :
      (l : Lock) (more : List Act)
      → t.rest ≡ unlock l ∷ more
      → Moves ts t (record { held = give_up l t.held; rest = more })

-- One of the calls moves.
pub data OneMoves (ts : List Task) : List Task → List Task → Type 0 where
  here : {t t' : Task} {us : List Task} → Moves ts t t' → OneMoves ts (t ∷ us) (t' ∷ us)
  there : {t : Task} {us us' : List Task} → OneMoves ts us us' → OneMoves ts (t ∷ us) (t ∷ us')

-- The calls go on, in any order.
pub data Leads : List Task → List Task → Type 0 where
  done : (ts : List Task) → Leads ts ts
  next : {ts us vs : List Task} → OneMoves ts ts us → Leads us vs → Leads ts vs

-- Calls at their beginning.
abbrev pub calls : List Course → List Task
calls = map (λ c. record { held = []; rest = acts c })
