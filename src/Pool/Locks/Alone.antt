-- ===== src/Pool/Locks/Alone.antt =====
-- A call on the pool of src/pool.rs that goes on while the others stand.
use nsq_async_rs.Base.{Bool, true, false, ◌&&◌, not, List, [], ◌∷◌, ◌++◌, ◌≡◌, refl, arith}
use nsq_async_rs.Pool.Locks.{
  Lock, Act, lock, unlock, Course, Task, holds, give_up, free, Moves, takes, gives, OneMoves, here,
  there, Leads, done, next, calls,
}

pub Leads-then : {ts us vs : List Task} → Leads ts us → Leads us vs → Leads ts vs
Leads-then (done ts) k = k
Leads-then (next m l) k = next m (Leads-then l k)

free-calls : (l : Lock) (cs : List Course) → free l (calls cs) ≡ true
free-calls l [] = refl
free-calls l (c ∷ cs) = free-calls l cs

-- A task in the place behind others.
abbrev pub among : List Task → List Task → Task → List Task
among pre post t = pre ++ (t ∷ post)

Moves-among :
    (ts pre post : List Task) (t t' : Task)
    → Moves ts t t'
    → OneMoves ts (among pre post t) (among pre post t')
Moves-among ts [] post t t' m = here m
Moves-among ts (p ∷ pre) post t t' m = there (Moves-among ts pre post t t' m)

free-among :
    (l : Lock) (pre : List Task) (cs : List Course) (t : Task)
    → free l pre ≡ true
    → holds l t.held ≡ false
    → free l (among pre (calls cs) t) ≡ true
free-among l [] cs t e h = ground (arith, h, free-calls l cs)
free-among l (p ∷ pre) cs t e h = ground (arith, e, free-among l pre cs t (ground (arith, e)) h)

-- Whether a call that holds some locks can do some acts while the others stand, and what it then holds.
abbrev pub goes : List Task → List Lock → List Act → Bool
goes pre held [] = true
goes pre held (lock l ∷ more) = (free l pre && not (holds l held)) && goes pre (l ∷ held) more
goes pre held (unlock l ∷ more) = goes pre (give_up l held) more

abbrev pub after : List Lock → List Act → List Lock
after held [] = held
after held (lock l ∷ more) = after (l ∷ held) more
after held (unlock l ∷ more) = after (give_up l held) more

pub alone :
    (pre : List Task) (cs : List Course) (held : List Lock) (some_acts more : List Act)
    → goes pre held some_acts ≡ true
    → Leads
        (among pre (calls cs) (record { held = held; rest = some_acts ++ more }))
        (among pre (calls cs) (record { held = after held some_acts; rest = more }))
alone pre cs held [] more h = done _
alone pre cs held (unlock l ∷ as') more h =
    next (Moves-among _ pre (calls cs) _ _ (gives l (as' ++ more) refl))
      (alone pre cs (give_up l held) as' more h)
alone pre cs held (lock l ∷ as') more h =
    next
      (Moves-among _ pre (calls cs) _ _ (
        takes l (as' ++ more) refl (free-among l pre cs _ (ground (arith, h)) (ground (arith, h)))))
      (alone pre cs (l ∷ held) as' more (ground (arith, h)))
