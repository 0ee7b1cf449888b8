-- ===== src/Pool/Locks/Deadlock.antt =====
-- Calls on the pool of src/pool.rs that block each other for good.
use nsq_async_rs.Base.{
  ℕ, zero, suc, true, false, List, [], ◌∷◌, ◌++◌, map, take, append_assoc, ◌≡◌, refl, sym, arith,
}
use mathlib.Core.Path.{subst}
use nsq_async_rs.Pool.Locks.{
  Lock, closed, idle_conns, conn_reqs, opening_conns, Act, lock, unlock, Course, get_waits,
  put_parks, put_full, release_all, briefly, drops, looks, acts, Task, holds, free, finished, Moves,
  takes, gives, OneMoves, here, there, Leads, done, next, calls,
}
use nsq_async_rs.Pool.Locks.Alone.{Leads-then, goes, after, alone}

-- The first two hold what the other waits for.
pub record Stuck (l k : Lock) (t u : Task) : Type 0 where
  pub wants : List Act
  pub also : List Act
  pub first : t.rest ≡ lock l ∷ wants
  pub second : u.rest ≡ lock k ∷ also
  pub held_first : holds k t.held ≡ true
  pub held_second : holds l u.held ≡ true

-- A call that wants a lock which is not free does not move.
Moves-waits :
    {C : Type 0} {ts : List Task} {t t' : Task} (l : Lock) (more : List Act)
    → t.rest ≡ lock l ∷ more
    → free l ts ≡ false
    → Moves ts t t'
    → C
Moves-waits {ts} {t} l more e taken (takes l' more' e' is_free) = cc
Moves-waits {ts} {t} l more e taken (gives l' more' e') = cc

Stuck-stays :
    {l k : Lock} {t u : Task} {us vs : List Task}
    → Stuck l k t u
    → OneMoves (t ∷ u ∷ us) (t ∷ u ∷ us) vs
    → (us' : List Task) × (vs ≡ t ∷ u ∷ us')
Stuck-stays {l} {k} {t} {u} {us} s (here m) =
    Moves-waits l s.wants s.first (ground (arith, s.held_second)) m
Stuck-stays {l} {k} {t} {u} {us} s (there (here m)) =
    Moves-waits k s.also s.second (ground (arith, s.held_first)) m
Stuck-stays s (there (there m)) = (_, refl)

Stuck-for_good :
    {l k : Lock} {t u : Task} {ts us vs : List Task}
    → Stuck l k t u
    → ts ≡ t ∷ u ∷ us
    → Leads ts vs
    → (us' : List Task) × (vs ≡ t ∷ u ∷ us')
Stuck-for_good {us} s e (done ts) = (us, e)
Stuck-for_good {l} {k} {t} {u} {ts} {us} {vs} s e (next {us = ws} m rest) =
    let (us', e') = Stuck-stays s (subst (λ x. OneMoves x x ws) e m) in Stuck-for_good s e' rest

abbrev waiting_rest : List Act
waiting_rest = lock conn_reqs ∷ unlock conn_reqs ∷ unlock opening_conns ∷ []

abbrev release_rest : List Act
release_rest =
    lock conn_reqs
    ∷ lock opening_conns
    ∷ unlock opening_conns
    ∷ unlock conn_reqs
    ∷ unlock idle_conns
    ∷ unlock closed
    ∷ []

-- The pairs of courses that can block each other.
pub data Clash : Course → Course → Type 0 where
  waits_full : (n : ℕ) → Clash (get_waits n) put_full
  waits_release : (n : ℕ) → Clash (get_waits n) release_all
  parks_release : Clash put_parks release_all
  full_release : Clash put_full release_all

-- A task in the middle of its course.
abbrev at : List Lock → List Act → Task
at held more = record { held = held; rest = more }

-- What the two then hold, and what each has still to do.
abbrev pub first_of : {c d : Course} → Clash c d → Task
first_of (waits_full n) = at (opening_conns ∷ []) waiting_rest
first_of (waits_release n) = at (opening_conns ∷ []) waiting_rest
first_of parks_release =
    at (conn_reqs ∷ []) (lock idle_conns ∷ unlock idle_conns ∷ unlock conn_reqs ∷ [])
first_of full_release = at (conn_reqs ∷ []) (
    lock idle_conns
    ∷ lock opening_conns
    ∷ unlock opening_conns
    ∷ unlock idle_conns
    ∷ unlock conn_reqs
    ∷ [])

abbrev pub second_of : {c d : Course} → Clash c d → Task
second_of (waits_full n) =
    at (idle_conns ∷ conn_reqs ∷ [])
      (lock opening_conns ∷ unlock opening_conns ∷ unlock idle_conns ∷ unlock conn_reqs ∷ [])
second_of (waits_release n) = at (conn_reqs ∷ idle_conns ∷ closed ∷ []) (
    lock opening_conns
    ∷ unlock opening_conns
    ∷ unlock conn_reqs
    ∷ unlock idle_conns
    ∷ unlock closed
    ∷ [])
second_of parks_release = at (idle_conns ∷ closed ∷ []) release_rest
second_of full_release = at (idle_conns ∷ closed ∷ []) release_rest

-- Two calls, one after the other, up to where each has still `m` and `w` to do.
reach :
    (c d : Course) (cs : List Course) (a m b w : List Act) (h h' : List Lock)
    → acts c ≡ a ++ m
    → goes [] [] a ≡ true
    → after [] a ≡ h
    → acts d ≡ b ++ w
    → goes (record { held = h; rest = m } ∷ []) [] b ≡ true
    → after [] b ≡ h'
    → Leads
        (calls (c ∷ d ∷ cs))
        (record { held = h; rest = m } ∷ record { held = h'; rest = w } ∷ calls cs)
reach c d cs a m b w h h' ec ga aa ed gb ab =
    let start : List Act → List Act → List Task =
      λ x y. record { held = []; rest = x } ∷ record { held = []; rest = y } ∷ calls cs in
    let t : Task = record { held = h; rest = m } in
    subst (λ x. Leads (start x (acts d)) (t ∷ record { held = h'; rest = w } ∷ calls cs)) (sym ec)
      (Leads-then
        (subst
          (λ x. Leads (start (a ++ m) (acts d)) (record { held = x; rest = m } ∷ calls (d ∷ cs))) aa
          (alone [] (d ∷ cs) [] a m ga))
        (subst
          (λ x.
            Leads (t ∷ record { held = []; rest = x } ∷ calls cs)
              (t ∷ record { held = h'; rest = w } ∷ calls cs))
          (sym ed)
          (subst
            (λ x.
              Leads (t ∷ record { held = []; rest = b ++ w } ∷ calls cs)
                (t ∷ record { held = x; rest = w } ∷ calls cs))
            ab (alone (t ∷ []) cs [] b w gb))))

-- What a `get` does that has to wait, up to its second lock on the way to the list of waiters.
abbrev about_to_wait : ℕ → List Act
about_to_wait n = looks n ++ (unlock idle_conns ∷ lock opening_conns ∷ [])

goes-drops :
    (n : ℕ) (more : List Act)
    → goes [] (idle_conns ∷ []) (drops n ++ more) ≡ goes [] (idle_conns ∷ []) more
goes-drops zero more = refl
goes-drops (suc n) more = goes-drops n more

after-drops :
    (n : ℕ) (more : List Act)
    → after (idle_conns ∷ []) (drops n ++ more) ≡ after (idle_conns ∷ []) more
after-drops zero more = refl
after-drops (suc n) more = after-drops n more

get_waits_acts : (n : ℕ) → acts (get_waits n) ≡ about_to_wait n ++ waiting_rest
unfolding acts
get_waits_acts n =
    sym (append_assoc (looks n) (unlock idle_conns ∷ lock opening_conns ∷ []) waiting_rest)

-- Two calls get to where they are stuck.
record Trap (c d : Course) (cs : List Course) (one two : Task) : Type 0 where
  wish : Lock
  other : Lock
  reached : Leads (calls (c ∷ d ∷ cs)) (one ∷ two ∷ calls cs)
  stuck : Stuck wish other one two

waits-Trap :
    (n : ℕ) (d : Course) (cs : List Course) (b w : List Act) (h : List Lock)
    → acts d ≡ b ++ (lock opening_conns ∷ w)
    → goes (at (opening_conns ∷ []) waiting_rest ∷ []) [] b ≡ true
    → after [] b ≡ h
    → holds conn_reqs h ≡ true
    → Trap (get_waits n) d cs (at (opening_conns ∷ []) waiting_rest) (at h (lock opening_conns ∷ w))
waits-Trap n d cs b w h ed gb ab held = record {
  wish = conn_reqs;
  other = opening_conns;
  reached =
      reach (get_waits n) d cs (about_to_wait n) waiting_rest b (lock opening_conns ∷ w)
        (opening_conns ∷ []) h (get_waits_acts n)
        (goes-drops n (unlock idle_conns ∷ lock opening_conns ∷ []))
        (after-drops n (unlock idle_conns ∷ lock opening_conns ∷ [])) ed gb ab;
  stuck = record {
    wants = _;
    also = w;
    first = refl;
    second = refl;
    held_first = refl;
    held_second = held;
  };
}

release-Trap :
    (c : Course) (cs : List Course) (m : List Act)
    → acts c ≡ (briefly closed ++ (lock conn_reqs ∷ [])) ++ (lock idle_conns ∷ m)
    → Trap c release_all cs
        (at (conn_reqs ∷ []) (lock idle_conns ∷ m))
        (at (idle_conns ∷ closed ∷ []) release_rest)
unfolding acts
release-Trap c cs m ec = record {
  wish = idle_conns;
  other = conn_reqs;
  reached =
      reach c release_all cs (briefly closed ++ (lock conn_reqs ∷ [])) (lock idle_conns ∷ m)
        (lock closed ∷ lock idle_conns ∷ []) release_rest (conn_reqs ∷ [])
        (idle_conns ∷ closed ∷ []) ec refl refl refl refl refl;
  stuck = record {
    wants = m;
    also = _;
    first = refl;
    second = refl;
    held_first = refl;
    held_second = refl;
  };
}

Clash-Trap :
    (c d : Course) (cs : List Course) (clash : Clash c d)
    → Trap c d cs (first_of clash) (second_of clash)
unfolding acts
Clash-Trap c d cs (waits_full n) =
    waits-Trap n put_full cs (briefly closed ++ (lock conn_reqs ∷ lock idle_conns ∷ [])) _ _ refl
      refl refl refl
Clash-Trap c d cs (waits_release n) =
    waits-Trap n release_all cs (lock closed ∷ lock idle_conns ∷ lock conn_reqs ∷ []) _ _ refl refl
      refl refl
Clash-Trap c d cs parks_release = release-Trap put_parks cs _ refl
Clash-Trap c d cs full_release = release-Trap put_full cs _ refl

-- The pool can lock itself up. A `get` that has to wait with a `put` that closes its connection because
-- the queue is full, or a `release` with such a `get` or with a `put` that nobody waits for: among any
-- other calls that run at once, the two can reach a point from which, whatever all of them do then,
-- neither ever ends.
pub clashes_deadlock :
    (c d : Course) (cs : List Course) (clash : Clash c d) (us : List Task)
    → Leads (first_of clash ∷ second_of clash ∷ calls cs) us
    → Leads (calls (c ∷ d ∷ cs)) (first_of clash ∷ second_of clash ∷ calls cs)
      × (map finished (take 2 us) ≡ false ∷ false ∷ [])
clashes_deadlock c d cs clash us go =
    let trap = Clash-Trap c d cs clash in
    let (more, e) = Stuck-for_good trap.stuck refl go in
    (trap.reached, rw e (rw trap.stuck.first (rw trap.stuck.second refl)))
