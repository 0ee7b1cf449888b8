-- ===== src/Tests/Locks.antt =====
-- The locks of src/pool.rs at concrete inputs.
use nsq_async_rs.Base.{ℕ, arith, ◌≡◌, refl, true, false, List, [], ◌∷◌, inl, All, map, take}
use nsq_async_rs.Pool.{Methods, Pool, empty, life_expired}
use nsq_async_rs.Pool.Locks.{
  Course, get_idle, get_waits, get_opens, put_parks, put_full, cleans, idle_count, Task, finished,
  Leads, done, calls,
}
use nsq_async_rs.Pool.Locks.Progress.{calls_complete}
use nsq_async_rs.Pool.Locks.Deadlock.{Clash, waits_full, first_of, second_of}
use nsq_async_rs.Pool.Locks.Courses.{IsFull, get_course, put_course, full_pool_deadlocks}
use nsq_async_rs.Tests.Pool.{methods, config, held}

abbrev busy : List Course
busy = get_idle 2 ∷ put_full ∷ cleans ∷ get_opens 1 ∷ put_parks ∷ idle_count ∷ []

calls_complete_example : (us : List Task) × Leads (calls busy) us × All (λ t. finished t ≡ true) us
calls_complete_example =
    calls_complete busy (calls busy) (inl (refl, (refl, (refl, (refl, (refl, (refl, tt)))))))
      (done (calls busy))

abbrev clash : Clash (get_waits 1) put_full
clash = waits_full 1

-- A pool of three that keeps none.
abbrev keeps_none : Methods ℕ
keeps_none = record methods { config = record config { max_idle = 0 } }

abbrev full : Pool ℕ
full = record empty { opening = 3; made = 3 }

full_IsFull : IsFull keeps_none 5 held full
unfolding life_expired
full_IsFull = record {
  not_closed = refl;
  no_idle = refl;
  nobody = refl;
  keeps_none = refl;
  all_open = omega arith;
  young = refl;
  closes = refl;
}

full_pool_deadlocks_example :
    Leads
      (calls (get_course keeps_none 5 full ∷ put_course keeps_none 5 (λ _. true) held full ∷ busy))
      (first_of (waits_full 0) ∷ second_of (waits_full 0) ∷ calls busy)
    × (map finished (take 2 (first_of (waits_full 0) ∷ second_of (waits_full 0) ∷ calls busy))
        ≡ false ∷ false ∷ [])
full_pool_deadlocks_example =
    full_pool_deadlocks keeps_none 5 (λ _. true) held full busy
      (first_of (waits_full 0) ∷ second_of (waits_full 0) ∷ calls busy) full_IsFull (done _)
