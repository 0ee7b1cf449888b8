-- ===== src/Consumer/Session/Permits/Kept.antt =====
-- Permits and counts, where a message is received, comes to its task, and leaves it.
use nsq_async_rs.Base.{
  ℕ, zero, suc, ◌+◌, ◌%◌, ◌^◌, ◌≡◌, refl, ◌⊎◌, Option, none, some, List, [], ◌∷◌, ◌++◌, length,
  length-append, Option-cases, inl, inr, arith,
}
use nsq_async_rs.Error.{Outcome, ok, err, panic, hang}
use nsq_async_rs.Protocol.Message.{Message}
use nsq_async_rs.Consumer.Task.{fetch_add}
use nsq_async_rs.Consumer.Session.{
  Session, Task, remove, loop_top, or_return, spawn, acquire, give_back,
}

-- How many messages wait for a permit.
abbrev pub waiting : Option Message → ℕ
waiting none = 0
waiting (some m) = 1

-- The permits are split between the tasks and the free ones, the loop waits for one only if none is
-- free, and each message received is waiting, with a task, or done.
pub record IsPermitted (cap : ℕ) (s : Session) : Type 0 where
  pub shares : s.permits + length s.tasks ≡ cap
  pub none_free : (waiting s.pending ≡ 0) ⊎ (s.permits ≡ 0)
  pub placed : s.received % 2 ^ 64 ≡ (waiting s.pending + length s.tasks + s.done) % 2 ^ 64

Zero-cases : (n : ℕ) → (n ≡ 0) ⊎ ((k : ℕ) × (n ≡ suc k))
Zero-cases zero = inl refl
Zero-cases (suc k) = inr (k, refl)

module _ (cap : ℕ) where
  pub loop_top-IsPermitted : (s : Session) → IsPermitted cap s → IsPermitted cap (loop_top s)
  unfolding loop_top
  loop_top-IsPermitted s h = record {
    shares = ground (arith, h.shares);
    none_free = ground (arith, h.none_free);
    placed = ground (arith, h.placed);
  }

  pub or_return-IsPermitted :
      (r : Outcome (Unit {0})) (s : Session) → IsPermitted cap s → IsPermitted cap (or_return r s)
  unfolding or_return
  or_return-IsPermitted (ok u) s h = loop_top-IsPermitted s h
  or_return-IsPermitted (err e) s h = record {
    shares = h.shares;
    none_free = h.none_free;
    placed = h.placed;
  }
  or_return-IsPermitted panic s h = record {
    shares = h.shares;
    none_free = h.none_free;
    placed = h.placed;
  }
  or_return-IsPermitted hang s h = record {
    shares = h.shares;
    none_free = h.none_free;
    placed = h.placed;
  }

  -- A message that waits, or is about to, comes to its task.
  spawn-IsPermitted :
      (m : Message) (s : Session)
      → s.permits + suc (length s.tasks) ≡ cap
      → s.received % 2 ^ 64 ≡ (suc (length s.tasks) + s.done) % 2 ^ 64
      → IsPermitted cap (spawn m s)
  unfolding spawn
  spawn-IsPermitted m s shares placed =
      loop_top-IsPermitted
        (record s {
          tasks = s.tasks ++ (record { message = m; call = s.call } ∷ []);
          pending = none;
        })
        (record {
          shares =
              ground (arith, length-append s.tasks (record { message = m; call = s.call } ∷ []));
          none_free = inl refl;
          placed =
              ground (arith, length-append s.tasks (record { message = m; call = s.call } ∷ []));
        })

  acquire-IsPermitted :
      (m : Message) (s : Session)
      → s.permits + length s.tasks ≡ cap
      → s.received % 2 ^ 64 ≡ (suc (length s.tasks) + s.done) % 2 ^ 64
      → IsPermitted cap (acquire m s)
  unfolding acquire
  acquire-IsPermitted m s shares placed = elim (Zero-cases s.permits) [
    | inl e ↦
        rw (e, acquire)
          (record { shares = ground (arith, e); none_free = inr e; placed = ground arith })
    | inr (n, e) ↦
        rw (e, acquire) (spawn-IsPermitted m (record s { permits = n }) (omega arith) placed)
  ]

  -- A message is received: it comes to a task, or waits.
  pub received-IsPermitted :
      (m : Message) (s : Session) (fresh : ℕ)
      → s.pending ≡ none
      → IsPermitted cap s
      → IsPermitted cap (acquire m (record s { received = fetch_add s.received; fresh = fresh }))
  received-IsPermitted m s fresh e h =
      acquire-IsPermitted m (record s { received = fetch_add s.received; fresh = fresh }) h.shares
        (ground (arith, h.placed, e))

  pub give_back-IsPermitted :
      (s : Session)
      → s.permits + suc (length s.tasks) ≡ cap
      → (waiting s.pending ≡ 0) ⊎ (s.permits ≡ 0)
      → s.received % 2 ^ 64 ≡ (waiting s.pending + length s.tasks + s.done) % 2 ^ 64
      → IsPermitted cap (give_back s)
  unfolding give_back
  give_back-IsPermitted s shares none_free placed = elim (Option-cases s.pending) [
    | inl e ↦
        rw (e, give_back)
          (record {
            shares = omega arith;
            none_free = ground (arith, e);
            placed = ground (arith, e);
          })
    | inr (m, e) ↦ rw (e, give_back) (spawn-IsPermitted m s shares (ground (arith, e)))
  ]

  pub length-remove :
      (k : ℕ) (ms : List Task) (m : Task) (rest : List Task)
      → remove k ms ≡ some (m, rest)
      → length ms ≡ suc (length rest)
  unfolding remove
  length-remove k [] m rest e = ground arith
  length-remove zero (x ∷ ms) m rest e = ground arith
  length-remove (suc k) (x ∷ ms) m rest e = elim (Option-cases (remove k ms)) [
    | inl none_left ↦ ground (arith, none_left)
    | inr ((y, ys), found) ↦ ground (arith, found, length-remove k ms y ys found)
  ]
