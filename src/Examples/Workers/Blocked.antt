-- ===== src/Examples/Workers/Blocked.antt =====
-- A call of the handler that is blocked because the channel is full.
use nsq_async_rs.Base.{
  ℕ, suc, ◌≤◌, ◌<◌, lt→ltb, false, none, some, List, [], ◌∷◌, ◌++◌, length, ◌≡◌, refl, sym, arith,
}
use mathlib.Core.Path.{subst}
use nsq_async_rs.Error.{ok}
use nsq_async_rs.Consumer.Task.{Shared}
use nsq_async_rs.Examples.Workers.Places.{==_refl}
use nsq_async_rs.Examples.Workers.{
  returning, Pipe, Event, resumes, takes, Setting, buffer, new, resume, recv, step, run,
}
use nsq_async_rs.Examples.Workers.Channel.{new-start, run-new-IsRight}

module _ (on : Setting) (j : ℕ) where
  abbrev GoesOn : Pipe → Pipe → Type 0
  GoesOn p p' =
      (p'.calls j ≡ returning none) × (p'.holder ≡ none) × (p'.entered ≡ p.entered ++ (j ∷ []))

  resume-GoesOn :
      (p : Pipe)
      → p.closed ≡ false
      → length p.queue < buffer on.workers
      → p.holder ≡ some j
      → GoesOn p (step on resumes p)
  unfolding step resume
  resume-GoesOn p alive room held =
      rw held (rw alive (rw (lt→ltb _ _ room) (rw (==_refl j) (refl, refl, refl))))

  takes-GoesOn :
      (n : ℕ) (q : List ℕ) (p : Pipe)
      → p.idle ≡ suc n
      → p.queue ≡ q
      → length q ≤ buffer on.workers
      → 0 < buffer on.workers
      → p.closed ≡ false
      → p.holder ≡ some j
      → GoesOn p (step on resumes (recv (suc n) q p))
  takes-GoesOn n [] p i e bound some_room alive held = resume-GoesOn p alive (rw e some_room) held
  takes-GoesOn n (k ∷ q) p i e bound some_room alive held =
      resume-GoesOn (recv (suc n) (k ∷ q) p) alive (omega (arith, bound)) held

-- While the workers live, a call that is blocked because the channel was full hands its message over,
-- returns `Ok` and gives the lock back once a worker waits for a message.
pub blocked_call_goes_on :
    (on : Setting) (max_permits n j : ℕ) (shared : Shared) (p : Pipe) (es : List Event)
    → new max_permits on.workers shared ≡ ok p
    → let p' = run on es p in
      p'.closed ≡ false
      → p'.idle ≡ suc n
      → p'.holder ≡ some j
      → let p'' = run on (takes ∷ resumes ∷ []) p' in
        (p''.calls j ≡ returning none)
        × (p''.holder ≡ none)
        × (p''.entered ≡ p'.entered ++ (j ∷ []))
unfolding run step
blocked_call_goes_on on max_permits n j shared p es e alive waits held =
    let p' = run on es p in
    let bound = (run-new-IsRight on max_permits shared p es e).0.0 in
    let some_room = (new-start max_permits on.workers shared p e).0 in
    subst (λ m. GoesOn on j p' (step on resumes (recv m p'.queue p'))) (sym waits)
      (takes-GoesOn on j n p'.queue p' waits refl bound some_room alive held)
