-- ===== src/Examples/Workers/Channel.antt =====
-- The channel between the handler and the workers: its order and its bound.
use nsq_async_rs.Base.{
  either, ℕ, zero, suc, ◌<◌, ltb, ltb→lt, ◌==◌, Bool, true, false, ◌||◌, All-append, Bool-cases,
  inl, inr, Option, none, some, List, [], ◌∷◌, ◌++◌, append_assoc, length, length-append, ◌≡◌, refl,
  sym, ap, ◌∙◌, arith,
}
use mathlib.Core.Path.{subst}
use nsq_async_rs.Error.{Error, ok}
use nsq_async_rs.Responder.{update}
use nsq_async_rs.Consumer.Task.{Shared}
use nsq_async_rs.Examples.Workers.Places.{
  is_unseen, from_ok, fits, HasPlace, IsInOrder, unseen_of, ==_refl, same_message, push-HasPlace,
  call-HasPlace, over-HasPlace, settle-HasPlace, take-HasPlace, shut_down-HasPlace,
}
use nsq_async_rs.Examples.Workers.{
  Call, outside, sending, returning, over, Work, unseen, queued, busy, settled, dropped, Pipe,
  Event, enters, resumes, takes, ends, returns, closes, in_call, push, Setting, buffer, start, new,
  pass_on, resume, recv, end_round, conclude_call, shut_down, on_enter, on_resume, on_end,
  on_return, step, run,
}

result_of :
    (gone : Bool) (r : Option Error) (v : Work)
    → gone ≡ false
    → fits gone (returning r) v ≡ true
    → r ≡ none
result_of gone none v o f = refl
result_of gone (some e) v o f = ground (arith, o, f)

-- A call keeps the lock while it sends.
abbrev pub Held : Option ℕ → (ℕ → Call) → Type 0
Held none calls = Unit {0}
Held (some k) calls = calls k ≡ sending

Held-after :
    (j : ℕ) (r : Option Error) (c : Call) (holder : Option ℕ) (calls : ℕ → Call)
    → calls j ≡ returning r
    → Held holder calls
    → Held holder (update calls j c)
Held-after j r c none calls at h = tt
Held-after j r c (some k) calls at h = elim (Bool-cases (j == k)) [
  | inl same ↦
      let e : calls k ≡ returning r =
        subst (λ i. calls i ≡ returning r) (same_message j k same) at in
      cc
  | inr other ↦ rw other h
]

-- The channel in its order, and every message in its place.
abbrev pub IsRight : ℕ → Pipe → Type 0
IsRight workers p = IsInOrder workers p × ((k : ℕ) → HasPlace p k) × Held p.holder p.calls

module _ (on : Setting) where
  abbrev IsFree : Pipe → Type 0
  IsFree p = p.holder ≡ none

  -- The ways in which a call with the lock goes on that has not reached the channel.
  pushes-IsRight :
      (j : ℕ) (p : Pipe)
      → IsFree p
      → p.work j ≡ unseen
      → ltb (length p.queue) (buffer on.workers) ≡ true
      → IsRight on.workers p
      → IsRight on.workers (in_call j (returning none) (push j p))
  pushes-IsRight j p free first room ((bound, order, staff, fine), places, held) = (
    (
      omega
          (arith, length-append p.queue (j ∷ []), ltb→lt (length p.queue) (buffer on.workers) room),
      λ o. ap (◌++ (j ∷ [])) (order o) ∙ append_assoc p.taken p.queue (j ∷ []),
      staff,
      fine,
    ),
    push-HasPlace j p places first,
    rw free tt,
  )

  fails-IsRight :
      (j : ℕ) (e : Error) (p : Pipe)
      → IsFree p
      → p.work j ≡ unseen
      → p.closed ≡ true
      → IsRight on.workers p
      → IsRight on.workers (in_call j (returning (some e)) p)
  fails-IsRight j e p free first gone (order, places, held) = (
    order,
    call-HasPlace j p places (returning (some e)) p.holder first (rw gone refl),
    rw free tt,
  )

  blocks-IsRight :
      (j : ℕ) (p : Pipe)
      → p.work j ≡ unseen
      → IsRight on.workers p
      → IsRight on.workers (in_call j sending (record p { holder = some j }))
  blocks-IsRight j p first (order, places, held) =
      (order, call-HasPlace j p places sending (some j) first refl, rw (==_refl j) refl)

  pub first_of :
      (j : ℕ) (p : Pipe) (c : Call)
      → HasPlace p j
      → p.calls j ≡ c
      → ((v : Work) → fits p.closed c v ≡ is_unseen v)
      → p.work j ≡ unseen
  first_of j p c h e same =
      unseen_of (p.work j)
        (sym (same (p.work j)) ∙ ap (λ x. fits p.closed x (p.work j)) (sym e) ∙ h.2)

  pass_on-IsRight :
      (j : ℕ) (p : Pipe)
      → p.calls j ≡ outside
      → IsFree p
      → IsRight on.workers p
      → IsRight on.workers (pass_on on j p)
  unfolding pass_on
  pass_on-IsRight j p c free h =
      let first : p.work j ≡ unseen = first_of j p outside (h.1 j) c (λ v. refl) in
      either (IsRight on.workers) p.closed _ _ (λ gone. fails-IsRight j _ p free first gone h)
        (λ alive.
          either (IsRight on.workers) (ltb (length p.queue) (buffer on.workers)) _ _
            (λ room. pushes-IsRight j p free first room h) (λ full. blocks-IsRight j p first h))

  resume-IsRight :
      (j : ℕ) (p : Pipe)
      → p.holder ≡ some j
      → IsRight on.workers p
      → IsRight on.workers (resume on j p)
  unfolding resume
  resume-IsRight j p at h =
      let sends : p.calls j ≡ sending = subst (λ o. Held o p.calls) at h.2 in
      let first : p.work j ≡ unseen = first_of j p sending (h.1 j) sends (λ v. refl) in
      let p' : Pipe = record p { holder = none } in
      let h' : IsRight on.workers p' = (h.0, h.1, tt) in
      either (IsRight on.workers) p.closed _ _ (λ gone. fails-IsRight j _ p' refl first gone h')
        (λ alive.
          either (IsRight on.workers) (ltb (length p.queue) (buffer on.workers)) _ _
            (λ room. pushes-IsRight j p' refl first room h') (λ full. h))

  takes-IsRight :
      (n : ℕ) (q : List ℕ) (p : Pipe)
      → p.idle ≡ n
      → p.queue ≡ q
      → IsRight on.workers p
      → IsRight on.workers (recv n q p)
  takes-IsRight zero q p i e h = h
  takes-IsRight (suc n) [] p i e h = h
  takes-IsRight (suc n) (k ∷ q) p i e ((room, order, staff, fine), places, held) = (
    (
      omega (arith, room, ap length e),
      λ o. order o ∙ ap (p.taken ++◌) e ∙ sym (append_assoc p.taken (k ∷ []) q),
      λ o. omega (arith, staff o, i, length-append p.taken (k ∷ [])),
      fine,
    ),
    take-HasPlace k p places q n (p.taken ++ (k ∷ [])) e,
    held,
  )

  end_round-IsRight :
      (j : ℕ) (failed : Bool) (p : Pipe)
      → p.work j ≡ busy
      → IsRight on.workers p
      → IsRight on.workers (end_round on j failed p)
  unfolding end_round
  end_round-IsRight j failed p at ((room, order, staff, fine), places, held) = (
    (room, order, λ o. omega (arith, staff o, length-append p.ended ((j, failed) ∷ [])), fine),
    settle-HasPlace j p places failed at,
    held,
  )

  conclude_call-IsRight :
      (j : ℕ) (r : Option Error) (p : Pipe)
      → p.calls j ≡ returning r
      → IsRight on.workers p
      → IsRight on.workers (conclude_call on j r p)
  unfolding conclude_call
  conclude_call-IsRight j r p at ((bound, order, staff, fine), places, held) = (
    (
      bound,
      order,
      staff,
      λ o.
          All-append (λ x. x.1 ≡ none) p.results ((j, r) ∷ []) (fine o)
            (
              result_of p.closed r (p.work j) o
                  (ap (λ c. fits p.closed c (p.work j)) (sym at) ∙ (places j).2),
              tt,
            ),
    ),
    over-HasPlace j p places,
    Held-after j r over p.holder p.calls at held,
  )

  shut_down-IsRight : (p : Pipe) → IsRight on.workers p → IsRight on.workers (shut_down p)
  unfolding shut_down
  shut_down-IsRight p (order, places, held) =
      ((omega arith, λ o. cc, λ o. cc, λ o. cc), shut_down-HasPlace p places, held)

  pub step-IsRight :
      (e : Event) (p : Pipe) → IsRight on.workers p → IsRight on.workers (step on e p)
  unfolding step
  step-IsRight (enters k) p h = go (p.calls k) p.holder refl refl
    where
      go :
          (c : Call) (o : Option ℕ)
          → p.calls k ≡ c
          → p.holder ≡ o
          → IsRight on.workers (on_enter on c o k p)
      go outside none e free = pass_on-IsRight k p e free h
      go outside (some j) e taken = h
      go sending o e b = h
      go (returning r) o e b = h
      go over o e b = h
  step-IsRight resumes p h = go p.holder refl
    where
      go : (o : Option ℕ) → p.holder ≡ o → IsRight on.workers (on_resume on o p)
      go none e = h
      go (some k) e = resume-IsRight k p e h
  step-IsRight takes p h = takes-IsRight p.idle p.queue p refl refl h
  step-IsRight (ends k failed) p h = go (p.work k) refl
    where
      go : (v : Work) → p.work k ≡ v → IsRight on.workers (on_end on v k failed p)
      go busy e = end_round-IsRight k failed p e h
      go unseen e = h
      go queued e = h
      go settled e = h
      go dropped e = h
  step-IsRight (returns k) p h = go (p.calls k) refl
    where
      go : (c : Call) → p.calls k ≡ c → IsRight on.workers (on_return on c k p)
      go (returning r) e = conclude_call-IsRight k r p e h
      go outside e = h
      go sending e = h
      go over e = h
  step-IsRight closes p h = shut_down-IsRight p h

  run-IsRight :
      (es : List Event) (p : Pipe) → IsRight on.workers p → IsRight on.workers (run on es p)
  unfolding run
  run-IsRight [] p h = h
  run-IsRight (e ∷ es) p h = run-IsRight es (step on e p) (step-IsRight e p h)

pub new-start :
    (max_permits workers : ℕ) (shared : Shared) (p : Pipe)
    → new max_permits workers shared ≡ ok p
    → (0 < buffer workers) × (start workers shared ≡ p)
unfolding new
new-start max_permits workers shared p =
    either (λ o. o ≡ ok p → (0 < buffer workers) × (start workers shared ≡ p))
      (buffer workers == 0 || ltb max_permits (buffer workers)) _ _ (λ c e. cc)
      (λ c e. (ground (arith, c), ap (from_ok (start workers shared)) e))

-- However calls, workers and tasks take turns, from a new handler on: the channel holds at most its
-- capacity; while the workers live they take messages in the order in which they were handed over, as
-- many messages are being worked on as workers are not waiting, and no call of the handler has failed;
-- and a message stands in the channel once where it waits there and else not at all, and no worker is
-- done with it more than once.
pub run-new-IsRight :
    (on : Setting) (max_permits : ℕ) (shared : Shared) (p : Pipe) (es : List Event)
    → new max_permits on.workers shared ≡ ok p
    → IsRight on.workers (run on es p)
run-new-IsRight on max_permits shared p es e = run-IsRight on es p (
    subst (IsRight on.workers) (new-start max_permits on.workers shared p e).1
      ((omega arith, λ o. refl, λ o. omega arith, λ o. tt), λ k. (refl, refl, refl), tt))
