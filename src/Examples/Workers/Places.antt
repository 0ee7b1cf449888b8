-- ===== src/Examples/Workers/Places.antt =====
-- Where each message is that a handler passed to its workers.
use nsq_async_rs.Base.{
  ℕ, ◌+◌, ◌≤◌, ◌==◌, ==_iff, if◌then◌else◌, Bool, true, false, not, ◌&&◌, All, Bool-cases, inl, inr,
  Option, none, some, List, [], ◌∷◌, ◌++◌, length, ◌≡◌, refl, sym, ap, ◌∙◌, arith,
}
use mathlib.Core.Path.{subst}
use nsq_async_rs.Error.{Outcome, ok}
use nsq_async_rs.Responder.{update}
use nsq_async_rs.Examples.Workers.{
  Call, outside, sending, returning, over, Work, unseen, queued, busy, settled, dropped, Pipe,
  in_call, push, drop_work, buffer, shut_down,
}

-- How often a message stands in a list, and among the rounds that ended.
abbrev pub uses : ℕ → List ℕ → ℕ
uses k [] = 0
uses k (j ∷ js) = (if j == k then 1 else 0) + uses k js

abbrev pub rounds : ℕ → List (ℕ × Bool) → ℕ
rounds k [] = 0
rounds k (e ∷ es) = (if e.0 == k then 1 else 0) + rounds k es

abbrev pub from_ok : {A : Type 0} → A → Outcome A → A
from_ok a (ok b) = b
from_ok a o = a

uses-append :
    (k j : ℕ) (xs : List ℕ) → uses k (xs ++ (j ∷ [])) ≡ uses k xs + (if j == k then 1 else 0)
uses-append k j [] = ground arith
uses-append k j (x ∷ xs) = ground (arith, uses-append k j xs)

rounds-append :
    (k : ℕ) (e : ℕ × Bool) (xs : List (ℕ × Bool))
    → rounds k (xs ++ (e ∷ [])) ≡ rounds k xs + (if e.0 == k then 1 else 0)
rounds-append k e [] = ground arith
rounds-append k e (x ∷ xs) = ground (arith, rounds-append k e xs)

abbrev pub in_queue : Work → ℕ
in_queue queued = 1
in_queue _ = 0

abbrev pub is_settled : Work → Bool
is_settled settled = true
is_settled _ = false

abbrev pub is_unseen : Work → Bool
is_unseen unseen = true
is_unseen _ = false

-- Which places go with which calls. A call fails only where the workers are gone.
abbrev pub fits : Bool → Call → Work → Bool
fits gone outside v = is_unseen v
fits gone sending v = is_unseen v
fits gone (returning (some e)) v = gone && is_unseen v
fits gone (returning none) v = not (is_unseen v)
fits gone over v = true

-- Where a message is.
abbrev pub HasPlace : Pipe → ℕ → Type 0
HasPlace p k =
    (uses k p.queue ≡ in_queue (p.work k))
    × (rounds k p.ended ≡ (if is_settled (p.work k) then 1 else 0))
    × (fits p.closed (p.calls k) (p.work k) ≡ true)

-- The channel as a whole, for a number of workers.
abbrev pub IsInOrder : ℕ → Pipe → Type 0
IsInOrder workers p =
    (length p.queue ≤ buffer workers)
    × (p.closed ≡ false → p.entered ≡ p.taken ++ p.queue)
    × (p.closed ≡ false → p.idle + length p.taken ≡ workers + length p.ended)
    × (p.closed ≡ false → All (λ r. r.1 ≡ none) p.results)

pub unseen_of : (v : Work) → is_unseen v ≡ true → v ≡ unseen
unseen_of unseen h = refl
unseen_of queued h = ground (arith, h)
unseen_of busy h = ground (arith, h)
unseen_of settled h = ground (arith, h)
unseen_of dropped h = ground (arith, h)

fits_later : (gone : Bool) (c : Call) (v : Work) → fits gone c v ≡ true → fits true c v ≡ true
fits_later gone outside v f = f
fits_later gone sending v f = f
fits_later gone (returning none) v f = f
fits_later gone (returning (some e)) v f = ground (arith, f)
fits_later gone over v f = refl

pub in_queue_of : (v : Work) (n : ℕ) → in_queue v ≡ 1 + n → (v ≡ queued) × (n ≡ 0)
in_queue_of unseen n e = ground (arith, e)
in_queue_of queued n e = (refl, omega (arith, e))
in_queue_of busy n e = ground (arith, e)
in_queue_of settled n e = ground (arith, e)
in_queue_of dropped n e = ground (arith, e)

pub ==_refl : (j : ℕ) → (j == j) ≡ true
==_refl j = ground arith

pub same_message : (j k : ℕ) → (j == k) ≡ true → j ≡ k
same_message j k e = (==_iff j k).0 e

-- Places that are both or neither before the channel go with the same calls.
fits_alike :
    (gone : Bool) (c : Call) (v v' : Work)
    → fits gone c v ≡ true
    → is_unseen v' ≡ is_unseen v
    → fits gone c v' ≡ true
fits_alike gone outside v v' f e = e ∙ f
fits_alike gone sending v v' f e = e ∙ f
fits_alike gone (returning none) v v' f e = ap not e ∙ f
fits_alike gone (returning (some x)) v v' f e = ap (gone &&◌) e ∙ f
fits_alike gone over v v' f e = refl

module _ (j : ℕ) (p : Pipe) (h : (k : ℕ) → HasPlace p k) where
  pub push-HasPlace :
      p.work j ≡ unseen → (k : ℕ) → HasPlace (in_call j (returning none) (push j p)) k
  push-HasPlace first k = elim (Bool-cases (j == k)) [
    | inl same ↦
        let w : p.work k ≡ unseen = subst (λ i. p.work i ≡ unseen) (same_message j k same) first in
        rw (uses-append k j p.queue) (
          rw same (
            ap (λ n. n + 1) ((h k).0 ∙ ap in_queue w),
            (h k).1 ∙ ap (λ v. if is_settled v then 1 else 0) w,
            refl,
          ))
    | inr other ↦ rw (uses-append k j p.queue) (rw other (omega (arith, (h k).0), (h k).1, (h k).2))
  ]

  -- A call that has not reached the channel moves without it.
  pub call-HasPlace :
      (c : Call) (hold : Option ℕ)
      → p.work j ≡ unseen
      → fits p.closed c unseen ≡ true
      → (k : ℕ) → HasPlace (in_call j c (record p { holder = hold })) k
  call-HasPlace c hold first f k = elim (Bool-cases (j == k)) [
    | inl same ↦
        let w : p.work k ≡ unseen = subst (λ i. p.work i ≡ unseen) (same_message j k same) first in
        rw same ((h k).0, (h k).1, ap (fits p.closed c) w ∙ f)
    | inr other ↦ rw other (h k)
  ]

  -- A call whose result was seen.
  pub over-HasPlace : (k : ℕ) → HasPlace (in_call j over p) k
  over-HasPlace k = elim (Bool-cases (j == k)) [
    | inl same ↦ rw same ((h k).0, (h k).1, refl)
    | inr other ↦ rw other (h k)
  ]

  pub settle-HasPlace :
      (failed : Bool)
      → p.work j ≡ busy
      → (k : ℕ)
      → HasPlace
          (record p { work = update p.work j settled; ended = p.ended ++ ((j, failed) ∷ []) })
          k
  settle-HasPlace failed at k = elim (Bool-cases (j == k)) [
    | inl same ↦
        let w : p.work k ≡ busy = subst (λ i. p.work i ≡ busy) (same_message j k same) at in
        rw (rounds-append k (j, failed) p.ended) (
          rw same (
            (h k).0 ∙ ap in_queue w,
            ap (λ m. m + 1) ((h k).1 ∙ ap (λ v. if is_settled v then 1 else 0) w),
            fits_alike p.closed (p.calls k) (p.work k) settled (h k).2 (sym (ap is_unseen w)),
          ))
    | inr other ↦
        rw (rounds-append k (j, failed) p.ended)
          (rw other ((h k).0, omega (arith, (h k).1), (h k).2))
  ]

  -- A worker takes the front of the channel.
  pub take-HasPlace :
      (q : List ℕ) (n : ℕ) (t : List ℕ)
      → p.queue ≡ j ∷ q
      → (k : ℕ)
      → HasPlace (record p { queue = q; idle = n; work = update p.work j busy; taken = t }) k
  take-HasPlace q n t e k = elim (Bool-cases (j == k)) [
    | inl same ↦
        let (w, none_left) =
          in_queue_of (p.work k) (uses k q) (sym (h k).0 ∙ ap (uses k) e ∙ rw same refl) in
        rw same (
          none_left,
          (h k).1 ∙ ap (λ v. if is_settled v then 1 else 0) w,
          fits_alike p.closed (p.calls k) (p.work k) busy (h k).2 (sym (ap is_unseen w)),
        )
    | inr other ↦
        let skips : uses k (j ∷ q) ≡ 0 + uses k q = rw other refl in
        rw other (omega (arith, skips, ap (uses k) e, (h k).0), (h k).1, (h k).2)
  ]

pub shut_down-HasPlace : (p : Pipe) → ((k : ℕ) → HasPlace p k) → (k : ℕ) → HasPlace (shut_down p) k
unfolding shut_down
shut_down-HasPlace p h k = go (p.work k) (h k).1 (h k).2
  where
    go :
        (v : Work)
        → (rounds k p.ended ≡ (if is_settled v then 1 else 0))
        → fits p.closed (p.calls k) v ≡ true
        → (0 ≡ in_queue (drop_work v))
          × (rounds k p.ended ≡ (if is_settled (drop_work v) then 1 else 0))
          × (fits true (p.calls k) (drop_work v) ≡ true)
    go unseen r f = (refl, r, fits_later p.closed (p.calls k) unseen f)
    go queued r f = (
      refl,
      r,
      fits_alike true (p.calls k) queued dropped (fits_later p.closed (p.calls k) queued f) refl,
    )
    go busy r f = (
      refl,
      r,
      fits_alike true (p.calls k) busy dropped (fits_later p.closed (p.calls k) busy f) refl,
    )
    go settled r f = (refl, r, fits_later p.closed (p.calls k) settled f)
    go dropped r f = (refl, r, fits_later p.closed (p.calls k) dropped f)
