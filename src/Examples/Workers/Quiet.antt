-- ===== src/Examples/Workers/Quiet.antt =====
-- The steps of a handler and its workers that answer no message.
use nsq_async_rs.Base.{
  either, ℕ, zero, suc, ltb, ◌==◌, false, Bool-cases, inl, inr, List, [], ◌∷◌, length, ◌≡◌, refl,
  sym, ap, ◌∙◌,
}
use mathlib.Core.Path.{subst}
use nsq_async_rs.Responder.{update}
use nsq_async_rs.Examples.Workers.{
  Work, unseen, queued, busy, settled, dropped, Pipe, drop_work, Setting, buffer, pass_on, resume,
  recv, shut_down,
}
use nsq_async_rs.Examples.Workers.Places.{is_settled, uses, in_queue_of, ==_refl, same_message}
use nsq_async_rs.Examples.Workers.Channel.{IsRight}

module _ (on : Setting) where
  -- What is not the end of a round and not a result changes no flag and sends nothing.
  abbrev pub Quiet : Pipe → Pipe → Type 0
  Quiet p p' =
      (p'.shared ≡ p.shared)
      × ((k : ℕ) → is_settled (p'.work k) ≡ is_settled (p.work k))
      × (p'.ended ≡ p.ended)
      × (p'.results ≡ p.results)

  unsettled :
      (j : ℕ) (v : Work) (p : Pipe)
      → is_settled (p.work j) ≡ false
      → is_settled v ≡ false
      → (k : ℕ) → is_settled (update p.work j v k) ≡ is_settled (p.work k)
  unsettled j v p before after k = elim (Bool-cases (j == k)) [
    | inl same ↦
        rw same
          (after ∙ sym (subst (λ i. is_settled (p.work i) ≡ false) (same_message j k same) before))
    | inr other ↦ rw other refl
  ]

  push-Quiet :
      (j : ℕ) (p : Pipe)
      → p.work j ≡ unseen
      → (k : ℕ) → is_settled (update p.work j queued k) ≡ is_settled (p.work k)
  push-Quiet j p first = unsettled j queued p (ap is_settled first) refl

  pub pass_on-Quiet : (j : ℕ) (p : Pipe) → p.work j ≡ unseen → Quiet p (pass_on on j p)
  unfolding pass_on
  pass_on-Quiet j p first =
      either (Quiet p) p.closed _ _ (λ gone. (refl, λ k. refl, refl, refl))
        (λ alive.
          either (Quiet p) (ltb (length p.queue) (buffer on.workers)) _ _
            (λ room. (refl, push-Quiet j p first, refl, refl))
            (λ full. (refl, λ k. refl, refl, refl)))

  pub resume-Quiet : (j : ℕ) (p : Pipe) → p.work j ≡ unseen → Quiet p (resume on j p)
  unfolding resume
  resume-Quiet j p first =
      either (Quiet p) p.closed _ _ (λ gone. (refl, λ k. refl, refl, refl))
        (λ alive.
          either (Quiet p) (ltb (length p.queue) (buffer on.workers)) _ _
            (λ room. (refl, push-Quiet j p first, refl, refl))
            (λ full. (refl, λ k. refl, refl, refl)))

  pub recv-Quiet :
      (n : ℕ) (q : List ℕ) (p : Pipe) → p.queue ≡ q → IsRight on.workers p → Quiet p (recv n q p)
  recv-Quiet zero q p e h = (refl, λ k. refl, refl, refl)
  recv-Quiet (suc n) [] p e h = (refl, λ k. refl, refl, refl)
  recv-Quiet (suc n) (j ∷ q) p e h =
      let waits =
        (in_queue_of (p.work j) (uses j q)
          (sym (h.1 j).0 ∙ ap (uses j) e ∙ rw (==_refl j) refl)).0 in
      (refl, unsettled j busy p (ap is_settled waits) refl, refl, refl)

  pub shut_down-Quiet : (p : Pipe) → Quiet p (shut_down p)
  unfolding shut_down
  shut_down-Quiet p = (refl, λ k. lost (p.work k), refl, refl)
    where
      lost : (v : Work) → is_settled (drop_work v) ≡ is_settled v
      lost unseen = refl
      lost queued = refl
      lost busy = refl
      lost settled = refl
      lost dropped = refl
