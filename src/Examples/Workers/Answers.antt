-- ===== src/Examples/Workers/Answers.antt =====
-- What nsqd is sent for the messages that a handler passes to its workers.
use nsq_async_rs.Base.{
  either, ℕ, ltb, ◌==◌, if◌then◌else◌, Bool, true, false, not, ◌&&◌, ◌||◌, Bool-cases, inl, inr,
  Option, none, some, List, [], ◌∷◌, ◌++◌, ◌≡◌, refl, sym, ap, ◌∙◌,
}
use mathlib.Core.Path.{subst}
use nsq_async_rs.Error.{Error, ok}
use nsq_async_rs.Protocol.Command.{Command}
use nsq_async_rs.Connection.{Connection}
use nsq_async_rs.Responder.{World, update, id_string, finish, requeue}
use nsq_async_rs.Consumer.Task.{Shared, task}
use nsq_async_rs.Consumer.Task.Answers.{own_answer}
use nsq_async_rs.Examples.Workers.{
  Call, outside, sending, returning, over, Work, unseen, queued, busy, settled, dropped, Pipe,
  Event, enters, resumes, takes, ends, returns, closes, Setting, new, pass_on, resume, recv, reply,
  end_round, run_of, conclude_call, shut_down, on_enter, on_resume, on_end, on_return, step, run,
}
use nsq_async_rs.Examples.Workers.Places.{is_settled}
use nsq_async_rs.Examples.Workers.Channel.{
  IsRight, Held, first_of, step-IsRight, new-start, run-new-IsRight,
}
use nsq_async_rs.Examples.Workers.Sent.{
  one, Sent, Sent-append, Sent-nothing, task-Adds, Arrives, worker_answer, answers_of, grows,
  grows_other, silent_of, and_false, nothing_yet, worker_finals, Replies, respond-Replies,
}
use nsq_async_rs.Examples.Workers.Quiet.{
  Quiet, pass_on-Quiet, resume-Quiet, recv-Quiet, shut_down-Quiet,
}

module _ (on : Setting) (arrives : (k : ℕ) → Arrives on k) (c0 : Connection) where
  abbrev Flagged : Pipe → Type 0
  Flagged p = (k : ℕ) → p.shared.world.flags k ≡ (on.manual && is_settled (p.work k))

  abbrev IsAnswered : Pipe → Type 0
  IsAnswered p =
      Flagged p × Sent on.to_json c0 (p.shared.world.connections on.address) (answers_of on p)

  -- A worker's answer to a message that has none.
  reply-Replies :
      (k : ℕ) (failed : Bool) (w : World)
      → w.flags (on.messages k).responded ≡ false
      → Replies on.to_json on.address
          (on.messages k)
          w
          (reply on (on.messages k) failed w)
          (worker_answer (on.messages k) failed)
  unfolding reply finish requeue
  reply-Replies k false w unset =
      respond-Replies on.to_json on.address (on.messages k) w Command.finish (arrives k).0 unset
  reply-Replies k true w unset = elim (Bool-cases (ltb 3 (on.messages k).attempts)) [
    | inl late ↦
        rw late (
          respond-Replies on.to_json on.address (on.messages k) w Command.finish (arrives k).0
            unset)
    | inr early ↦ rw early (
        respond-Replies on.to_json on.address (on.messages k) w (λ id. Command.requeue id 5000)
          (arrives k).0 unset)
  ]

  flag_of :
      (p : Pipe) (k : ℕ)
      → Flagged p
      → p.shared.world.flags (on.messages k).responded ≡ (on.manual && is_settled (p.work k))
  flag_of p k h = ap p.shared.world.flags (arrives k).2 ∙ h k

  conclude_call-IsAnswered :
      (k : ℕ) (r : Option Error) (p : Pipe) → IsAnswered p → IsAnswered (conclude_call on k r p)
  unfolding conclude_call
  conclude_call-IsAnswered k r p (flags, sent) =
      let m = on.messages k in
      let a = on.address in
      let final = on.manual && is_settled (p.work k) in
      let s' = task on.to_json on.manual on.max_in_flight (run_of r) a m p.shared in
      let answer = own_answer (id_string m) r in
      let (same, adds) =
        task-Adds on.to_json a on.manual on.max_in_flight r m p.shared final (arrives k).1
          (flag_of p k flags) in
      (
        λ j. ap (λ f. f j) same ∙ flags j,
        subst (Sent on.to_json c0 (s'.world.connections a))
            (ap (λ b. answers_of on p ++ one b answer) (silent_of on.manual (is_settled (p.work k)))
              ∙ sym (
                  grows_other (λ e. own_answer (id_string (on.messages e.0)) e.1) on.manual
                    p.results (k, r) _))
            (Sent-append on.to_json c0 (p.shared.world.connections a) (s'.world.connections a)
              (answers_of on p) (one (on.manual || final) answer) sent adds),
      )

  end_round-IsAnswered :
      (k : ℕ) (failed : Bool) (p : Pipe)
      → p.work k ≡ busy
      → IsAnswered p
      → IsAnswered (end_round on k failed p)
  unfolding end_round
  end_round-IsAnswered k failed p at (flags, sent) =
      let (flags', adds) = go on.manual refl in
      (
        flags',
        subst (Sent on.to_json c0 _)
            (sym (grows (λ e. worker_answer (on.messages e.0) e.1) on.manual p.ended (k, failed) _))
            (Sent-append on.to_json c0 (p.shared.world.connections on.address) _ (answers_of on p)
              (one (not on.manual) (worker_answer (on.messages k) failed)) sent adds),
      )
    where
      set_flag :
          (j : ℕ)
          → on.manual ≡ true
          → update p.shared.world.flags (on.messages k).responded true j
            ≡ is_settled (update p.work k settled j)
      set_flag j e =
          ap (λ i. update p.shared.world.flags i true j) (arrives k).2
          ∙ either (λ x. (if k == j then true else p.shared.world.flags j) ≡ is_settled x) (k == j)
              settled (p.work j) (λ same. rw same refl)
              (λ other. rw other (flags j ∙ ap (◌&& is_settled (p.work j)) e))

      go :
          (b : Bool)
          → on.manual ≡ b
          → let s' =
              if b
              then record p.shared { world = reply on (on.messages k) failed p.shared.world }
              else p.shared in
            ((j : ℕ) → s'.world.flags j ≡ (b && is_settled (update p.work k settled j)))
            × Sent on.to_json
                (p.shared.world.connections on.address)
                (s'.world.connections on.address)
                (one (not b) (worker_answer (on.messages k) failed))
      go true e =
          let unset =
            ap p.shared.world.flags (arrives k).2
            ∙ flags k
            ∙ ap (on.manual &&◌) (ap is_settled at)
            ∙ and_false on.manual in
          let (set, adds) = reply-Replies k failed p.shared.world unset in
          (
            λ j. ap (λ f. f j) set ∙ set_flag j e,
            subst (Sent on.to_json _ _) (worker_finals (on.messages k) failed) adds,
          )
      go false e = (λ j. flags j ∙ ap (◌&& is_settled (p.work j)) e, Sent-nothing on.to_json _)

  Quiet-IsAnswered : (p p' : Pipe) → Quiet on p p' → IsAnswered p → IsAnswered p'
  Quiet-IsAnswered p p' (same, places, rounds_same, results_same) (flags, sent) = (
    λ k. ap (λ s. s.world.flags k) same ∙ flags k ∙ ap (on.manual &&◌) (sym (places k)),
    subst (Sent on.to_json c0 (p'.shared.world.connections on.address))
        (ap (λ es. answers_of on (record p { ended = es })) (sym rounds_same)
          ∙ ap (λ rs. answers_of on (record p' { results = rs })) (sym results_same))
        (subst (λ s. Sent on.to_json c0 (s.world.connections on.address) (answers_of on p))
          (sym same) sent),
  )

  step-IsAnswered :
      (e : Event) (p : Pipe) → IsRight on.workers p → IsAnswered p → IsAnswered (step on e p)
  unfolding step
  step-IsAnswered (enters k) p h i = go (p.calls k) p.holder refl
    where
      go : (c : Call) (o : Option ℕ) → p.calls k ≡ c → IsAnswered (on_enter on c o k p)
      go outside none e =
          Quiet-IsAnswered p (pass_on on k p)
            (pass_on-Quiet on k p (first_of on k p outside (h.1 k) e (λ v. refl))) i
      go outside (some j) e = i
      go sending o e = i
      go (returning r) o e = i
      go over o e = i
  step-IsAnswered resumes p h i = go p.holder refl
    where
      go : (o : Option ℕ) → p.holder ≡ o → IsAnswered (on_resume on o p)
      go none e = i
      go (some k) e =
          Quiet-IsAnswered p (resume on k p)
            (resume-Quiet on k p
              (first_of on k p sending (h.1 k) (subst (λ o. Held o p.calls) e h.2) (λ v. refl)))
            i
  step-IsAnswered takes p h i =
      Quiet-IsAnswered p (recv p.idle p.queue p) (recv-Quiet on p.idle p.queue p refl h) i
  step-IsAnswered (ends k failed) p h i = go (p.work k) refl
    where
      go : (v : Work) → p.work k ≡ v → IsAnswered (on_end on v k failed p)
      go busy e = end_round-IsAnswered k failed p e i
      go unseen e = i
      go queued e = i
      go settled e = i
      go dropped e = i
  step-IsAnswered (returns k) p h i = go (p.calls k)
    where
      go : (c : Call) → IsAnswered (on_return on c k p)
      go (returning r) = conclude_call-IsAnswered k r p i
      go outside = i
      go sending = i
      go over = i
  step-IsAnswered closes p h i = Quiet-IsAnswered p (shut_down p) (shut_down-Quiet on p) i

  run-IsAnswered :
      (es : List Event) (p : Pipe) → IsRight on.workers p → IsAnswered p → IsAnswered (run on es p)
  unfolding run
  run-IsAnswered [] p h i = i
  run-IsAnswered (e ∷ es) p h i =
      run-IsAnswered es (step on e p) (step-IsRight on e p h) (step-IsAnswered e p h i)

-- However calls, workers and tasks take turns, from a new handler and messages that nobody has answered,
-- the connection is sent these FIN and REQ and no others, also where one of them cannot be written. In
-- the manual mode: one for each message that a worker is done with, in that order, REQ with a delay of
-- 5000 ms for one that failed with a count of attempts of 3 at most and FIN for every other, and none by
-- the tasks. In the automatic mode: one by each task whose handler returned, FIN for `Ok` and REQ without a
-- delay for an error, and none by the workers, so that a message is finished as soon as it was handed
-- over, whatever then becomes of it.
pub run-new-IsAnswered :
    (on : Setting) (max_permits : ℕ) (shared : Shared) (p : Pipe) (es : List Event)
    → ((k : ℕ) → Arrives on k)
    → ((k : ℕ) → shared.world.flags k ≡ false)
    → new max_permits on.workers shared ≡ ok p
    → let p' = run on es p in
      Sent on.to_json
        (shared.world.connections on.address)
        (p'.shared.world.connections on.address)
        (answers_of on p')
unfolding run
run-new-IsAnswered on max_permits shared p es arrives unset made =
    (run-IsAnswered on arrives (shared.world.connections on.address) es p
      (run-new-IsRight on max_permits shared p [] made)
      (subst (IsAnswered on arrives (shared.world.connections on.address))
        (new-start max_permits on.workers shared p made).1
        (
          λ k. unset k ∙ sym (and_false on.manual),
          subst
              (Sent on.to_json (shared.world.connections on.address)
                (shared.world.connections on.address))
              (sym (nothing_yet on.manual))
              (Sent-nothing on.to_json (shared.world.connections on.address)),
        ))).1
