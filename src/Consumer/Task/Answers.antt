-- ===== src/Consumer/Task/Answers.antt =====
-- What a message's task sends in answer to it.
use nsq_async_rs.Base.{
  ℕ, if◌then◌else◌, Bool, false, ◌||◌, Bool-cases, ◌⊎◌, inl, inr, Option, none, some, List, [], ◌∷◌,
  ◌++◌, ◌≡◌, refl, sym, ap, ◌∙◌, arith,
}
use nsq_async_rs.Base.Octets.{Bytes}
use nsq_async_rs.Error.{Error}
use nsq_async_rs.Protocol.Command.{IdentifyConfig, Command}
use nsq_async_rs.Protocol.Message.{Message, MessageResponder}
use nsq_async_rs.Protocol.Message
use nsq_async_rs.Connection.{Connection, send_command}
use nsq_async_rs.Responder.{World, id_string, send_on}
use nsq_async_rs.Responder.Once.{
  Response, requeues, perform_all, effective, any_final, send_each, perform_all-Leaves,
}
use nsq_async_rs.Consumer.Task.{
  HandlerRun, Shared, handle, conclude, conclude_run, answer, count_finished, count_requeued,
  fetch_add,
}

-- A message that `with_responder` has attached to the connection at `a`.
pub record IsFresh (a : ℕ) (m : Message) (w : World) : Type 0 where
  pub attached : m.connection ≡ some (record { connection = a; msg_id = id_string m })
  pub automatic : m.auto_response_disabled ≡ false
  pub unanswered : w.flags m.responded ≡ false

-- The response that the task itself sends.
abbrev pub own_answer : Bytes → Option Error → Command
own_answer id none = Command.finish id
own_answer id (some e) = Command.requeue id 0

abbrev pub own_answers : Bytes → Bool → HandlerRun → List Command
own_answers id disabled run =
    if disabled || any_final run.responses then [] else own_answer id run.failure ∷ []

module _ (to_json : IdentifyConfig → Bytes ⊎ Bytes) where
  pub send_each-append :
      (xs ys : List Command) (c : Connection)
      → send_each to_json (xs ++ ys) c ≡ send_each to_json ys (send_each to_json xs c)
  unfolding send_each
  send_each-append [] ys c = refl
  send_each-append (x ∷ xs) ys c = send_each-append xs ys (send_command to_json x c).1

  abbrev Handled : HandlerRun → ℕ → Message → World → World → Type 0
  Handled run a m w w' =
      (w'.connections a
        ≡ send_each to_json (effective (id_string m) false run.responses) (w.connections a))
      × (w'.flags m.responded ≡ any_final run.responses)

  -- The handler's own switch changes nothing of what its responses do.
  handle-Handled :
      (run : HandlerRun) (a : ℕ) (m : Message) (w : World)
      → IsFresh a m w
      → Handled run a m w (handle to_json run m w)
  unfolding handle
  handle-Handled run a m w h = elim (Bool-cases run.disables) [
    | inl off ↦ rw off (leaves (Message.disable_auto_response m) h.attached h.unanswered)
    | inr on ↦ rw on (leaves m h.attached h.unanswered)
  ]
    where
      leaves :
          (m' : Message)
          → m'.connection ≡ some (record { connection = a; msg_id = id_string m })
          → w.flags m'.responded ≡ false
          → ((perform_all to_json run.responses m' w).connections a
              ≡ send_each to_json (effective (id_string m) false run.responses) (w.connections a))
            × ((perform_all to_json run.responses m' w).flags m'.responded
                ≡ any_final run.responses)
      leaves m' at unset = rw unset at (
          perform_all-Leaves to_json run.responses m'
            (record { connection = a; msg_id = id_string m }) w at)

  conclude-sends :
      (disabled : Bool) (cmd : Command) (counted : Shared → Shared) (a : ℕ) (m : Message)
      (s : Shared) (final : Bool)
      → ((t : Shared) → (counted t).world ≡ t.world)
      → m.auto_response_disabled ≡ false
      → s.world.flags m.responded ≡ final
      → (conclude to_json disabled cmd counted a m s).1.world.connections a
        ≡ send_each to_json (if disabled || final then [] else cmd ∷ []) (s.world.connections a)
  unfolding conclude send_on send_each
  conclude-sends disabled cmd counted a m s final keeps auto flag =
      let sent : World = (send_on to_json a cmd s.world).1 in
      ground (arith, keeps (record s { world = sent }), keeps s, auto, flag)

  pub conclude_run-sends :
      (disabled : Bool) (failure : Option Error) (a : ℕ) (m : Message) (s : Shared) (final : Bool)
      → m.auto_response_disabled ≡ false
      → s.world.flags m.responded ≡ final
      → (conclude_run to_json disabled failure a m s).1.world.connections a
        ≡ send_each to_json
            (if disabled || final then [] else own_answer (id_string m) failure ∷ [])
            (s.world.connections a)
  conclude_run-sends disabled none a m s final auto flag =
      conclude-sends disabled (Command.finish (id_string m)) count_finished a m s final (λ t. refl)
        auto flag
  conclude_run-sends disabled (some e) a m s final auto flag =
      conclude-sends disabled (Command.requeue (id_string m) 0) count_requeued a m s final
        (λ t. refl) auto flag

  -- In answer to a message the connection is sent what the handler's responses come to, and then, if
  -- the consumer responds by itself and none of them finished or requeued the message, FIN for a
  -- handler that returned `Ok` and REQ without a delay for one that failed. Whether the handler turned
  -- the automatic response off on the message that it was given makes no difference.
  pub answer-sends :
      (disabled : Bool) (run : HandlerRun) (a : ℕ) (m : Message) (s : Shared)
      → IsFresh a m s.world
      → (answer to_json disabled run a m s).1.world.connections a
        ≡ send_each to_json
            (effective (id_string m) false run.responses ++ own_answers (id_string m) disabled run)
            (s.world.connections a)
  unfolding answer
  answer-sends disabled run a m s h =
      let (sends, sets) = handle-Handled run a m s.world h in
      conclude_run-sends disabled run.failure a m
        (record s { world = handle to_json run m s.world }) (any_final run.responses) h.automatic
        sets
      ∙ ap (send_each to_json (own_answers (id_string m) disabled run)) sends
      ∙ sym (
          send_each-append (effective (id_string m) false run.responses)
            (own_answers (id_string m) disabled run) (s.world.connections a))

-- The counters follow what the handler returns and not what was sent: a handler that requeues its
-- message and returns `Ok` adds to the finished messages and not to the requeued ones.
pub requeued_counts_as_finished :
    (to_json : IdentifyConfig → Bytes ⊎ Bytes) (disabled disables : Bool) (d : ℕ)
    (rs : List Response) (a : ℕ) (m : Message) (s : Shared)
    → IsFresh a m s.world
    → let run : HandlerRun = record {
      disables = disables;
      responses = requeues d ∷ rs;
      failure = none;
    } in
      let s' = (answer to_json disabled run a m s).1 in
      (s'.finished ≡ fetch_add s.finished) × (s'.requeued ≡ s.requeued)
unfolding answer conclude
requeued_counts_as_finished to_json disabled disables d rs a m s h = ground (
  arith,
  (handle-Handled to_json
      (record { disables = disables; responses = requeues d ∷ rs; failure = none }) a m s.world
      h).1,
)
