-- ===== src/Examples/Workers/Sent.antt =====
-- The FIN and REQ that a connection is sent, by the tasks of messages and by workers.
use nsq_async_rs.Base.{
  either, ℕ, ltb, if◌then◌else◌, Bool, true, false, not, ◌&&◌, ◌||◌, ◌⊎◌, Option, none, some, List,
  [], ◌∷◌, ◌++◌, map, append-nil, ◌≡◌, refl, sym, ap, ◌∙◌, arith,
}
use mathlib.Core.Path.{subst}
use nsq_async_rs.Base.Octets.{Bytes}
use nsq_async_rs.Base.Int.{ℤ, of_i32}
use nsq_async_rs.Error.{Error}
use nsq_async_rs.Protocol.Command.{IdentifyConfig, Command}
use nsq_async_rs.Protocol.Message.{Message}
use nsq_async_rs.Connection.{Connection, send_command}
use nsq_async_rs.Responder.{World, update, id_string, send_on, respond_once}
use nsq_async_rs.Responder.Once.{send_each, respond_once_first, update_self, perform_all}
use nsq_async_rs.Consumer.Task.{
  Shared, conclude, conclude_run, answer, refill, task, handle, half, leb_ℤ, fetch_sub, succeeded,
  count_finished, count_requeued,
}
use nsq_async_rs.Consumer.Task.Answers.{own_answer, conclude_run-sends, send_each-append}
use nsq_async_rs.Examples.Workers.{Pipe, Setting, run_of}

-- The FIN and REQ among commands.
abbrev pub finals_of : List Command → List Command
finals_of [] = []
finals_of (Command.finish id ∷ cmds) = Command.finish id ∷ finals_of cmds
finals_of (Command.requeue id d ∷ cmds) = Command.requeue id d ∷ finals_of cmds
finals_of (_ ∷ cmds) = finals_of cmds

finals_of-append : (xs ys : List Command) → finals_of (xs ++ ys) ≡ finals_of xs ++ finals_of ys
finals_of-append [] ys = refl
finals_of-append (Command.finish id ∷ xs) ys = ap (Command.finish id ∷◌) (finals_of-append xs ys)
finals_of-append (Command.requeue id d ∷ xs) ys =
    ap (Command.requeue id d ∷◌) (finals_of-append xs ys)
finals_of-append (_ ∷ xs) ys = finals_of-append xs ys

map-append :
    {A : Type 0} {B : Type 0} (f : A → B) (xs : List A) (x : A)
    → map f (xs ++ (x ∷ [])) ≡ map f xs ++ (f x ∷ [])
map-append f [] x = refl
map-append f (y ∷ ys) x = ap (f y ∷◌) (map-append f ys x)

abbrev pub one : Bool → Command → List Command
one silent cmd = if silent then [] else cmd ∷ []

own_finals :
    (silent : Bool) (id : Bytes) (r : Option Error)
    → finals_of (one silent (own_answer id r)) ≡ one silent (own_answer id r)
own_finals true id r = refl
own_finals false id none = refl
own_finals false id (some e) = refl

module _ (to_json : IdentifyConfig → Bytes ⊎ Bytes) where
  -- A connection was sent commands, of which these finish or requeue a message.
  abbrev pub Sent : Connection → Connection → List Command → Type 0
  Sent c c' answers =
      (cmds : List Command) × (c' ≡ send_each to_json cmds c) × (finals_of cmds ≡ answers)

  pub Sent-append :
      (c c' c'' : Connection) (xs ys : List Command)
      → Sent c c' xs
      → Sent c' c'' ys
      → Sent c c'' (xs ++ ys)
  Sent-append c c' c'' xs ys (a, e, f) (b, e', f') = (
    a ++ b,
    e' ∙ ap (send_each to_json b) e ∙ sym (send_each-append to_json a b c),
    finals_of-append a b ∙ ap (◌++ finals_of b) f ∙ ap (xs ++◌) f',
  )

  pub Sent-nothing : (c : Connection) → Sent c c []
  unfolding send_each
  Sent-nothing c = ([], refl, refl)

  -- A command that went out on the connection at an address.
  Sent-update :
      (a : ℕ) (cmd : Command) (cs : ℕ → Connection)
      → Sent (cs a) (update cs a (send_command to_json cmd (cs a)).1 a) (finals_of (cmd ∷ []))
  unfolding send_each
  Sent-update a cmd cs = (cmd ∷ [], update_self to_json cs a _, refl)

  module _ (a : ℕ) where
    -- What a shared state becomes: the flags stay, and the connection is sent these answers.
    abbrev Adds : Shared → Shared → List Command → Type 0
    Adds s s' answers =
        (s'.world.flags ≡ s.world.flags)
        × Sent (s.world.connections a) (s'.world.connections a) answers

    refill-Adds : (max : ℤ) (s : Shared) → Adds s (refill to_json max a s) []
    unfolding refill send_on
    refill-Adds max s =
        let P : Shared → Type 0 = λ s'. Adds s s' [] in
        let sent : (s.world.flags ≡ s.world.flags)
            × Sent (s.world.connections a)
                (update s.world.connections a
                  (send_command to_json (Command.ready (of_i32 max)) (s.world.connections a)).1 a)
                [] =
          (refl, Sent-update a (Command.ready (of_i32 max)) s.world.connections) in
        either P (leb_ℤ (fetch_sub s.rdy) (half max)) _ _
          (λ low.
            either P
              (succeeded
                (send_command to_json (Command.ready (of_i32 max)) (s.world.connections a)).0)
              _ _ (λ h. sent) (λ h. sent))
          (λ high. (refl, Sent-nothing (s.world.connections a)))

    conclude-flags :
        (disabled : Bool) (cmd : Command) (counted : Shared → Shared) (m : Message) (s : Shared)
        → ((t : Shared) → (counted t).world ≡ t.world)
        → (conclude to_json disabled cmd counted a m s).1.world.flags ≡ s.world.flags
    unfolding conclude send_on
    conclude-flags disabled cmd counted m s keeps =
        let sent : World = (send_on to_json a cmd s.world).1 in
        ground (arith, keeps (record s { world = sent }), keeps s)

    conclude_run-flags :
        (disabled : Bool) (r : Option Error) (m : Message) (s : Shared)
        → (conclude_run to_json disabled r a m s).1.world.flags ≡ s.world.flags
    conclude_run-flags disabled none m s =
        conclude-flags disabled (Command.finish (id_string m)) count_finished m s (λ t. refl)
    conclude_run-flags disabled (some e) m s =
        conclude-flags disabled (Command.requeue (id_string m) 0) count_requeued m s (λ t. refl)

    -- The task of a message that its handler passed on.
    pub task-Adds :
        (disabled : Bool) (max : ℤ) (r : Option Error) (m : Message) (s : Shared) (final : Bool)
        → m.auto_response_disabled ≡ false
        → s.world.flags m.responded ≡ final
        → Adds s
            (task to_json disabled max (run_of r) a m s)
            (one (disabled || final) (own_answer (id_string m) r))
    unfolding task answer handle perform_all
    task-Adds disabled max r m s final auto flag =
        let x = conclude_run to_json disabled r a m s in
        let answers = one (disabled || final) (own_answer (id_string m) r) in
        let concluded : Adds s x.1 answers = (
          conclude_run-flags disabled r m s,
          (
            answers,
            conclude_run-sends to_json disabled r a m s final auto flag,
            own_finals (disabled || final) (id_string m) r,
          ),
        ) in
        let (flags, sent) = refill-Adds max x.1 in
        either (λ s'. Adds s s' answers) x.0 _ _
          (λ goes_on. (
            flags ∙ concluded.0,
            subst (Sent (s.world.connections a) ((refill to_json max a x.1).world.connections a))
                (append-nil answers)
                (Sent-append (s.world.connections a) (x.1.world.connections a)
                  ((refill to_json max a x.1).world.connections a) answers [] concluded.1 sent),
          ))
          (λ stops. concluded)

-- A message that came in from the connection; the flags number the messages.
abbrev pub Arrives : Setting → ℕ → Type 0
Arrives on k =
    let m = on.messages k in
    (m.connection ≡ some (record { connection = on.address; msg_id = id_string m }))
    × (m.auto_response_disabled ≡ false)
    × (m.responded ≡ k)

-- The answer that a worker gives.
abbrev pub worker_answer : Message → Bool → Command
worker_answer m failed =
    if failed && not (ltb 3 m.attempts)
    then Command.requeue (id_string m) 5000
    else Command.finish (id_string m)

-- The answers to the messages so far: in the manual mode those of the workers, in the order in which they
-- were done; in the automatic mode those of the tasks, in the order in which the handler returned.
abbrev pub answers_of : Setting → Pipe → List Command
answers_of on p =
    if on.manual
    then map (λ e. worker_answer (on.messages e.0) e.1) p.ended
    else map (λ e. own_answer (id_string (on.messages e.0)) e.1) p.results

-- How the answers grow with a round of a worker, and with a result of the handler.
module _ {A : Type 0} (f : A → Command) where
  pub grows :
      (b : Bool) (xs : List A) (x : A) (ys : List Command)
      → (if b then map f (xs ++ (x ∷ [])) else ys)
        ≡ (if b then map f xs else ys) ++ one (not b) (f x)
  grows true xs x ys = map-append f xs x
  grows false xs x ys = sym (append-nil ys)

  pub grows_other :
      (b : Bool) (xs : List A) (x : A) (ys : List Command)
      → (if b then ys else map f (xs ++ (x ∷ []))) ≡ (if b then ys else map f xs) ++ one b (f x)
  grows_other true xs x ys = sym (append-nil ys)
  grows_other false xs x ys = map-append f xs x

pub silent_of : (b c : Bool) → (b || (b && c)) ≡ b
silent_of true c = refl
silent_of false c = refl

pub and_false : (b : Bool) → (b && false) ≡ false
and_false true = refl
and_false false = refl

pub nothing_yet : (b : Bool) → ◌≡◌ {A = List Command} (if b then [] else []) []
nothing_yet true = refl
nothing_yet false = refl

pub worker_finals :
    (m : Message) (failed : Bool)
    → finals_of (worker_answer m failed ∷ []) ≡ worker_answer m failed ∷ []
worker_finals m failed =
    either (λ cmd. finals_of (cmd ∷ []) ≡ cmd ∷ []) (failed && not (ltb 3 m.attempts)) _ _
      (λ h. refl) (λ h. refl)

module _ (to_json : IdentifyConfig → Bytes ⊎ Bytes) (a : ℕ) (m : Message) (w : World) where
  -- What a final response to a message makes of the world.
  abbrev pub Replies : World → Command → Type 0
  Replies w' cmd =
      (w'.flags ≡ update w.flags m.responded true)
      × Sent to_json (w.connections a) (w'.connections a) (finals_of (cmd ∷ []))

  pub respond-Replies :
      (cmd : Bytes → Command)
      → m.connection ≡ some (record { connection = a; msg_id = id_string m })
      → w.flags m.responded ≡ false
      → Replies (respond_once to_json cmd m w).1 (cmd (id_string m))
  respond-Replies cmd at unset =
      subst (λ w'. Replies w' (cmd (id_string m)))
        (sym (
          respond_once_first to_json cmd m (record { connection = a; msg_id = id_string m }) w unset
            at))
        (refl, Sent-update to_json a (cmd (id_string m)) w.connections)
