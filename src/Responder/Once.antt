-- ===== src/Responder/Once.antt =====
-- A message is responded to at most once, however often and through whichever clone.
use nsq_async_rs.Base.{
  ℕ, Bool, true, false, ◌||◌, Bool-cases, some, List, [], ◌∷◌, ◌⊎◌, inl, inr, ◌≡◌, refl, ap, ◌∙◌,
  arith,
}
use nsq_async_rs.Base.Octets.{Bytes}
use nsq_async_rs.Error.{Outcome, ok}
use nsq_async_rs.Protocol.Command.{IdentifyConfig, Command}
use nsq_async_rs.Protocol.Message.{Message, MessageResponder}
use nsq_async_rs.Connection.{Connection, send_command}
use nsq_async_rs.Responder.{World, update, respond, respond_once, send_on, finish, requeue, touch}

-- What a handler may do with its message.
pub data Response : Type 0 where
  finishes : Response
  requeues : ℕ → Response
  touches : Response

-- The commands that a sequence of responses comes to: touches, up to and with the first `finish` or
-- `requeue`, and none if there was one before.
abbrev pub effective : Bytes → Bool → List Response → List Command
effective id true rs = []
effective id false [] = []
effective id false (finishes ∷ rs) = Command.finish id ∷ []
effective id false (requeues d ∷ rs) = Command.requeue id d ∷ []
effective id false (touches ∷ rs) = Command.touch id ∷ effective id false rs

abbrev is_final : Response → Bool
is_final touches = false
is_final _ = true

abbrev pub any_final : List Response → Bool
any_final [] = false
any_final (r ∷ rs) = is_final r || any_final rs

-- A message with its connection and its flag.
abbrev pub Attached : MessageResponder → Message → Type 0
Attached r m = m.connection ≡ some r

module _ (to_json : IdentifyConfig → Bytes ⊎ Bytes) where
  unfoldable pub perform : Response → Message → World → Outcome (Unit {0}) × World
  perform finishes m w = finish to_json m w
  perform (requeues d) m w = requeue to_json d m w
  perform touches m w = touch to_json m w

  unfoldable pub perform_all : List Response → Message → World → World
  perform_all [] m w = w
  perform_all (r ∷ rs) m w = perform_all rs m (perform r m w).1

  -- A connection behind a sequence of commands, whether or not they could be written.
  unfoldable pub send_each : List Command → Connection → Connection
  send_each [] c = c
  send_each (cmd ∷ cmds) c = send_each cmds (send_command to_json cmd c).1

  perform_responded :
      (a : Response) (m : Message) (w : World)
      → w.flags m.responded ≡ true
      → perform a m w ≡ (ok tt, w)
  unfolding perform finish requeue touch
  perform_responded finishes m w h = ground (arith, h)
  perform_responded (requeues d) m w h = ground (arith, h)
  perform_responded touches m w h = ground (arith, h)

  perform_all_responded :
      (rs : List Response) (m : Message) (w : World)
      → w.flags m.responded ≡ true
      → perform_all rs m w ≡ w
  unfolding perform_all
  perform_all_responded [] m w h = refl
  perform_all_responded (r ∷ rs) m w h =
      rw (perform_responded r m w h) (perform_all_responded rs m w h)

  -- `finish` and `requeue` on a message not yet responded to.
  pub respond_once_first :
      (cmd : Bytes → Command) (m : Message) (r : MessageResponder) (w : World)
      → w.flags m.responded ≡ false
      → Attached r m
      → (respond_once to_json cmd m w).1 ≡ record {
        flags = update w.flags m.responded true;
        connections =
            update w.connections r.connection
              (send_command to_json (cmd r.msg_id) (w.connections r.connection)).1;
      }
  unfolding respond_once respond send_on
  respond_once_first cmd m r w h a = simp (h, a)

  touch_first :
      (m : Message) (r : MessageResponder) (w : World)
      → w.flags m.responded ≡ false
      → Attached r m
      → (touch to_json m w).1 ≡ record w {
        connections =
            update w.connections r.connection
              (send_command to_json (Command.touch r.msg_id) (w.connections r.connection)).1;
      }
  unfolding touch send_on
  touch_first m r w h a = simp (h, a)

  pub update_self : (f : ℕ → Connection) (p : ℕ) (v : Connection) → update f p v p ≡ v
  update_self f p v = ground arith

  flag_self : (f : ℕ → Bool) (p : ℕ) (v : Bool) → update f p v p ≡ v
  flag_self f p v = ground arith

  -- What a sequence of responses leaves: on the message's connection, and in its flag.
  abbrev pub Leaves : List Response → Message → MessageResponder → World → World → Type 0
  Leaves rs m r w w' =
      (w'.connections r.connection
        ≡ send_each (effective r.msg_id (w.flags m.responded) rs) (w.connections r.connection))
      × (w'.flags m.responded ≡ (w.flags m.responded || any_final rs))

  -- A final response sets the flag and sends its command, and what follows it does nothing.
  final-Leaves :
      (cmd : Bytes → Command) (rs : List Response) (m : Message) (r : MessageResponder)
      (w w' : World)
      → w.flags m.responded ≡ false
      → Attached r m
      → w' ≡ (respond_once to_json cmd m w).1
      → ((perform_all rs m w').connections r.connection
          ≡ send_each (cmd r.msg_id ∷ []) (w.connections r.connection))
        × ((perform_all rs m w').flags m.responded ≡ true)
  unfolding send_each
  final-Leaves cmd rs m r w w' h a e =
      rw (perform_all_responded rs m w' set)
        (rw first (update_self w.connections r.connection _), set)
    where
      first : w' ≡ record {
        flags = update w.flags m.responded true;
        connections =
            update w.connections r.connection
              (send_command to_json (cmd r.msg_id) (w.connections r.connection)).1;
      }
      first = e ∙ respond_once_first cmd m r w h a

      set : w'.flags m.responded ≡ true
      set = rw first (flag_self w.flags m.responded true)

  new-Leaves :
      (rs : List Response) (m : Message) (r : MessageResponder) (w : World)
      → w.flags m.responded ≡ false
      → Attached r m
      → ((perform_all rs m w).connections r.connection
          ≡ send_each (effective r.msg_id false rs) (w.connections r.connection))
        × ((perform_all rs m w).flags m.responded ≡ any_final rs)
  unfolding perform_all perform send_each
  new-Leaves [] m r w h a = (refl, h)
  new-Leaves (finishes ∷ rs) m r w h a =
      final-Leaves Command.finish rs m r w _ h a (unfold finish in refl)
  new-Leaves (requeues d ∷ rs) m r w h a =
      final-Leaves (λ id. Command.requeue id d) rs m r w _ h a (unfold requeue in refl)
  new-Leaves (touches ∷ rs) m r w h a =
      let w' : World = record w {
        connections =
            update w.connections r.connection
              (send_command to_json (Command.touch r.msg_id) (w.connections r.connection)).1;
      } in
      let (sends, sets) = new-Leaves rs m r w' h a in
      let first : (touch to_json m w).1 ≡ w' = touch_first m r w h a in
      (
        ap (λ v. (perform_all rs m v).connections r.connection) first
            ∙ sends
            ∙ ap (send_each (effective r.msg_id false rs))
                (update_self w.connections r.connection _),
        ap (λ v. (perform_all rs m v).flags m.responded) first ∙ sets,
      )

  -- However often a message is finished, requeued and touched, through this value or through any clone
  -- of it, its connection is sent the touches before the first `finish` or `requeue`, that one
  -- command, and nothing after it; nothing at all, if it had been responded to before. The flag then
  -- tells whether there was a response. All of this holds also where a command cannot be written.
  pub perform_all-Leaves :
      (rs : List Response) (m : Message) (r : MessageResponder) (w : World)
      → Attached r m
      → Leaves rs m r w (perform_all rs m w)
  perform_all-Leaves rs m r w a = elim (Bool-cases (w.flags m.responded)) [
    | inl done ↦ rw (perform_all_responded rs m w done) (rw done (unfold send_each in refl, refl))
    | inr new ↦ rw new (new-Leaves rs m r w new a)
  ]
