-- ===== src/Connection/Sending.antt =====
-- `send_command` of src/connection.rs: what a sequence of commands leaves on the wire.
use nsq_async_rs.Base.{
  ℕ, suc, ◌+◌, true, ◌⊎◌, inl, some, List, [], ◌∷◌, ◌++◌, length, append_assoc, append-nil, ◌≡◌,
  refl, sym, ap, ◌∙◌, arith, All,
}
use nsq_async_rs.Base.Octets.{Bytes}
use nsq_async_rs.Error.{Outcome, ok}
use nsq_async_rs.Protocol.Command.{IdentifyConfig, Command, to_bytes}
use nsq_async_rs.Protocol.Command.Request.{Request, read_request}
use nsq_async_rs.Protocol.RoundTrip.{Asks, IsSendable, to_bytes-IsFramed}
use nsq_async_rs.Connection.{Connection, Act, pure, fail, ◌>>◌, write_bytes, send_command}
use nsq_async_rs.Connection.Frames.{bind_ok}
use nsq_async_rs.Connection.Setup.{after_write, write_all_room}

-- The requests that a reader of the command stream gets from a byte string, to its end.
pub data Requests : Bytes → List Request → Type 0 where
  done : Requests [] []
  next :
      {r : Request} {rs : List Request} (input rest : Bytes)
      → read_request input ≡ some (r, rest)
      → Requests rest rs
      → Requests input (r ∷ rs)

-- A command asks for one thing.
Asks-unique :
    (to_json : IdentifyConfig → Bytes ⊎ Bytes) (cmd : Command) (r r' : Request)
    → Asks to_json cmd r
    → Asks to_json cmd r'
    → r ≡ r'
Asks-unique to_json (Command.identify c) r r' (j, e, p) (j', e', p') =
    p ∙ ap Request.identify (same_text j j' (sym e ∙ e')) ∙ sym p'
  where
    same_text : (x y : Bytes) → ◌≡◌ {A = Bytes ⊎ Bytes} (inl x) (inl y) → x ≡ y
    same_text x y q = cc
Asks-unique to_json Command.nop r r' p p' = p ∙ sym p'
Asks-unique to_json _ r r' p p' = p ∙ sym p'

module _ (to_json : IdentifyConfig → Bytes ⊎ Bytes) where
  pub send_all : List Command → Act (Unit {0})
  send_all [] = pure tt
  send_all (cmd ∷ cmds) = send_command to_json cmd >> send_all cmds

  abbrev pub AllAsk : List Command → List Request → Type 0
  AllAsk [] [] = Unit {0}
  AllAsk (c ∷ cs) (r ∷ rs) = Asks to_json c r × AllAsk cs rs
  AllAsk _ _ = ⊥

  pub send_command_ok :
      (cmd : Command) (wire : Bytes) (c : Connection) (room : ℕ)
      → to_bytes to_json cmd ≡ ok wire
      → c.write_room ≡ suc room
      → send_command to_json cmd c ≡ (ok tt, after_write wire room c)
  unfolding send_command write_bytes
  send_command_ok cmd wire c room e w =
      bind_ok (fail (to_bytes to_json cmd)) write_bytes c (ap (λ r. (r, c)) e)
      ∙ write_all_room true wire c room w

  same :
      (c : Connection) (room : ℕ)
      → c.write_room ≡ room
      → ◌≡◌ {A = Outcome (Unit {0}) × Connection}
          (ok tt, c)
          (ok tt, record c { sent = c.sent ++ []; write_room = room })
  same c room w = ground (arith, append-nil c.sent)

  send_all_next :
      (cmd : Command) (cmds : List Command) (wire : Bytes) (c : Connection) (room : ℕ)
      → to_bytes to_json cmd ≡ ok wire
      → c.write_room ≡ suc room
      → send_all (cmd ∷ cmds) c ≡ send_all cmds (after_write wire room c)
  unfolding send_all
  send_all_next cmd cmds wire c room e w =
      bind_ok (send_command to_json cmd) (λ _. send_all cmds) c
        (send_command_ok cmd wire c room e w)

  -- The request of a command, and the wire that it is read from, do not depend on what follows.
  reads :
      (cmd : Command) (wire : Bytes) (r : Request)
      → IsSendable to_json cmd
      → to_bytes to_json cmd ≡ ok wire
      → Asks to_json cmd r
      → (rest : Bytes) → read_request (wire ++ rest) ≡ some (r, rest)
  reads cmd wire r h e a rest =
      let (wire', r', e', a', read) = to_bytes-IsFramed to_json cmd rest h in
      let w : wire ≡ wire' = cc in rw (w, Asks-unique to_json cmd r r' a a') read

  -- Sendable commands that are sent one after the other, while writes go through, leave on the wire
  -- bytes that a reader of the command stream splits into just the requests that the commands stand
  -- for, in their order and with nothing left.
  pub send_all-Requests :
      (cmds : List Command) (c : Connection) (room : ℕ)
      → All (IsSendable to_json) cmds
      → c.write_room ≡ length cmds + room
      → (wire : Bytes) × (rs : List Request) × (send_all cmds c
          ≡ (ok tt, record c { sent = c.sent ++ wire; write_room = room }))
        × Requests wire rs
        × AllAsk cmds rs
  send_all-Requests [] c room h w =
      ([], [], unfold send_all in same c room (w ∙ omega arith), done, tt)
  send_all-Requests (cmd ∷ cmds) c room h w =
      let (wire, r, e, a, read) = to_bytes-IsFramed to_json cmd [] h.0 in
      let mid = after_write wire (length cmds + room) c in
      let (wire', rs, e', reqs, as') = send_all-Requests cmds mid room h.1 refl in
      (
        wire ++ wire',
        r ∷ rs,
        send_all_next cmd cmds wire c (length cmds + room) e (w ∙ omega arith)
            ∙ e'
            ∙ ap
                (λ (s : Bytes).
                  let p : Outcome (Unit {0}) × Connection =
                    (ok tt, record c { sent = s; write_room = room }) in
                  p)
                (append_assoc c.sent wire wire'),
        next (wire ++ wire') wire' (reads cmd wire r h.0 e a wire') reqs,
        (a, as'),
      )
