-- ===== src/Consumer/Session/Ends.antt =====
-- What the loop does on heartbeats, and how it comes to its end.
use nsq_async_rs.Base.{
  ℕ, suc, ◌≡◌, refl, ap, ◌∙◌, true, false, ◌⊎◌, none, some, [], ◌∷◌, ◌++◌, arith,
}
use nsq_async_rs.Base.Octets.{Bytes, be32, bytes_eq}
use nsq_async_rs.Base.Text.{bytes}
use nsq_async_rs.Error.{Outcome, ok, err, panic, hang}
use nsq_async_rs.Protocol.Command.{IdentifyConfig, Command, to_bytes}
use nsq_async_rs.Protocol.Frame.{Frame, decode_frame}
use nsq_async_rs.Connection.{Connection, read_frame}
use nsq_async_rs.Connection.Frames.{with_input, frame_on, read_frame-frame_on}
use nsq_async_rs.Connection.Setup.{after_write}
use nsq_async_rs.Connection.Sending.{send_command_ok}
use nsq_async_rs.Responder.{update, send_on}
use nsq_async_rs.Consumer.Session.{
  Settings, Session, tick, frame, stop, loop_top, or_return, sends, on_frame, receive, in_select,
  step, run,
}

pub update_same : (f : ℕ → Connection) (p : ℕ) (c : Connection) → update f p c p ≡ c
update_same f p c = ground arith

pub in_select_going :
    (f : Session → Session) (s : Session) → s.result ≡ none → s.pending ≡ none → in_select f s ≡ f s
unfolding in_select
in_select_going f s going free = ground (arith, going, free)

-- A loop that is stopped returns what its last step comes to.
or_return_stopped :
    (r : Outcome (Unit {0})) (s : Session) → s.is_running ≡ false → (or_return r s).result ≡ some r
unfolding or_return loop_top
or_return_stopped (ok tt) s stopped = rw stopped
or_return_stopped (err e) s stopped = refl
or_return_stopped panic s stopped = refl
or_return_stopped hang s stopped = refl

or_return_running : (s : Session) → s.is_running ≡ true → or_return (ok tt) s ≡ s
unfolding or_return loop_top
or_return_running s running = rw running

module _ (to_json : IdentifyConfig → Bytes ⊎ Bytes) (config : Settings) (a : ℕ) where
  -- A consumer that is stopped while a connection's loop waits for events leaves this loop at its next
  -- heartbeat: with `Ok` if the heartbeat could be sent, and else with the error of sending it.
  pub stop-tick :
      (s : Session)
      → s.result ≡ none
      → s.pending ≡ none
      → (run to_json config a s (stop ∷ tick ∷ [])).result
        ≡ some (send_on to_json a Command.nop s.shared.world).0
  unfolding run step sends
  stop-tick s going free =
      ap (λ t. t.result)
        (in_select_going (sends to_json config a Command.nop) (record s { is_running = false })
          going free)
      ∙ or_return_stopped (send_on to_json a Command.nop s.shared.world).0 _ refl

  heartbeat_decodes :
      (cell : ℕ)
      → decode_frame cell (be32 0 ++ bytes "_heartbeat_")
        ≡ ok (Frame.response (bytes "_heartbeat_"))
  unfolding decode_frame be32 bytes
  heartbeat_decodes cell = refl

  reads_heartbeat :
      (cell : ℕ) (rest : Bytes) (c : Connection)
      → read_frame cell (with_input (frame_on 0 (bytes "_heartbeat_") rest) c)
        ≡ (ok (Frame.response (bytes "_heartbeat_")), with_input rest c)
  reads_heartbeat cell rest c =
      read_frame-frame_on cell 0 (bytes "_heartbeat_") rest c (omega arith)
        (unfold bytes in omega arith)
      ∙ ap (λ r. (r, with_input rest c)) (heartbeat_decodes cell)

  -- The NOP that a loop sends, and the loop behind it.
  pub sends_nop :
      (s : Session) (room : ℕ)
      → s.is_running ≡ true
      → (s.shared.world.connections a).write_room ≡ suc room
      → sends to_json config a Command.nop s ≡ record s {
        shared = record s.shared {
          world = record s.shared.world {
            connections =
                update s.shared.world.connections a
                  (after_write (bytes "NOP\n") room (s.shared.world.connections a));
          };
        };
      }
  unfolding sends send_on to_bytes
  sends_nop s room running w =
      rw
        (send_command_ok to_json Command.nop (bytes "NOP\n") (s.shared.world.connections a) room
          refl w)
        (or_return_running _ running)

  -- A session whose connection has been read from.
  abbrev pub after_read : Session → Connection → Session
  after_read s c = record s {
    shared = record s.shared {
      world = record s.shared.world { connections = update s.shared.world.connections a c };
    };
  }

  on_heartbeat :
      (s : Session)
      → on_frame to_json config a (ok (Frame.response (bytes "_heartbeat_"))) s
        ≡ sends to_json config a Command.nop s
  unfolding on_frame bytes bytes_eq
  on_heartbeat s = refl

  receive_heartbeat :
      (s : Session) (rest : Bytes) (c : Connection)
      → s.shared.world.connections a ≡ with_input (frame_on 0 (bytes "_heartbeat_") rest) c
      → receive to_json config a s
        ≡ sends to_json config a Command.nop (after_read s (with_input rest c))
  unfolding receive
  receive_heartbeat s rest c conn =
      ap (λ p. on_frame to_json config a p.0 (after_read s p.1))
        (ap (read_frame s.fresh) conn ∙ reads_heartbeat s.fresh rest c)
      ∙ on_heartbeat (after_read s (with_input rest c))

  pub step_frame :
      (s : Session)
      → s.result ≡ none
      → s.pending ≡ none
      → step to_json config a s frame ≡ receive to_json config a s
  unfolding step
  step_frame s going free = in_select_going (receive to_json config a) s going free

  -- A heartbeat of nsqd is answered by a loop that has not returned and waits for no permit, if the
  -- consumer runs and one more write goes through: the loop takes the heartbeat from the stream, sends
  -- NOP and nothing else, and goes on.
  pub heartbeat_answered :
      (s : Session) (rest : Bytes) (c : Connection) (room : ℕ)
      → s.result ≡ none
      → s.pending ≡ none
      → s.is_running ≡ true
      → s.shared.world.connections a ≡ with_input (frame_on 0 (bytes "_heartbeat_") rest) c
      → c.write_room ≡ suc room
      → let s' = step to_json config a s frame in
        (s'.shared.world.connections a ≡ after_write (bytes "NOP\n") room (with_input rest c))
        × (s'.result ≡ none)
  heartbeat_answered s rest c room going free running conn w =
      let next = after_read s (with_input rest c) in
      let here : next.shared.world.connections a ≡ with_input rest c =
        update_same s.shared.world.connections a (with_input rest c) in
      let e : step to_json config a s frame ≡ _ =
        step_frame s going free
        ∙ receive_heartbeat s rest c conn
        ∙ sends_nop next room running (ap (λ d. d.write_room) here ∙ w) in
      (
        ap (λ t. t.shared.world.connections a) e
            ∙ update_same next.shared.world.connections a _
            ∙ ap (after_write (bytes "NOP\n") room) here,
        ap (λ t. t.result) e ∙ going,
      )
