-- ===== src/Consumer/Registry/Leaving.antt =====
-- What `disconnect_from_nsqd` and `stop` leave behind.
use nsq_async_rs.Base.{
  ℕ, zero, suc, ◌==◌, ==_iff, ◌⊎◌, inl, inr, true, false, Bool-cases, none, some, Option-cases,
  List, [], ◌∷◌, take, All, ◌≡◌, refl, sym, ap, ◌∙◌, arith,
}
use mathlib.Core.Path.{subst}
use nsq_async_rs.Base.Octets.{Bytes}
use nsq_async_rs.Base.Int.{pos}
use nsq_async_rs.Base.Text.{bytes}
use nsq_async_rs.Base.Assoc.{lookup, remove, remove-Lacks, lookup_of_Lacks}
use nsq_async_rs.Error.{broken_pipe, Error, Outcome, ok, err}
use nsq_async_rs.Protocol.Command.{IdentifyConfig, Command, to_bytes}
use nsq_async_rs.Connection.{
  Connection, breaks, close, send_command, write_bytes, write_all, blocked,
}
use nsq_async_rs.Network.{Net, put_live}
use nsq_async_rs.Responder.{send_on}
use nsq_async_rs.Consumer.Retry.{retries}
use nsq_async_rs.Consumer.Session.{Settings, Session, tick, sends, or_return, step}
use nsq_async_rs.Consumer.Session.Ends.{in_select_going}
use nsq_async_rs.Consumer.Registry.{Consumer, disconnect_from_nsqd, close_each, stop}

-- The error of writing behind a shutdown.
abbrev pub shut : Error
shut = Error.io (record { kind = broken_pipe; message = bytes "broken pipe" })

-- A connection whose write half is shut down.
pub record IsShut (c : Connection) : Type 0 where
  pub full : c.write_room ≡ 0
  pub ended : c.write_end ≡ breaks (record { kind = broken_pipe; message = bytes "broken pipe" })

close-IsShut : (c : Connection) → c.shutdown_result ≡ none → IsShut (close c).1
unfolding close
close-IsShut c e = rw (e, close) (record { full = refl; ended = refl })

retries-shut : retries shut ≡ true
unfolding retries
retries-shut = refl

-- Nothing can be sent on it.
send_command-IsShut :
    (to_json : IdentifyConfig → Bytes ⊎ Bytes) (cmd : Command) (wire : Bytes) (c : Connection)
    → IsShut c
    → to_bytes to_json cmd ≡ ok wire
    → (send_command to_json cmd c).0 ≡ err shut
unfolding send_command write_bytes write_all blocked
send_command-IsShut to_json cmd wire c h e = ground (arith, h.full, h.ended, e)

nop_bytes :
    (to_json : IdentifyConfig → Bytes ⊎ Bytes) → to_bytes to_json Command.nop ≡ ok (bytes "NOP\n")
unfolding to_bytes
nop_bytes to_json = refl

or_return-shut :
    (r : Outcome (Unit {0})) (s : Session) → r ≡ err shut → (or_return r s).result ≡ some (err shut)
unfolding or_return
or_return-shut r s e = ap (λ x. (or_return x s).result) e

disconnected_live :
    (addr : Bytes) (a : ℕ) (c : Consumer)
    → lookup addr c.connections ≡ some a
    → (disconnect_from_nsqd addr c).1.net.live a ≡ (close (c.net.live a)).1
unfolding disconnect_from_nsqd
disconnected_live addr a c found = rw (found, disconnect_from_nsqd) (ground arith)

-- The address is out of the map.
disconnected_lookup :
    (addr : Bytes) (a : ℕ) (c : Consumer)
    → lookup addr c.connections ≡ some a
    → lookup addr (disconnect_from_nsqd addr c).1.connections ≡ none
unfolding disconnect_from_nsqd
disconnected_lookup addr a c found =
    rw (found, disconnect_from_nsqd)
      (lookup_of_Lacks addr (remove addr c.connections) (remove-Lacks addr c.connections))

module _ (to_json : IdentifyConfig → Bytes ⊎ Bytes) (config : Settings) (a : ℕ) where
  tick-IsShut :
      (s : Session)
      → s.result ≡ none
      → s.pending ≡ none
      → IsShut (s.shared.world.connections a)
      → (step to_json config a s tick).result ≡ some (err shut)
  unfolding step sends send_on
  tick-IsShut s going free h =
      ap (λ t. t.result) (in_select_going (sends to_json config a Command.nop) s going free)
      ∙ or_return-shut _ _ (
          send_command-IsShut to_json Command.nop (bytes "NOP\n") (s.shared.world.connections a) h
            (nop_bytes to_json))

  -- A connection that is given up comes back. If `disconnect_from_nsqd` finds the connection in the map
  -- and shuts its write half without an error, the map does not have its address any more; but its task
  -- knows nothing of that: if its loop waits for an event, and not for a permit, then at the next
  -- heartbeat it fails with an error after which the task connects again.
  pub disconnect_reconnects :
      (addr : Bytes) (c c' : Consumer) (s : Session)
      → lookup addr c.connections ≡ some a
      → (c.net.live a).shutdown_result ≡ none
      → disconnect_from_nsqd addr c ≡ (ok tt, c')
      → s.shared.world.connections a ≡ c'.net.live a
      → s.result ≡ none
      → s.pending ≡ none
      → (lookup addr c'.connections ≡ none)
        × ((step to_json config a s tick).result ≡ some (err shut))
        × (retries shut ≡ true)
  disconnect_reconnects addr c c' s found fine left conn going free =
      let gone : s.shared.world.connections a ≡ (close (c.net.live a)).1 =
        conn ∙ sym (ap (λ x. x.1.net.live a) left) ∙ disconnected_live addr a c found in
      (
        sym (ap (λ x. lookup addr x.1.connections) left) ∙ disconnected_lookup addr a c found,
        tick-IsShut s going free (subst IsShut (sym gone) (close-IsShut (c.net.live a) fine)),
        retries-shut,
      )

close-keeps-IsShut : (c : Connection) → IsShut c → IsShut (close c).1
unfolding close
close-keeps-IsShut c h = elim (Option-cases c.shutdown_result) [
  | inl e ↦ rw (e, close) (record { full = refl; ended = refl })
  | inr (x, e) ↦ rw (e, close) h
]

put_live_at :
    (P : Connection → Type 0) (a b : ℕ) (c : Connection) (n : Net)
    → P c
    → P (n.live b)
    → P ((put_live a c n).live b)
put_live_at P a b c n h h' = elim (Bool-cases (a == b)) [ inl e ↦ rw e h | inr e ↦ rw e h' ]

put_live_self : (a : ℕ) (c : Connection) (n : Net) → IsShut c → IsShut ((put_live a c n).live a)
put_live_self a c n h = rw ((==_iff a a).1 refl) h

closed-IsShut :
    (a b : ℕ) (n : Net) → IsShut (n.live b) → IsShut ((put_live a (close (n.live a)).1 n).live b)
closed-IsShut a b n h = elim (Bool-cases (a == b)) [
  | inl e ↦
      rw e
        (close-keeps-IsShut (n.live a) (subst (λ x. IsShut (n.live x)) (sym ((==_iff a b).0 e)) h))
  | inr e ↦ rw e h
]

close_each-IsShut :
    (k : ℕ) (es : List (Bytes × ℕ)) (n : Net) (b : ℕ)
    → IsShut (n.live b)
    → IsShut ((close_each k es n).live b)
unfolding close_each
close_each-IsShut zero es n b h = h
close_each-IsShut (suc k) [] n b h = h
close_each-IsShut (suc k) ((addr, a) ∷ es) n b h =
    close_each-IsShut k es (put_live a (close (n.live a)).1 n) b (closed-IsShut a b n h)

-- Connections that shut down without an error.
abbrev pub AllClosable : Net → List (Bytes × ℕ) → Type 0
AllClosable n = All (λ e. (n.live e.1).shutdown_result ≡ none)

shutdown-close : (c : Connection) → (close c).1.shutdown_result ≡ c.shutdown_result
unfolding close
shutdown-close c = ground arith

closable-after :
    (a : ℕ) (es : List (Bytes × ℕ)) (n : Net)
    → (n.live a).shutdown_result ≡ none
    → AllClosable n es
    → AllClosable (put_live a (close (n.live a)).1 n) es
closable-after a [] n e h = tt
closable-after a (x ∷ es) n e h = (
  put_live_at (λ c. c.shutdown_result ≡ none) a x.1 (close (n.live a)).1 n
      (shutdown-close (n.live a) ∙ e) h.0,
  closable-after a es n e h.1,
)

close_each-reached :
    (k : ℕ) (es : List (Bytes × ℕ)) (n : Net)
    → AllClosable n es
    → All (λ e. IsShut ((close_each k es n).live e.1)) (take k es)
unfolding close_each
close_each-reached zero es n h = tt
close_each-reached (suc k) [] n h = tt
close_each-reached (suc k) ((addr, a) ∷ es) n h = (
  close_each-IsShut k es (put_live a (close (n.live a)).1 n) a
      (put_live_self a (close (n.live a)).1 n (close-IsShut (n.live a) h.0)),
  close_each-reached k es (put_live a (close (n.live a)).1 n) (closable-after a es n h.0 h.1),
)

-- Stopping a consumer empties its map and turns its loops off, and shuts the write half of each
-- connection that it reaches before its deadline, where connections shut down without an error.
pub stop-reached :
    (k : ℕ) (c : Consumer)
    → AllClosable c.net c.connections
    → let c' = (stop k c).1 in
      (c'.is_running ≡ false)
      × (c'.connections ≡ [])
      × (c'.connection_count ≡ pos 0)
      × All (λ e. IsShut (c'.net.live e.1)) (take k c.connections)
unfolding stop
stop-reached k c h = (refl, refl, refl, close_each-reached k c.connections c.net h)
