-- ===== src/Tests/Network.antt =====
-- A network for the tests: every dial gives a stream on which nsqd says OK to the handshake and then to
-- two requests. An operation that fails is called once more.
use nsq_async_rs.Base.{inl, none, [], ◌∷◌, ◌≡◌, refl, ap}
use mathlib.Core.Path.{subst}
use nsq_async_rs.Base.Octets.{Bytes}
use nsq_async_rs.Error.{permanent, transient, Outcome}
use nsq_async_rs.Connection.{Connection}
use nsq_async_rs.Connection.Frames.{with_input, frame_on}
use nsq_async_rs.Network.{Env, Net}
use nsq_async_rs.Network.Backoff.{
  Attempt, fails, BackoffConfig, last, Retries, ends, again, Promise,
}
use nsq_async_rs.Tests.Protocol.{no_json}
use nsq_async_rs.Tests.Connection.{line}

module _ {S A : Type 0} (op : S → Attempt A × S) where
  abbrev second : Attempt A × S → Outcome A × S
  second (fails (transient e), s) = (last (op s).0, (op s).1)
  second (fails (permanent e), s) = (Outcome.err e, s)
  second (Attempt.ok a, s) = (Outcome.ok a, s)
  second (Attempt.panic, s) = (Outcome.panic, s)
  second (Attempt.hang, s) = (Outcome.hang, s)

  stops : (s : S) (x : Attempt A × S) → op s ≡ x → Retries op s (last x.0, x.1)
  stops s x h = subst (λ y. Retries op s (last y.0, y.1)) h (ends s)

  second-Retries : (s : S) (x : Attempt A × S) → op s ≡ x → Retries op s (second x)
  second-Retries s (fails (transient e), s') h = again s e (ap (λ y. y.0) h) (rw h (ends s'))
  second-Retries s (fails (permanent e), s') h = stops s _ h
  second-Retries s (Attempt.ok a, s') h = stops s _ h
  second-Retries s (Attempt.panic, s') h = stops s _ h
  second-Retries s (Attempt.hang, s') h = stops s _ h

abbrev pub twice : (S A : Type 0) → BackoffConfig → (S → Attempt A × S) → S → Outcome A × S
twice S A b op s = second op (op s)

pub twice_promised : Promise twice
twice_promised S A b limit op s e = second-Retries op s (op s) refl

-- "OK"
abbrev pub okay : Bytes
okay = 79 ∷ 75 ∷ []

abbrev pub peer : Connection
peer = with_input (frame_on 0 okay (frame_on 0 okay (frame_on 0 okay []))) (line 9)

abbrev pub env : Env
env = record {
  to_json = no_json;
  tcp = λ _ _. inl peer;
  debug = λ _. [];
  host = none;
  version = [];
  retry = twice;
}

abbrev pub net : Net
net = record { live = λ _. line 0; next = 0; dials = 0 }
