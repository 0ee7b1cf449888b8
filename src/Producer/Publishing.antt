-- ===== src/Producer/Publishing.antt =====
-- What it means for a publishing method of src/producer.rs to succeed.
use nsq_async_rs.Base.{
  ℕ, zero, suc, ◌⊎◌, inl, inr, true, some, List, [], ◌∷◌, ◌≡◌, ◌≢◌, refl, sym, ap, ◌∙◌, arith,
}
use nsq_async_rs.Base.Octets.{Bytes, as_u32}
use nsq_async_rs.Error.{Outcome, ok, err, panic, hang}
use nsq_async_rs.Protocol.Command.{Command, to_bytes}
use nsq_async_rs.Protocol.Frame.{Frame}
use nsq_async_rs.Connection.{
  Connection, WriteEnd, stuck, breaks, blocked, write_bytes, write_all, read_frame,
}
use nsq_async_rs.Connection.Setup.{after_write, write_all_room}
use nsq_async_rs.Network.{Env}
use nsq_async_rs.Network.Backoff.{Attempt, Promise, Retries, Retries-ok}
use nsq_async_rs.Producer.{
  Producer, set_conn, get_publish_connection, judge, written, send_wire, attempt, retried, publish,
  publish_delayed, publish_multi,
}

-- The three publishing methods.
pub data Publication : Type 0 where
  one : Bytes → Publication
  delayed : Bytes → ℕ → Publication
  many : List Bytes → Publication

abbrev pub publishes : Env → ℕ → Bytes → Publication → Producer → Outcome (Unit {0}) × Producer
publishes env cell topic (one m) = publish env cell topic m
publishes env cell topic (delayed m d) = publish_delayed env cell topic m d
publishes env cell topic (many ms) = publish_multi env cell topic ms

abbrev pub request : Bytes → Publication → Command
request topic (one m) = Command.publish topic m
request topic (delayed m d) = Command.delayed_publish topic m (as_u32 d)
request topic (many ms) = Command.mpublish topic ms

-- A request was written whole to the connection that publishing uses, and a response frame was read
-- from it behind that.
pub record IsAnswered (env : Env) (cell : ℕ) (topic wire : Bytes) (p q : Producer) : Type 0 where
  pub a : ℕ
  pub room : ℕ
  pub payload : Bytes
  pub here : Producer
  pub there : Connection
  pub found : get_publish_connection env topic p ≡ (ok a, here)
  pub whole : (here.net.live a).write_room ≡ suc room
  pub answered :
      read_frame cell (after_write wire room (here.net.live a))
      ≡ (ok (Frame.response payload), there)
  pub left : q ≡ set_conn a there here

judge_ok :
    (env : Env) (r : Outcome Frame)
    → judge env r ≡ Attempt.ok tt
    → (d : Bytes) × (r ≡ ok (Frame.response d))
unfolding judge
judge_ok env (ok (Frame.response d)) h = (d, refl)
judge_ok env (ok (Frame.error d)) h = cc
judge_ok env (ok (Frame.message m)) h = cc
judge_ok env (err e) h = cc
judge_ok env panic h = cc
judge_ok env hang h = cc

Room-cases : (n : ℕ) → (n ≡ 0) ⊎ ((k : ℕ) × (n ≡ suc k))
Room-cases zero = inl refl
Room-cases (suc k) = inr (k, refl)

blocked-ne-ok : (w : WriteEnd) → blocked true w ≢ ok tt
unfolding blocked
blocked-ne-ok (breaks x) h = cc
blocked-ne-ok stuck h = cc

-- A write that succeeds puts out all bytes.
write_bytes_ok :
    (wire : Bytes) (c : Connection)
    → (write_bytes wire c).0 ≡ ok tt
    → (room : ℕ) × (c.write_room ≡ suc room) × ((write_bytes wire c).1 ≡ after_write wire room c)
unfolding write_bytes write_all
write_bytes_ok wire c h = elim (Room-cases c.write_room) [
  | inl e ↦ absurd (blocked-ne-ok c.write_end (ground (arith, e)))
  | inr (k, e) ↦ (k, e, ap (λ x. x.1) (write_all_room true wire c k e))
]

response_pair :
    (r : Outcome Frame × Connection) (d : Bytes) (c : Connection)
    → r.0 ≡ ok (Frame.response d)
    → r.1 ≡ c
    → r ≡ (ok (Frame.response d), c)
response_pair r d c e e' = ground arith

module _ (env : Env) (cell : ℕ) where
  written_ok :
      (x : Outcome (Unit {0}) × Connection) (c : Connection)
      → (written env cell x).0 ≡ Attempt.ok tt
      → (written env cell x).1 ≡ c
      → (x.0 ≡ ok tt) × (d : Bytes) × (read_frame cell x.1 ≡ (ok (Frame.response d), c))
  written_ok (ok tt, c') c h h' =
      let (d, e) = judge_ok env (read_frame cell c').0 h in
      (refl, d, response_pair (read_frame cell c') d c e h')
  written_ok (err e, c') c h h' = cc
  written_ok (panic, c') c h h' = cc
  written_ok (hang, c') c h h' = cc

  module _ (topic wire : Bytes) where
    sent_ok :
        (p q : Producer) (r : Outcome ℕ × Producer)
        → get_publish_connection env topic p ≡ r
        → (send_wire env cell wire r.0 r.1).0 ≡ Attempt.ok tt
        → (send_wire env cell wire r.0 r.1).1 ≡ q
        → IsAnswered env cell topic wire p q
    unfolding send_wire
    sent_ok p q (ok a, here) g h h' =
        let c = here.net.live a in
        let (fine, d, e) =
          written_ok (write_bytes wire c) (written env cell (write_bytes wire c)).1 h refl in
        let (room, w, after) = write_bytes_ok wire c fine in
        record {
          a = a;
          room = room;
          payload = d;
          here = here;
          there = (written env cell (write_bytes wire c)).1;
          found = g;
          whole = w;
          answered = ap (read_frame cell) (sym after) ∙ e;
          left = sym h';
        }
    sent_ok p q (err e, here) g h h' = cc
    sent_ok p q (panic, here) g h h' = cc
    sent_ok p q (hang, here) g h h' = cc

    attempt_ok :
        (p q : Producer)
        → (attempt env cell topic wire p).0 ≡ Attempt.ok tt
        → (attempt env cell topic wire p).1 ≡ q
        → IsAnswered env cell topic wire p q
    unfolding attempt
    attempt_ok p q h h' = sent_ok p q (get_publish_connection env topic p) refl h h'

-- The request of a publication stands behind the answer that its success means; `u` is the producer
-- before the call of the operation that succeeded.
abbrev pub Confirmed : Env → ℕ → Bytes → Publication → Producer → Type 0
Confirmed env cell topic m q =
    (wire : Bytes) × (u : Producer) × (to_bytes env.to_json (request topic m) ≡ ok wire)
    × IsAnswered env cell topic wire u q

tries_ok :
    (env : Env) (cell : ℕ) (topic wire : Bytes) (p q : Producer) (r : Outcome (Unit {0}) × Producer)
    → Retries (attempt env cell topic wire) p r
    → r.0 ≡ ok tt
    → r.1 ≡ q
    → (u : Producer) × IsAnswered env cell topic wire u q
tries_ok env cell topic wire p q r tries h h' =
    let (u, _, e, e') =
      Retries-ok (attempt env cell topic wire) (λ _. Unit {0}) (λ _ _. tt) tries tt tt h in
    (u, attempt_ok env cell topic wire u q e (e' ∙ h'))

-- The retries of a request, or what its encoding comes to instead.
retried_inv :
    (env : Env) (cell : ℕ) (topic : Bytes) (o : Outcome Bytes) (p : Producer)
    → (retried env cell topic o p).0 ≡ ok tt
    → (wire : Bytes) × (o ≡ ok wire)
retried_inv env cell topic (ok wire) p h = (wire, refl)
retried_inv env cell topic (err e) p h = cc
retried_inv env cell topic panic p h = cc
retried_inv env cell topic hang p h = cc

retried_ok :
    (env : Env) (cell limit : ℕ) (topic : Bytes) (o : Outcome Bytes) (p q : Producer)
    → Promise env.retry
    → p.config.backoff_config.max_elapsed_time ≡ some limit
    → (retried env cell topic o p).0 ≡ ok tt
    → (retried env cell topic o p).1 ≡ q
    → (wire : Bytes) × (u : Producer) × (o ≡ ok wire) × IsAnswered env cell topic wire u q
retried_ok env cell limit topic o p q promise timed h h' =
    let (wire, e) = retried_inv env cell topic o p h in
    let (u, answered) =
      tries_ok env cell topic wire p q
        (env.retry Producer (Unit {0}) p.config.backoff_config (attempt env cell topic wire) p)
        (promise Producer (Unit {0}) p.config.backoff_config limit (attempt env cell topic wire) p
          timed)
        (ap (λ x. (retried env cell topic x p).0) (sym e) ∙ h)
        (ap (λ x. (retried env cell topic x p).1) (sym e) ∙ h') in
    (wire, u, e, answered)

-- Where the time for retries is limited, a publishing method that returns `Ok` has, in its last try,
-- written the whole request of its message or messages to the connection for the topic, and has read
-- a response frame from it after that; the one exception is an empty list of messages, for which it
-- does nothing.
pub publishes_ok :
    (env : Env) (cell limit : ℕ) (topic : Bytes) (m : Publication) (p q : Producer)
    → Promise env.retry
    → p.config.backoff_config.max_elapsed_time ≡ some limit
    → publishes env cell topic m p ≡ (ok tt, q)
    → ((m ≡ many []) × (q ≡ p)) ⊎ Confirmed env cell topic m q
unfolding publish publish_delayed publish_multi
publishes_ok env cell limit topic (one m) p q promise timed h =
    inr (retried_ok env cell limit topic _ p q promise timed (ap (λ x. x.0) h) (ap (λ x. x.1) h))
publishes_ok env cell limit topic (delayed m d) p q promise timed h =
    inr (retried_ok env cell limit topic _ p q promise timed (ap (λ x. x.0) h) (ap (λ x. x.1) h))
publishes_ok env cell limit topic (many []) p q promise timed h = inl (refl, sym (ap (λ x. x.1) h))
publishes_ok env cell limit topic (many (m ∷ ms)) p q promise timed h =
    inr (retried_ok env cell limit topic _ p q promise timed (ap (λ x. x.0) h) (ap (λ x. x.1) h))
