-- ===== src/Producer/Verdict.antt =====
-- What a try of a publishing method of src/producer.rs comes to, and when it does not come about.
use nsq_async_rs.Base.{
  ℕ, zero, suc, ◌+◌, ◌^◌, ◌≤◌, ◌<◌, true, some, List, [], ◌++◌, length, ◌≡◌, refl, ap, ◌∙◌,
}
use nsq_async_rs.Base.Octets.{Bytes}
use nsq_async_rs.Base.Text.{bytes, from_utf8_lossy}
use nsq_async_rs.Error.{Error, ProtocolError, permanent, transient, ok, err}
use nsq_async_rs.Protocol.Command.{Command, to_bytes}
use nsq_async_rs.Connection.{Connection, write_bytes}
use nsq_async_rs.Connection.Frames.{with_input, frame_on}
use nsq_async_rs.Connection.Setup.{after_write, write_all_room}
use nsq_async_rs.Commands.Answers.{answer_frame, read_answer}
use nsq_async_rs.Network.{Env}
use nsq_async_rs.Network.Backoff.{Attempt, Promise, Retries-permanent}
use nsq_async_rs.Producer.{
  Producer, set_conn, choose, get_publish_connection, judge, written, send_wire, attempt, retried,
  publish,
}

-- What an answer of nsqd to a request comes to: any response will do, and an error is one to retry.
abbrev pub verdict : ℕ → Bytes → Attempt (Unit {0})
verdict zero d = Attempt.ok tt
verdict _ d = Attempt.fails (transient (Error.protocol (ProtocolError.other (from_utf8_lossy d))))

pub judged : (env : Env) (t : ℕ) (d : Bytes) → judge env (ok (answer_frame t d)) ≡ verdict t d
unfolding judge
judged env zero d = refl
judged env (suc t) d = refl

written_answer :
    (env : Env) (cell t : ℕ) (d rest : Bytes) (c : Connection)
    → t ≤ 1
    → 4 + length d < 2 ^ 32
    → written env cell (ok tt, with_input (frame_on t d rest) c) ≡ (verdict t d, with_input rest c)
written_answer env cell t d rest c h fits =
    ap (λ x. (judge env x.0, x.1)) (read_answer cell t d rest c h fits)
    ∙ ap (λ j. (j, with_input rest c)) (judged env t d)

pub write_bytes_room :
    (wire : Bytes) (c : Connection) (room : ℕ)
    → c.write_room ≡ suc room
    → write_bytes wire c ≡ (ok tt, after_write wire room c)
unfolding write_bytes
write_bytes_room wire c room w = write_all_room true wire c room w

-- A try whose request can be written takes the next frame of the stream for nsqd's answer. A response
-- makes the publication succeed whatever it says, also the heartbeat that nsqd had sent before, whose
-- own answer then stays in the stream; an error makes it a failure to retry, with the text of nsqd.
pub attempt-verdict :
    (env : Env) (cell a t room : ℕ) (topic wire d rest : Bytes) (p here : Producer) (c : Connection)
    → get_publish_connection env topic p ≡ (ok a, here)
    → here.net.live a ≡ with_input (frame_on t d rest) c
    → c.write_room ≡ suc room
    → t ≤ 1
    → 4 + length d < 2 ^ 32
    → attempt env cell topic wire p
      ≡ (verdict t d, set_conn a (with_input rest (after_write wire room c)) here)
unfolding attempt send_wire
attempt-verdict env cell a t room topic wire d rest p here c found conn w h fits =
    ap (λ x. send_wire env cell wire x.0 x.1) found
    ∙ ap (λ x. (x.0, set_conn a x.1 here))
        (ap (λ e. written env cell (write_bytes wire e)) conn
          ∙ ap (written env cell) (write_bytes_room wire (with_input (frame_on t d rest) c) room w)
          ∙ written_answer env cell t d rest (after_write wire room c) h fits)

choose_unset :
    (env : Env) (missing unset : Error) (topic : Bytes) (xs ys : List Bytes) (p : Producer)
    → xs ≡ []
    → ys ≡ []
    → choose env missing unset topic xs ys p ≡ (err unset, p)
unfolding choose
choose_unset env missing unset topic xs ys p hx hy = rw hx (rw hy refl)

get_publish_unset :
    (env : Env) (topic : Bytes) (p : Producer)
    → p.config.nsqd_addresses ≡ []
    → p.config.nsqlookupd_addresses ≡ []
    → get_publish_connection env topic p ≡ (err (Error.config (bytes "未配置nsqd或nsqlookupd地址")), p)
unfolding get_publish_connection
get_publish_unset env topic p hx hy =
    choose_unset env (Error.connection (bytes "nsqlookupd未找到主题 " ++ (topic ++ bytes " 的生产者")))
      (Error.config (bytes "未配置nsqd或nsqlookupd地址")) topic p.config.nsqd_addresses
      p.config.nsqlookupd_addresses p hx hy

attempt_unset :
    (env : Env) (cell : ℕ) (topic wire : Bytes) (p : Producer)
    → p.config.nsqd_addresses ≡ []
    → p.config.nsqlookupd_addresses ≡ []
    → attempt env cell topic wire p
      ≡ (Attempt.fails (permanent (Error.config (bytes "未配置nsqd或nsqlookupd地址"))), p)
unfolding attempt send_wire
attempt_unset env cell topic wire p hx hy =
    ap (λ x. send_wire env cell wire x.0 x.1) (get_publish_unset env topic p hx hy)

-- Without any address configured a publication fails at once with a configuration error: nothing is
-- dialled, written, cached or tried again.
pub publish_unset :
    (env : Env) (cell limit : ℕ) (topic message wire : Bytes) (p : Producer)
    → Promise env.retry
    → p.config.backoff_config.max_elapsed_time ≡ some limit
    → p.config.nsqd_addresses ≡ []
    → p.config.nsqlookupd_addresses ≡ []
    → to_bytes env.to_json (Command.publish topic message) ≡ ok wire
    → publish env cell topic message p ≡ (err (Error.config (bytes "未配置nsqd或nsqlookupd地址")), p)
unfolding publish
publish_unset env cell limit topic message wire p promise timed none_set no_lookup e =
    ap (λ o. retried env cell topic o p) e
    ∙ Retries-permanent (attempt env cell topic wire)
        (promise Producer (Unit {0}) p.config.backoff_config limit (attempt env cell topic wire) p
          timed)
        (Error.config (bytes "未配置nsqd或nsqlookupd地址"))
        (ap (λ x. x.0) (attempt_unset env cell topic wire p none_set no_lookup))
    ∙ ap (λ x. (err (Error.config (bytes "未配置nsqd或nsqlookupd地址")), x.1))
        (attempt_unset env cell topic wire p none_set no_lookup)
