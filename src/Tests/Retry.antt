-- ===== src/Tests/Retry.antt =====
-- The retries of src/consumer.rs at concrete inputs.
use nsq_async_rs.Base.{◌-◌, ◌^◌, ℕ, ◌≡◌, refl, true, false, List, [], ◌∷◌, All, arith}
use nsq_async_rs.Error.{IoError, connection_aborted, Error, err}
use nsq_async_rs.Connection.{Connection, fails, early_eof, read_exact}
use nsq_async_rs.Consumer.Retry.{Round, IsPause, retries, sleeps, sleeps-IsPause}
use nsq_async_rs.Consumer.Retry.Reads.{Retried, read_exact-retries}
use nsq_async_rs.Tests.Connection.{line}

-- The stream ends, and nsqd cannot be reached again.
abbrev broken : Round
broken = record {
  running = true;
  returned = err early_eof;
  running_then = true;
  running_woken = true;
  reconnected = false;
}

abbrev rounds : List Round
rounds = broken ∷ broken ∷ record broken { reconnected = true } ∷ broken ∷ []

-- The largest of the random numbers below 1.
abbrev largest : ℕ → ℕ
largest k = 2 ^ 24 - 1

sleeps-IsPause_example : All IsPause (sleeps true largest 0 1 rounds)
sleeps-IsPause_example =
    sleeps-IsPause true largest (λ k. omega arith) 0 1 rounds (omega arith) (omega arith)

-- The delays double, up to a third more, and start again behind a success.
sleeps_double : sleeps true largest 0 1 rounds ≡ 1 ∷ 2 ∷ 5 ∷ 1 ∷ []
unfolding sleeps retries early_eof
sleeps_double = refl

-- The system reports that the connection was aborted.
abbrev aborted : IoError
aborted = record { kind = connection_aborted; message = 97 ∷ [] }

abbrev silent : Connection
silent = record (line 1) { read_end = fails aborted }

read_exact-retries_example : Retried (Error.io aborted) (fails aborted)
unfolding read_exact
read_exact-retries_example = read_exact-retries 4 silent (Error.io aborted) refl
