-- ===== src/Consumer/Retry.antt =====
-- The task of `connect_to_nsqd` of src/consumer.rs: after which errors it connects again, and how long
-- it waits before it does.
pub mod Reads
use nsq_async_rs.Base.{
  ℕ, suc, ◌+◌, ◌*◌, ◌/◌, ◌≤◌, ◌<◌, ◌^◌, min, if◌then◌else◌, Bool, true, false, ◌||◌, not, Option,
  none, some, Option-cases, inl, inr, List, [], ◌∷◌, All, ◌≡◌, refl, sym, ap, ◌∙◌, arith,
  Bool-cases, either,
}
use nsq_async_rs.Base.Octets.{Bytes, bytes_eq, split_exact}
use nsq_async_rs.Base.Text.{bytes}
use nsq_async_rs.Consumer.Jitter.{jittered, jittered_bounds}
use nsq_async_rs.Error.{
  IoKind, IoError, broken_pipe, connection_reset, connection_aborted, unexpected_eof, Error,
  timed_out, Outcome, err, display,
}
use nsq_async_rs.Connection.{
  Connection, ReadEnd, ends, stalls, fails, read_exact, starved, early_eof,
}
use nsq_async_rs.Consumer.Session.{contains}

abbrev pub lost : IoKind → Bool
lost broken_pipe = true
lost connection_reset = true
lost connection_aborted = true
lost unexpected_eof = true
lost _ = false

-- The kinds of the `matches!`, for I/O errors only.
abbrev lost_kind : Error → Bool
lost_kind (Error.io e) = lost e.kind
lost_kind _ = false

abbrev is_timeout : Error → Bool
is_timeout (Error.timeout s) = true
is_timeout _ = false

unfoldable pub is_connection_error : Error → Bool
unfolding display contains bytes
is_connection_error e = lost_kind e || contains (display e) (bytes "early eof")

unfoldable pub retries : Error → Bool
unfolding is_connection_error
retries e = is_connection_error e || is_timeout e

-- One round of the loop, by what it meets: whether the consumer runs at its top, when the connection has
-- failed, and after the sleep; what `handle_connection` returns; and whether `reconnect` succeeds.
pub record Round : Type 0 where
  pub running : Bool
  pub returned : Outcome (Unit {0})
  pub running_then : Bool
  pub running_woken : Bool
  pub reconnected : Bool

-- A failure is followed by a sleep and by what comes after it, if it is one to connect again after.
unfoldable pub after_failure : Option Error → ℕ → List ℕ → List ℕ
after_failure none n rest = []
after_failure (some e) n rest = if retries e then n ∷ rest else []

abbrev pub IsPause : ℕ → Type 0
IsPause n = (1 ≤ n) × (n ≤ 78)

after_failure-IsPause :
    (o : Option Error) (n : ℕ) (rest : List ℕ)
    → IsPause n
    → All IsPause rest
    → All IsPause (after_failure o n rest)
unfolding after_failure
after_failure-IsPause none n rest h hs = tt
after_failure-IsPause (some e) n rest h hs = elim (Bool-cases (retries e)) [
  | inl again ↦ rw again (h, hs)
  | inr no_more ↦ rw no_more tt
]

if-IsPause :
    (b : Bool) (xs ys : List ℕ)
    → All IsPause xs
    → All IsPause ys
    → All IsPause (if b then xs else ys)
if-IsPause true xs ys hx hy = hx
if-IsPause false xs ys hx hy = hy

-- `rand::random::<f32>()` of the k-th round is `random k / 2 ^ 24`.
module _ (backoff_strategy : Bool) (random : ℕ → ℕ) where
  -- The sleep of a round and the delay after it.
  unfoldable pub sleep_for : ℕ → ℕ → ℕ
  unfolding jittered
  sleep_for k d = if backoff_strategy then jittered (random k) d else d

  unfoldable pub next_delay : ℕ → ℕ
  next_delay d = if backoff_strategy then min (d * 2) 60 else d

  abbrev fails_with : Round → Option Error
  fails_with x =
      if not x.running
      then none
      else (elim x.returned [ err e ↦ if x.running_then then some e else none | _ ↦ none ])

  -- The seconds that the loop sleeps, from its k-th round on, with a delay of `d`.
  unfoldable pub sleeps : ℕ → ℕ → List Round → List ℕ
  unfolding after_failure sleep_for next_delay
  sleeps k d [] = []
  sleeps k d (x ∷ xs) =
      let again = sleeps (suc k) 1 xs in
      let later = sleeps (suc k) (next_delay d) xs in
      after_failure (fails_with x) (sleep_for k d)
        (if not x.running_woken then [] else if x.reconnected then again else later)

  next_delay_bounds : (d : ℕ) → 1 ≤ d → d ≤ 60 → (1 ≤ next_delay d) × (next_delay d ≤ 60)
  unfolding next_delay
  next_delay_bounds d lo hi = ground arith

  sleep_for-IsPause :
      ((k : ℕ) → random k < 2 ^ 24) → (k d : ℕ) → 1 ≤ d → d ≤ 60 → IsPause (sleep_for k d)
  unfolding sleep_for
  sleep_for-IsPause h k d lo hi =
      either IsPause backoff_strategy (jittered (random k) d) d
        (λ strategy. jittered_bounds (random k) d (h k) lo hi) (λ plain. (lo, omega arith))

  -- If a random `f32` is a number of 24 binary digits below 1, every sleep of the loop is one of 1 to 78
  -- seconds, with the backoff strategy and without it, however the connection fails and comes back,
  -- from any delay of 1 to 60 seconds on.
  pub sleeps-IsPause :
      ((k : ℕ) → random k < 2 ^ 24)
      → (k d : ℕ) (xs : List Round) → 1 ≤ d
      → d ≤ 60
      → All IsPause (sleeps k d xs)
  unfolding sleeps
  sleeps-IsPause h k d [] lo hi = tt
  sleeps-IsPause h k d (x ∷ xs) lo hi =
      let (lo', hi') = next_delay_bounds d lo hi in
      after_failure-IsPause (fails_with x) (sleep_for k d) _ (sleep_for-IsPause h k d lo hi) (
        if-IsPause (not x.running_woken) _ _ tt (
          if-IsPause x.reconnected _ _ (sleeps-IsPause h (suc k) 1 xs (omega arith) (omega arith))
            (sleeps-IsPause h (suc k) (next_delay d) xs lo' hi')))
