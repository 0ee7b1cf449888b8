-- ===== src/Network/Backoff.antt =====
-- `backoff::future::retry`, by what the crate documents: it calls the operation, again after each error
-- that is transient, until there is a value, a permanent error, or no time left.
use nsq_async_rs.Base.{ℕ, Option, some, ◌≡◌, refl, ap}
use nsq_async_rs.Error.{Error, BackoffError, permanent, transient, Outcome}

-- One call of an operation: `Result<A, backoff::Error<Error>>`, or no value.
pub data Attempt (A : Type 0) : Type 0 where
  ok : A → Attempt A
  fails : BackoffError → Attempt A
  panic : Attempt A
  hang : Attempt A

-- `BackoffConfig` of src/producer.rs, which is also what an `ExponentialBackoffBuilder` is given. Times
-- are in milliseconds, the multiplier in thousandths.
pub record BackoffConfig : Type 0 where
  pub initial_interval : ℕ
  pub max_interval : ℕ
  pub multiplier : ℕ
  pub max_elapsed_time : Option ℕ

-- `BackoffConfig::default()`
abbrev pub default_backoff : BackoffConfig
default_backoff = record {
  initial_interval = 100;
  max_interval = 10000;
  multiplier = 2000;
  max_elapsed_time = some 60000;
}

-- What a call ends with, where it ends the retries.
abbrev pub last : {A : Type 0} → Attempt A → Outcome A
last (ok a) = Outcome.ok a
last (fails (permanent e)) = Outcome.err e
last (fails (transient e)) = Outcome.err e
last panic = Outcome.panic
last hang = Outcome.hang

module _ {S A : Type 0} where
  -- The calls, one after the other, each in the state that the one before has left.
  pub data Retries (op : S → Attempt A × S) : S → Outcome A × S → Type 0 where
    ends : (s : S) → Retries op s (last (op s).0, (op s).1)
    again :
        {r : Outcome A × S} (s : S) (e : Error)
        → (op s).0 ≡ fails (transient e)
        → Retries op (op s).1 r
        → Retries op s r

-- The crate's promise, for retries whose time is limited.
abbrev pub Promise :
    ((S A : Type 0) → BackoffConfig → (S → Attempt A × S) → S → Outcome A × S) → Type 1
Promise retry =
    (S A : Type 0) (b : BackoffConfig) (limit : ℕ) (op : S → Attempt A × S) (s : S)
    → b.max_elapsed_time ≡ some limit
    → Retries op s (retry S A b op s)

module _ {S A : Type 0} (op : S → Attempt A × S) where
  -- What every call keeps, the retries keep.
  pub Retries_keep {κ} :
      (P : S → Type κ)
      → ((s : S) → P s → P (op s).1)
      → {s : S} {r : Outcome A × S} → Retries op s r
      → P s
      → P r.1
  Retries_keep P keeps (ends s) h = keeps s h
  Retries_keep P keeps (again s e f rs) h = Retries_keep P keeps rs (keeps s h)

  last_ok : (t : Attempt A) (a : A) → last t ≡ Outcome.ok a → t ≡ ok a
  last_ok (ok x) a h = cc
  last_ok (fails (permanent e)) a h = cc
  last_ok (fails (transient e)) a h = cc
  last_ok panic a h = cc
  last_ok hang a h = cc

  -- Retries that give a value end with a call that gives it.
  pub Retries-ok {κ} :
      (P : S → Type κ)
      → ((s : S) → P s → P (op s).1)
      → {s : S} {r : Outcome A × S} → Retries op s r
      → P s
      → (a : A) → r.0 ≡ Outcome.ok a
      → (u : S) × P u × ((op u).0 ≡ ok a) × ((op u).1 ≡ r.1)
  Retries-ok P keeps (ends s) h a e = (s, h, last_ok (op s).0 a e, refl)
  Retries-ok P keeps (again s x f rs) h a e = Retries-ok P keeps rs (keeps s h) a e

  -- An error that is permanent ends them at once.
  pub Retries-permanent :
      {s : S} {r : Outcome A × S}
      → Retries op s r
      → (e : Error) → (op s).0 ≡ fails (permanent e)
      → r ≡ (Outcome.err e, (op s).1)
  Retries-permanent (ends s) e h = ap (λ t. (last t, (op s).1)) h
  Retries-permanent (again s x f rs) e h = cc
