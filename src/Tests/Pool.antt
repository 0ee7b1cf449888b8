-- ===== src/Tests/Pool.antt =====
-- src/pool.rs at concrete inputs.
use nsq_async_rs.Base.{
  ℕ, ◌+◌, ◌≡◌, ◌≢◌, refl, leb, true, false, Option, none, some, List, [], ◌∷◌, inl, inr, ◌++◌,
  length, arith, All,
}
use nsq_async_rs.Base.Octets.{Bytes}
use nsq_async_rs.Pool.{
  Methods, PoolConfig, Pool, IdleConn, PooledConn, ok, panic, got, empty, put, get, take_idle,
  open_or_wait, new,
}
use nsq_async_rs.Pool.Sweep.{clean_idle_conns}
use nsq_async_rs.Pool.System.{Event, takes, opens, puts, cleans, step, run, start, pick}
use nsq_async_rs.Pool.Ledger.{weigh, run-start-Balanced}
use nsq_async_rs.Pool.Capacity.Phases.{Counted}
use nsq_async_rs.Pool.Capacity.{run-start-Counted, run-start-ne-panic}
use nsq_async_rs.Pool.Fresh.{without_front, get_first}

-- Connections are numbers. The pool opens two at first and three at most, and keeps an idle one for
-- 10 and any for 100 nanoseconds; the connection 8 fails to close and 9 does not answer.
abbrev pub config : PoolConfig
config = record {
  initial_cap = 2;
  max_cap = 3;
  max_idle = 2;
  idle_timeout = 10;
  max_lifetime = 100;
}

abbrev closes : ℕ → Option Bytes
closes t = elim (leb 8 t) [ true ↦ elim (leb t 8) [ true ↦ some [] | false ↦ none ] | false ↦ none ]

abbrev pub methods : Methods ℕ
methods = record {
  config = config;
  factory = λ n. inl n;
  closer = closes;
  pinger = some (λ t. leb t 8);
}

abbrev history : List Event
history =
    takes 1
    ∷ takes 2
    ∷ takes 3
    ∷ opens 3 0
    ∷ opens 4 1
    ∷ puts 5 (λ _. true) 0
    ∷ puts 6 (λ _. true) 1
    ∷ cleans 30
    ∷ []

run-start-Balanced_example :
    let s = run methods (start methods 0) history in
    weigh (λ i. i.conn + 1) s.pool.idle
      + weigh (λ t. t + 1) s.pool.discarded
      + weigh (λ c. c.conn + 1) s.lent
      + weigh (λ t. t + 1) s.leaked
    ≡ weigh (λ t. t + 1) s.created
run-start-Balanced_example = run-start-Balanced (λ t. t + 1) methods 0 history

-- After this history two connections are lent, one of them to a client that waited, and one is gone.
history_open : (run methods (start methods 0) history).pool.closed ≡ false
unfolding run clean_idle_conns step open_or_wait take_idle start new put
history_open = refl

run-start-Counted_example :
    Counted 3
      (length (run methods (start methods 0) history).lent)
      (run methods (start methods 0) history).pool
run-start-Counted_example =
    run-start-Counted methods 3 0 history (omega arith) (omega arith) history_open

abbrev pub held : PooledConn ℕ
held = record { conn = 2; created_time = 3 }

history_lent :
    pick 0 (run methods (start methods 0) history).lent
    ≡ some (held, record { conn = 0; created_time = 0 } ∷ [])
unfolding run pick step open_or_wait take_idle start new put
history_lent = refl

-- Both of those that are lent can be given back.
run-start-ne-panic_example :
    let s = run methods (start methods 0) history in
    ((take_idle methods 40 s.pool).0 ≢ panic)
    × ((clean_idle_conns methods 40 s.pool).0 ≢ panic)
    × All (λ c. (put methods 40 1 (λ _. true) c s.pool).0 ≢ panic) s.lent
run-start-ne-panic_example = run-start-ne-panic methods 0 history 40 (λ _. true) history_open

abbrev idle_one : ℕ → ℕ → IdleConn ℕ
idle_one t used = record { conn = t; idle_time = used; created_time = used }

-- Of four idle connections at time 120 the first was used too long ago, the second does not answer and
-- the third is too old.
abbrev old : IdleConn ℕ
old = record { conn = 3; idle_time = 115; created_time = 10 }

abbrev front : List (IdleConn ℕ)
front = idle_one 1 100 ∷ idle_one 9 115 ∷ old ∷ []

abbrev four : Pool ℕ
four = record empty { idle = front ++ (idle_one 2 115 ∷ []); opening = 4 }

get_first_example : get methods 120 0 four ≡ (
  ok (got (record { conn = 2; created_time = 115 })),
  record (without_front methods front four) { idle = [] },
)
get_first_example =
    get_first methods 120 0 four front [] (idle_one 2 115) refl refl
      (
        inl (omega arith, omega arith),
        (inr (inr ((λ t. leb t 8), refl, refl)), (inr (inl (omega arith, omega arith)), tt)),
      )
      (record {
        rested = inr (omega arith);
        young = inr (omega arith);
        alive = inr ((λ t. leb t 8), refl, refl);
      })
      (omega arith)
