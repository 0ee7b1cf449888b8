-- ===== src/Tests/Cut.antt =====
-- Calls of `get` that are dropped, at concrete inputs.
use nsq_async_rs.Base.{ℕ, none, some, true, List, [], ◌∷◌, inl, length, ◌≡◌, ◌≢◌, refl, arith}
use nsq_async_rs.Pool.{Methods, ok, panic, waits, new, take_idle, open_or_wait}
use nsq_async_rs.Pool.System.{start, opens}
use nsq_async_rs.Pool.Cut.{Turn, goes, cuts, turns, cut_gets_starve}

-- One connection at most, which is too old after 5.
abbrev single : Methods ℕ
single = record {
  config = record {
    initial_cap = 1;
    max_cap = 1;
    max_idle = 1;
    idle_timeout = 5;
    max_lifetime = 0;
  };
  factory = λ n. inl n;
  closer = λ t. none;
  pinger = some (λ t. true);
}

abbrev one_cut : List Turn
one_cut = cuts 100 0 ∷ goes (opens 101 0) ∷ []

cut_gets_starve_example :
    let x = turns single (start single 0, 0) one_cut in
    (length x.0.pool.idle ≡ 0)
    × (length x.0.lent ≡ 0)
    × ((open_or_wait single 200 7 x.0.pool).0 ≡ ok (waits 7))
    × ((take_idle single 200 x.0.pool).0 ≢ panic)
unfolding turns start open_or_wait new
cut_gets_starve_example = cut_gets_starve single 0 200 7 one_cut (omega arith) refl (omega arith)
