-- ===== src/Tests/Pooled.antt =====
-- The pool of producers at concrete inputs.
use nsq_async_rs.Base.{ℕ, ◌+◌, ◌*◌}

-- A batch every two seconds, half a second long.
abbrev clock : ℕ → ℕ × ℕ
clock i = (i * 2_000_000_000, i * 2_000_000_000 + 500_000_000)
