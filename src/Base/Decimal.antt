-- ===== src/Base/Decimal.antt =====
-- Decimal numbers as `format!("{}", n)` prints them.
use nsq_async_rs.Base.Tests.{ltb, leb, if◌then◌else◌}
use nsq_async_rs.Base.Lists.{All, length, length-append, All-append}
use nsq_async_rs.Base.Octets.{Bytes}
use nsq_async_rs.Base.Int.{ℤ, pos, negsuc}
use Prim.Native.Nat.{ℕ, zero, suc, ◌+◌, ◌-◌, ◌*◌, ◌/◌, ◌%◌, ◌≤◌, ◌<◌}
use mathlib.Core.Path.{◌≡◌}
use mathlib.Core.Bool.{◌&&◌}
use mathlib.Core.List.{[], ◌∷◌, ◌++◌}
use mathlib.Core.Option.{Option, none, some}
use native.Mathlib.Omega.{arith}

-- The digits of `n`, in at most `fuel` of them.
show_loop : ℕ → ℕ → Bytes
show_loop zero n = []
show_loop (suc fuel) n =
    let front = show_loop fuel (n / 10) in
    if ltb n 10 then (48 + n) ∷ [] else front ++ ((48 + n % 10) ∷ [])

-- `n + 1` rounds are enough, as the number falls in each.
unfoldable pub show_dec : ℕ → Bytes
unfolding show_loop
show_dec n = show_loop (suc n) n

unfoldable pub show_int : ℤ → Bytes
unfolding show_dec
show_int (pos n) = show_dec n
show_int (negsuc n) = b'-' ∷ show_dec (suc n)

abbrev pub IsDigit : ℕ → Type 0
IsDigit c = (48 ≤ c) × (c ≤ 57)

-- Read as a number; `none` if a byte is no digit.
unfoldable pub read_loop : ℕ → Bytes → Option ℕ
read_loop acc [] = some acc
read_loop acc (c ∷ cs) =
    let rest = read_loop (acc * 10 + (c - 48)) cs in if leb 48 c && leb c 57 then rest else none

show_loop-IsDigit : (fuel n : ℕ) → All IsDigit (show_loop fuel n)
unfolding show_loop
show_loop-IsDigit zero n = tt
show_loop-IsDigit (suc fuel) n = ground (
  arith,
  All-append IsDigit (show_loop fuel (n / 10)) ((48 + n % 10) ∷ [])
      (show_loop-IsDigit fuel (n / 10)) (omega arith),
)

pub show_dec-IsDigit : (n : ℕ) → All IsDigit (show_dec n)
unfolding show_dec
show_dec-IsDigit n = show_loop-IsDigit (suc n) n

show_loop_pos : (fuel n : ℕ) → 0 < length (show_loop (suc fuel) n)
unfolding show_loop
show_loop_pos fuel n = ground (arith, length-append (show_loop fuel (n / 10)) ((48 + n % 10) ∷ []))

read_loop-append :
    (xs : Bytes) (acc v d : ℕ)
    → d < 10
    → read_loop acc xs ≡ some v
    → read_loop acc (xs ++ ((48 + d) ∷ [])) ≡ some (v * 10 + d)
unfolding read_loop
read_loop-append [] acc v d hd h = ground arith
read_loop-append (x ∷ xs) acc v d hd h =
    ground (arith, read_loop-append xs (acc * 10 + (x - 48)) v d)

read_loop_digit : (n : ℕ) → n < 10 → read_loop 0 ((48 + n) ∷ []) ≡ some n
unfolding read_loop
read_loop_digit n h = ground arith

read_loop-show_loop : (fuel n : ℕ) → n < fuel → read_loop 0 (show_loop fuel n) ≡ some n
unfolding show_loop
read_loop-show_loop zero n h = elim h [ ]
read_loop-show_loop (suc fuel) n h = ground (
  arith,
  read_loop_digit n,
  read_loop-append (show_loop fuel (n / 10)) 0 (n / 10) (n % 10),
  read_loop-show_loop fuel (n / 10),
)

-- The printed number reads back as itself.
pub read_loop-show_dec : (n : ℕ) → read_loop 0 (show_dec n) ≡ some n
unfolding show_dec
read_loop-show_dec n = read_loop-show_loop (suc n) n (omega arith)

pub show_dec_pos : (n : ℕ) → 0 < length (show_dec n)
unfolding show_dec
show_dec_pos n = show_loop_pos n n
