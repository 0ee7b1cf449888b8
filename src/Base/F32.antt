-- ===== src/Base/F32.antt =====
-- Numbers of type `f32` that are not negative, as multiples of a fixed power of two: such a number is
-- written with 24 binary digits, and what lies between two of them is rounded to the nearer one.
use Prim.Native.Nat.{ℕ, zero, suc, ◌+◌, ◌-◌, ◌*◌, ◌^◌, ◌/◌, ◌%◌, ◌<◌, ◌≤◌}
use mathlib.Core.Path.{◌≡◌, refl}
use mathlib.Core.Logic.{◌⊎◌, inl, inr}
use native.Mathlib.Omega.{arith}
use nsq_async_rs.Base.Tests.{if◌then◌else◌, ltb, either}

-- The leading 24 digits and the weight of the last of them, for numbers below `2 ^ (24 + f)`.
unfoldable pub leading : ℕ → ℕ → ℕ × ℕ
leading zero n = (n, 1)
leading (suc f) n = let (q, u) = leading f (n / 2) in if ltb n (2 ^ 24) then (n, 1) else (q, 2 * u)

-- To the nearest, and to the one whose last digit is even from the middle.
unfoldable pub rounded : ℕ → ℕ × ℕ → ℕ
rounded n (q, u) =
    let rest = n - q * u in
    if ltb u (2 * rest)
    then q * u + u
    else if ltb (2 * rest) u
    then q * u
    else if ltb 0 (q % 2)
    then q * u + u
    else q * u

-- The result of an operation on `f32` whose exact value is `n`, below `2 ^ 64`.
unfoldable pub round : ℕ → ℕ
unfolding leading rounded
round n = rounded n (leading 40 n)

record IsLeading (n : ℕ) (p : ℕ × ℕ) : Type 0 where
  low : p.0 * p.1 ≤ n
  high : n < p.0 * p.1 + p.1
  fine : (p.1 ≡ 1) ⊎ (p.1 * 2 ^ 23 ≤ n)

twice : (q u : ℕ) → q * (2 * u) ≡ 2 * (q * u)
twice q u = omega arith

-- What `f` rounds of halving bring to 24 digits.
abbrev pub limit : ℕ → ℕ
limit zero = 2 ^ 24
limit (suc f) = 2 * limit f

leading-IsLeading : (f n : ℕ) → n < limit f → IsLeading n (leading f n)
unfolding leading
leading-IsLeading zero n h = record { low = omega arith; high = omega arith; fine = inl refl }
leading-IsLeading (suc f) n h =
    let (q, u) = leading f (n / 2) in
    let half = leading-IsLeading f (n / 2) (omega (arith, h)) in
    either (IsLeading n) (ltb n (2 ^ 24)) (n, 1) (q, 2 * u)
      (λ small. record { low = omega arith; high = omega arith; fine = inl refl })
      (λ large. record {
        low = omega (arith, half.low, twice q u);
        high = omega (arith, half.high, twice q u);
        fine = inr (ground (arith, half.fine));
      })

abbrev IsAbove : ℕ → ℕ × ℕ → Type 0
IsAbove k p = 2 ^ k ≤ p.0 * p.1

-- A power of two stays below what is cut off.
power_below : (f n k : ℕ) → 2 ^ k ≤ n → IsAbove k (leading f n)
unfolding leading
power_below zero n k h = omega arith
power_below (suc f) n zero h =
    let (q, u) = leading f (n / 2) in
    either (IsAbove 0) (ltb n (2 ^ 24)) (n, 1) (q, 2 * u) (λ small. omega (arith, h))
      (λ large. omega (arith, twice q u, power_below f (n / 2) 0 (ground arith)))
power_below (suc f) n (suc k) h =
    let (q, u) = leading f (n / 2) in
    either (IsAbove (suc k)) (ltb n (2 ^ 24)) (n, 1) (q, 2 * u) (λ small. omega (arith, h))
      (λ large. omega (arith, twice q u, power_below f (n / 2) k (omega (arith, h))))

rounded_le : (n : ℕ) (p : ℕ × ℕ) → IsLeading n p → rounded n p * 2 ^ 23 ≤ n * 2 ^ 23 + n
unfolding rounded
rounded_le n (q, u) h = ground (arith, h.low, h.high, h.fine)

floor_le-rounded : (n k : ℕ) (p : ℕ × ℕ) → IsAbove k p → 2 ^ k ≤ rounded n p
unfolding rounded
floor_le-rounded n k (q, u) h = ground (arith, h)

-- What is rounded is at most a 2 ^ 23rd of it above.
pub round_le : (n : ℕ) → n < 2 ^ 64 → round n * 2 ^ 23 ≤ n * 2 ^ 23 + n
unfolding round
round_le n h = rounded_le n (leading 40 n) (leading-IsLeading 40 n h)

-- A power of two is not passed.
pub power_le-round : (n k : ℕ) → 2 ^ k ≤ n → 2 ^ k ≤ round n
unfolding round
power_le-round n k h = floor_le-rounded n k (leading 40 n) (power_below 40 n k h)
