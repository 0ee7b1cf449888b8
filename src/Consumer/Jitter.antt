-- ===== src/Consumer/Jitter.antt =====
-- The arithmetic of the backoff in `connect_to_nsqd` of src/consumer.rs, on numbers of type `f32`. They
-- are written here in units of 2 ^ -49.
use nsq_async_rs.Base.{ℕ, ◌+◌, ◌*◌, ◌/◌, ◌^◌, ◌≤◌, ◌<◌, arith}
use nsq_async_rs.Base.F32.{round, round_le, power_le-round}

-- `rand::random::<f32>() * 0.3`, where the random number is `r / 2 ^ 24` and the literal stands for
-- `10066330 / 2 ^ 25`.
unfoldable pub jitter : ℕ → ℕ
unfolding round
jitter r = round (r * 10066330)

-- `(retry_delay as f32 * (1.0 + jitter)) as u64`
unfoldable pub jittered : ℕ → ℕ → ℕ
unfolding jitter round
jittered r d = round (d * round (2 ^ 49 + jitter r)) / 2 ^ 49

jitter_le : (r : ℕ) → r < 2 ^ 24 → jitter r ≤ 10066330 * 2 ^ 24 + 10066330 * 2
unfolding jitter
jitter_le r h = omega (arith, round_le (r * 10066330) (omega (arith, h)))

mul_le : (a b x y : ℕ) → a ≤ b → x ≤ y → a * x ≤ b * y
mul_le a b x y h k = grind arith

pub jittered_bounds :
    (r d : ℕ) → r < 2 ^ 24 → 1 ≤ d → d ≤ 60 → (1 ≤ jittered r d) × (jittered r d ≤ 78)
unfolding jittered
jittered_bounds r d h lo hi =
    let x = 2 ^ 49 + jitter r in
    let above : 2 ^ 49 ≤ round x = power_le-round x 49 (omega arith) in
    let below : round x * 2 ^ 23 ≤ x * 2 ^ 23 + x = round_le x (omega (arith, jitter_le r h)) in
    let least : 1 * 2 ^ 49 ≤ d * round x = mul_le 1 d (2 ^ 49) (round x) lo above in
    let most : d * round x ≤ 60 * round x = mul_le d 60 (round x) (round x) hi (omega arith) in
    let y = d * round x in
    let y_above : 2 ^ 49 ≤ round y = power_le-round y 49 (omega (arith, least)) in
    let y_below : round y * 2 ^ 23 ≤ y * 2 ^ 23 + y =
      round_le y (omega (arith, most, below, jitter_le r h)) in
    (omega (arith, y_above), omega (arith, y_below, most, below, jitter_le r h))
