-- ===== src/Retry/Delay.antt =====
-- networking/retrying_audio_source_client.rs: how long the client waits before a retry.
use media_app.Prelude.{
  ℕ, suc, ◌+◌, ◌-◌, ◌*◌, ◌/◌, ◌%◌, ◌^◌, ◌≤◌, ◌<◌, ◌≡◌, min, some, arith, u64_max,
}
use native.Mathlib.Nat.{min-le_right, mul-le-mul_left, pow-le-pow_right}
use media_app.Retry.{
  RetrySettings, RetryDelayStrategy, multiplier, backoff, draw_millis, u128_max, apply_jitter,
  retry_delay_for_attempt, retry_sleep_delay_for_attempt, u32_max, duration_max,
}

-- The longest wait of a strategy; `fixed` waits exactly its delay.
abbrev pub longest : {E : Type 0} → RetrySettings E → ℕ
longest c = elim c.retry_delay_strategy [
  | RetryDelayStrategy.fixed ↦ c.retry_delay
  | RetryDelayStrategy.exponential max_delay ↦ max_delay
  | RetryDelayStrategy.exponential_jittered max_delay percent ↦ max_delay
]

module _ {E : Type 0} (random : ℕ → ℕ → ℕ) (c : RetrySettings E) where
  -- No wait is longer than the strategy's maximum, at any attempt and for any random numbers.
  pub retry_delay-le-longest : (n : ℕ) → retry_delay_for_attempt random c n ≤ longest c
  unfolding retry_delay_for_attempt backoff
  retry_delay-le-longest n =
      ground (arith, min-le_right (min (c.retry_delay * multiplier n) duration_max))

  -- With a budget, a wait fits what is left of it, and there is none once the budget is used up.
  pub retry_sleep_delay_budget :
      (n total budget : ℕ)
      → c.max_total_retry_delay ≡ some budget
      → total ≤ budget
      → (d : ℕ) → retry_sleep_delay_for_attempt random c n total ≡ some d
      → (total < budget) × (total + d ≤ budget) × (d ≤ retry_delay_for_attempt random c n)
  unfolding retry_sleep_delay_for_attempt
  retry_sleep_delay_budget n total budget b h d e = ground arith

draw_millis_bounds :
    (random : ℕ → ℕ) (low high : ℕ)
    → ((spread : ℕ) → random spread ≤ spread)
    → low ≤ high
    → (low ≤ draw_millis random low high) × (draw_millis random low high ≤ high)
unfolding draw_millis
draw_millis_bounds random low high r h = ground (arith, r (high - low))

-- What `apply_jitter` returns lies, in whole milliseconds, within the given percentage of the base
-- delay, for any random number that `fastrand` may draw.
pub apply_jitter_bounds :
    (random : ℕ → ℕ) (base percent : ℕ)
    → ((spread : ℕ) → random spread ≤ spread)
    → base / 1000000 * 2 ≤ u64_max
    → (base / 1000000 * (100 - min percent 100) / 100 ≤ apply_jitter random base percent / 1000000)
      × (apply_jitter random base percent / 1000000
          ≤ base / 1000000 * (100 + min percent 100) / 100)
unfolding apply_jitter
apply_jitter_bounds random base percent r h =
    let p = min percent 100 in
    let b = base / 1000000 in
    let b_low : b * (100 - p) ≤ b * 100 = mul-le-mul_left b (omega arith) in
    let b_high : b * (100 + p) ≤ b * 200 = mul-le-mul_left b (omega arith) in
    let low_high : b * (100 - p) ≤ b * (100 + p) = mul-le-mul_left b (omega arith) in
    ground (
      arith,
      b_low,
      b_high,
      low_high,
      draw_millis_bounds random (min (b * (100 - p)) u128_max / 100)
          (min (b * (100 + p)) u128_max / 100) r,
    )

pow-le-u32_max : (s : ℕ) → s < 32 → 2 ^ s ≤ u32_max
pow-le-u32_max s h =
    let top : 2 ^ s ≤ 2 ^ 31 = pow-le-pow_right {n = 2} (omega arith) {j = 31} (omega arith) in
    omega arith

multiplier_mono : (n m : ℕ) → n ≤ m → m ≤ 4294967296 → multiplier n ≤ multiplier m
unfolding multiplier
multiplier_mono n m h k =
    let shift_n : (n - 1) % 4294967296 ≡ n - 1 = omega arith in
    let shift_m : (m - 1) % 4294967296 ≡ m - 1 = omega arith in
    let powers : 2 ^ (n - 1) ≤ 2 ^ (m - 1) = pow-le-pow_right {n = 2} (omega arith) (omega arith) in
    rw (shift_n, shift_m) (ground (arith, powers, pow-le-u32_max (n - 1)))

-- Until the attempt number passes 2 to the 32, a later attempt never waits for less time: the wait
-- doubles from attempt to attempt until it meets the maximum.
pub backoff_mono :
    (delay max_delay n m : ℕ)
    → n ≤ m
    → m ≤ 4294967296
    → backoff delay max_delay n ≤ backoff delay max_delay m
unfolding backoff
backoff_mono delay max_delay n m h k =
    omega (arith, mul-le-mul_left delay (multiplier_mono n m h k))

-- For the first 32 attempts the wait before the `n`-th retry is exactly the configured delay,
-- doubled for every retry before it and cut at the maximum.
pub backoff-doubles :
    (delay max_delay n : ℕ)
    → n < 32
    → max_delay ≤ duration_max
    → backoff delay max_delay (suc n) ≡ min (delay * 2 ^ n) max_delay
unfolding backoff multiplier
backoff-doubles delay max_delay n h m =
    let shift_n : (suc n - 1) % 4294967296 ≡ n = omega arith in rw shift_n (ground arith)
