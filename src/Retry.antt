-- ===== src/Retry.antt =====
-- rust/engine/crates/app_core/src/networking/retrying_audio_source_client.rs and
-- audio_source_client.rs: a client that retries another. A `Duration` is its number of
-- nanoseconds. The wrapped client, the retry policy and the random numbers of `fastrand` are
-- arguments; the answer of the wrapped client may depend on how often it was called before.
pub mod Delay
pub mod Loop
pub mod Client
pub mod Operations
use media_app.Prelude.{
  ℕ, zero, suc, ◌+◌, ◌-◌, ◌*◌, ◌/◌, ◌%◌, ◌^◌, min, String, Bool, true, false, ◌&&◌, Option, none,
  some, List, [], ◌∷◌, ltb, leb, ◌==◌, if◌then◌else◌, u64_max,
}

pub data AudioSourceOperation : Type 0 where
  resolve_track prefetch_full fetch_chunk : AudioSourceOperation

pub record PlaybackSource : Type 0 where
  pub source_id : String
  pub uri : String
  pub mime_type : Option String
  pub expected_duration_ms : Option ℕ

pub record AudioChunk : Type 0 where
  pub source_id : String
  pub index : ℕ
  pub bytes : List ℕ
  pub is_last : Bool

abbrev pub u32_max : ℕ
u32_max = 4294967295

abbrev pub u128_max : ℕ
u128_max = 340282366920938463463374607431768211455

-- `Duration::MAX`.
abbrev pub duration_max : ℕ
duration_max = u64_max * 1000000000 + 999999999

pub data RetryDelayStrategy : Type 0 where
  fixed : RetryDelayStrategy
  exponential : ℕ → RetryDelayStrategy
  exponential_jittered : ℕ → ℕ → RetryDelayStrategy

-- The fields of `RetryingAudioSourceClient` but for the wrapped client; `E` is `anyhow::Error`.
pub record RetrySettings (E : Type 0) : Type 0 where
  pub max_retry_attempts : ℕ
  pub retry_delay : ℕ
  pub max_total_retry_delay : Option ℕ
  pub retry_delay_strategy : RetryDelayStrategy
  pub retry_policy : AudioSourceOperation → E → Bool

-- `1u32.checked_shl(shift).unwrap_or(u32::MAX)`, with `shift` the attempts before, as a `u32`.
unfoldable pub multiplier : ℕ → ℕ
multiplier next_attempt_number =
    let shift = (next_attempt_number - 1) % 4294967296 in
    if ltb shift 32 then 2 ^ shift else u32_max

-- `self.retry_delay.saturating_mul(multiplier).min(max_delay)`.
unfoldable pub backoff : ℕ → ℕ → ℕ → ℕ
unfolding multiplier
backoff retry_delay max_delay next_attempt_number =
    min (min (retry_delay * multiplier next_attempt_number) duration_max) max_delay

-- The jittered milliseconds between two bounds; `random spread` is `fastrand::u128(..=spread)`.
unfoldable pub draw_millis : (ℕ → ℕ) → ℕ → ℕ → ℕ
draw_millis random min_ms max_ms =
    let spread = max_ms - min_ms in min_ms + (if spread == 0 then 0 else random spread)

unfoldable pub apply_jitter : (ℕ → ℕ) → ℕ → ℕ → ℕ
apply_jitter random base_delay percent =
    let jitter_percent = min percent 100 in
    let base_ms = base_delay / 1000000 in
    let min_ms = min (base_ms * (100 - jitter_percent)) u128_max / 100 in
    let max_ms = min (base_ms * (100 + jitter_percent)) u128_max / 100 in
    if jitter_percent == 0
    then base_delay
    else (if base_ms == 0
        then base_delay
        else min (draw_millis random min_ms max_ms) u64_max * 1000000)

module _ {E : Type 0} (random : ℕ → ℕ → ℕ) (c : RetrySettings E) where
  -- `random n` is the random number drawn at the `n`-th attempt.
  unfoldable pub retry_delay_for_attempt : ℕ → ℕ
  retry_delay_for_attempt n = elim c.retry_delay_strategy [
    | fixed ↦ c.retry_delay
    | exponential max_delay ↦ backoff c.retry_delay max_delay n
    | exponential_jittered max_delay percent ↦
        min (apply_jitter (random n) (backoff c.retry_delay max_delay n) percent) max_delay
  ]

  unfoldable pub retry_sleep_delay_for_attempt : ℕ → ℕ → Option ℕ
  retry_sleep_delay_for_attempt n total_retry_delay = elim c.max_total_retry_delay [
    | none ↦ some (retry_delay_for_attempt n)
    | some budget ↦
        if leb budget total_retry_delay
        then none
        else some (min (retry_delay_for_attempt n) (budget - total_retry_delay))
  ]

-- `anyhow::Result<A>`.
pub data Answer (E A : Type 0) : Type 0 where
  ok : A → Answer E A
  err : E → Answer E A

-- What a retried operation returns: a value, or the last error in the context "failed after
-- `attempts` attempt(s)". Beside it stand what the loop did: the calls of the wrapped client and
-- the durations slept.
pub data Outcome (E A : Type 0) : Type 0 where
  ok : A → Outcome E A
  failed_after : ℕ → E → Outcome E A

pub record Report (E A : Type 0) : Type 0 where
  pub outcome : Outcome E A
  pub calls : ℕ
  pub sleeps : List ℕ

abbrev pub slept : {E A : Type 0} → ℕ → Option (Report E A) → Option (Report E A)
slept d none = none
slept d (some r) = some (record r { calls = suc r.calls; sleeps = d ∷ r.sleeps })

module _ {E A : Type 0} (random : ℕ → ℕ → ℕ) (c : RetrySettings E)
    (operation : AudioSourceOperation) (inner : ℕ → Answer E A) where
  -- The `loop` of the three operations, with fuel; `none` means that the fuel ran out. `inner n`
  -- is the answer to the call after `n` attempts.
  unfoldable pub retry_loop : ℕ → ℕ → ℕ → Option (Report E A)
  retry_loop zero attempts total = none
  retry_loop (suc fuel) attempts total = elim (inner attempts) [
    | ok a ↦ some (record { outcome = ok a; calls = 1; sleeps = [] })
    | err e ↦ elim (ltb attempts c.max_retry_attempts && c.retry_policy operation e) [
      | true ↦ elim (retry_sleep_delay_for_attempt random c (attempts + 1) total) [
        | none ↦ some (record { outcome = failed_after (attempts + 1) e; calls = 1; sleeps = [] })
        | some d ↦ slept d (retry_loop fuel (attempts + 1) (min (total + d) duration_max))
      ]
      | false ↦ some (record { outcome = failed_after (attempts + 1) e; calls = 1; sleeps = [] })
    ]
  ]

-- The trait `AudioSourceClient`; the first argument is the number of the call.
pub record AudioSourceClient (E : Type 0) : Type 0 where
  pub resolve_track : ℕ → String → Answer E PlaybackSource
  pub prefetch_full : ℕ → String → Answer E String
  pub fetch_chunk : ℕ → String → ℕ → Answer E AudioChunk
