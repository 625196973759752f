-- ===== src/Retry/Operations.antt =====
-- networking/retrying_audio_source_client.rs: the three operations return, and within their limits.
use media_app.Prelude.{ℕ, suc, ◌≤◌, ◌≡◌, String, Option, some, none, ◌<◌, ◌+◌, length, refl, arith}
use media_app.Retry.{
  AudioSourceOperation, AudioSourceClient, RetrySettings, Report, retry_loop, duration_max, Outcome,
  Answer,
}
use media_app.Retry.Client.{resolve_track, prefetch_full, fetch_chunk}
use media_app.Retry.Loop.{IsBounded, retry_loop-IsBounded, total_slept, reported}

-- `Duration::MAX` is not exceeded.
abbrev pub IsDuration : Option ℕ → Type 0
IsDuration none = Unit {0}
IsDuration (some b) = b ≤ duration_max

-- An error reports a number of attempts.
abbrev pub Reports : {E A : Type 0} → Outcome E A → ℕ → Type 0
Reports (Outcome.ok a) calls = Unit {0}
Reports (Outcome.failed_after n e) calls = n ≡ calls

abbrev pub Within : Option ℕ → ℕ → Type 0
Within none slept = Unit {0}
Within (some b) slept = slept ≤ b

-- What an operation promises about its calls, its sleeps and the error it returns.
pub record KeepsLimits {E A : Type 0} (c : RetrySettings E) (r : Report E A) : Type 0 where
  pub called : 0 < r.calls
  pub call_limit : r.calls ≤ suc c.max_retry_attempts
  pub sleeps_between : length r.sleeps + 1 ≡ r.calls
  pub reports : Reports r.outcome r.calls
  pub budget : Within c.max_total_retry_delay (total_slept r.sleeps)

-- A report is given, and keeps the limits.
abbrev pub Returns : {E A : Type 0} → RetrySettings E → Option (Report E A) → Type 0
Returns {E} {A} c ran = (r : Report E A) × (ran ≡ some r) × KeepsLimits c r

reports_lem :
    {E A : Type 0} (o : Outcome E A) (calls : ℕ)
    → ((n : ℕ) → reported o ≡ some n → n ≡ calls)
    → Reports o calls
reports_lem (Outcome.ok a) calls h = tt
reports_lem (Outcome.failed_after n e) calls h = h n refl

within_lem :
    (budget : Option ℕ) (slept : ℕ)
    → IsDuration budget
    → ((b : ℕ) → budget ≡ some b → b ≤ duration_max → slept ≤ b)
    → Within budget slept
within_lem none slept d h = tt
within_lem (some b) slept d h = h b refl d

module _ {E A : Type 0} (random : ℕ → ℕ → ℕ) (c : RetrySettings E)
    (d : IsDuration c.max_total_retry_delay) where
  KeepsLimits_lem : (r : Report E A) → IsBounded c 0 0 r → KeepsLimits c r
  KeepsLimits_lem r v = record {
    called = v.called;
    call_limit = omega (arith, v.call_limit);
    sleeps_between = v.sleeps_between;
    reports = reports_lem r.outcome r.calls (λ n e. omega (arith, v.honest n e));
    budget =
        within_lem c.max_total_retry_delay (total_slept r.sleeps) d
          (λ b e m. omega (arith, v.budget b e m (omega arith)));
  }

  loop-Returns :
      (operation : AudioSourceOperation) (inner : ℕ → Answer E A)
      → Returns c (retry_loop random c operation inner (suc c.max_retry_attempts) 0 0)
  loop-Returns operation inner =
      let (r, ran, v) =
        retry_loop-IsBounded random c operation inner (suc c.max_retry_attempts) 0 0 (omega arith)
          (omega arith) in
      (r, ran, KeepsLimits_lem r v)

-- Each operation of the retrying client returns, whatever the wrapped client answers, if its time
-- budget is at most `Duration::MAX`: it calls the wrapped client at least once and at most once more
-- than the retries allowed, sleeps once between two calls, reports in an error the number of calls
-- made, and does not sleep for longer than the budget.
pub operations_return :
    {E : Type 0} (random : ℕ → ℕ → ℕ) (c : RetrySettings E) (inner : AudioSourceClient E)
    (track_id source_id : String) (from_chunk_index : ℕ)
    → IsDuration c.max_total_retry_delay
    → Returns c (resolve_track random c inner track_id)
      × Returns c (prefetch_full random c inner source_id)
      × Returns c (fetch_chunk random c inner source_id from_chunk_index)
unfolding resolve_track prefetch_full fetch_chunk
operations_return random c inner track_id source_id from_chunk_index d = (
  loop-Returns random c d AudioSourceOperation.resolve_track (λ n. inner.resolve_track n track_id),
  loop-Returns random c d AudioSourceOperation.prefetch_full (λ n. inner.prefetch_full n source_id),
  loop-Returns random c d AudioSourceOperation.fetch_chunk
      (λ n. inner.fetch_chunk n source_id from_chunk_index),
)
