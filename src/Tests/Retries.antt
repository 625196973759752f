-- ===== src/Tests/Retries.antt =====
-- Tests of the retrying client.
use media_app.Prelude.{ℕ, zero, suc, ◌≡◌, refl, String, true, none, some, [], ◌∷◌, arith}
use media_app.Retry.{
  AudioSourceOperation, RetryDelayStrategy, RetrySettings, Answer, Outcome, AudioSourceClient,
  PlaybackSource, retry_loop, retry_delay_for_attempt, retry_sleep_delay_for_attempt, backoff,
}
use media_app.Retry.Client.{resolve_track, prefetch_full, fetch_chunk}
use media_app.Retry.Loop.{retry_loop-first_success, waits}
use media_app.Retry.Operations.{Returns, operations_return}

-- Three retries, of 100 ms doubled up to 1 s, within 250 ms.
abbrev settings : RetrySettings String
settings = record {
  max_retry_attempts = 3;
  retry_delay = 100000000;
  max_total_retry_delay = some 250000000;
  retry_delay_strategy = RetryDelayStrategy.exponential 1000000000;
  retry_policy = λ operation error. true;
}

abbrev unlimited : RetrySettings String
unlimited = record settings { max_total_retry_delay = none }

abbrev draw : ℕ → ℕ → ℕ
draw n spread = 0

abbrev source : PlaybackSource
source = record { source_id = "s"; uri = "u"; mime_type = none; expected_duration_ms = none }

-- A server that answers from the third call on.
abbrev late : ℕ → Answer String String
late zero = Answer.err "down"
late (suc zero) = Answer.err "down"
late (suc (suc n)) = Answer.ok "path"

abbrev client : AudioSourceClient String
client = record {
  resolve_track = λ n id. Answer.ok source;
  prefetch_full = λ n id. late n;
  fetch_chunk = λ n id index. Answer.err "gone";
}

-- The budget of 250 ms cuts the second wait short, and the fourth call does not happen.
fetch_in_budget :
    fetch_chunk draw settings client "s" 0
    ≡ some (record {
      outcome = Outcome.failed_after 3 "gone";
      calls = 3;
      sleeps = 100000000 ∷ 150000000 ∷ [];
    })
unfolding fetch_chunk retry_loop retry_sleep_delay_for_attempt retry_delay_for_attempt backoff
fetch_in_budget = refl

operations_return_example :
    Returns settings (resolve_track draw settings client "t")
    × Returns settings (prefetch_full draw settings client "s")
    × Returns settings (fetch_chunk draw settings client "s" 0)
operations_return_example = operations_return draw settings client "t" "s" 0 (omega arith)

retry_loop-first_success_example :
    retry_loop draw unlimited AudioSourceOperation.prefetch_full late 4 0 0
    ≡ some (record {
      outcome = Outcome.ok "path";
      calls = 3;
      sleeps = waits draw unlimited AudioSourceOperation.prefetch_full late 0 2;
    })
retry_loop-first_success_example =
    retry_loop-first_success draw unlimited AudioSourceOperation.prefetch_full late 2 refl
      (omega arith) (("down", refl, refl), (("down", refl, refl), tt)) refl
