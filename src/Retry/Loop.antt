-- ===== src/Retry/Loop.antt =====
-- networking/retrying_audio_source_client.rs: the retry loop ends, and within its limits.
use media_app.Prelude.{
  ℕ, zero, suc, ◌+◌, ◌≤◌, ◌<◌, ◌≡◌, refl, min, true, ◌&&◌, Option, none, some, List, [], ◌∷◌, arith,
  ltb, length, Option-cases, Bool-cases, inl, inr, ◌⊎◌,
}
use media_app.Retry.{
  AudioSourceOperation, RetrySettings, Answer, Outcome, Report, ok, err, failed_after, retry_loop,
  retry_sleep_delay_for_attempt, retry_delay_for_attempt, duration_max,
}
use media_app.Retry.Delay.{retry_sleep_delay_budget}

-- The sum of the durations slept.
abbrev pub total_slept : List ℕ → ℕ
total_slept [] = 0
total_slept (d ∷ ds) = d + total_slept ds

-- The number of attempts that an error reports.
abbrev pub reported : {E A : Type 0} → Outcome E A → Option ℕ
reported (Outcome.ok a) = none
reported (Outcome.failed_after n e) = some n

-- What a report promises when the loop enters after `attempts` calls and `total` sleep.
pub record IsBounded {E A : Type 0} (c : RetrySettings E) (attempts total : ℕ) (r : Report E A)
    : Type 0 where
  pub called : 0 < r.calls
  pub call_limit : attempts + r.calls ≤ suc c.max_retry_attempts
  pub sleeps_between : length r.sleeps + 1 ≡ r.calls
  pub honest : (n : ℕ) → reported r.outcome ≡ some n → n ≡ attempts + r.calls
  pub budget :
      (b : ℕ)
      → c.max_total_retry_delay ≡ some b
      → b ≤ duration_max
      → total ≤ b
      → total + total_slept r.sleeps ≤ b

Answer-cases : {E A : Type 0} (a : Answer E A) → ((x : A) × (a ≡ ok x)) ⊎ ((e : E) × (a ≡ err e))
Answer-cases (ok x) = inl (x, refl)
Answer-cases (err e) = inr (e, refl)

-- A report of the rest of the loop, seen from before the sleep.
slept-IsBounded :
    {E A : Type 0} (c : RetrySettings E) (attempts total d : ℕ) (r : Report E A)
    → ((b : ℕ) → c.max_total_retry_delay ≡ some b → total ≤ b → total + d ≤ b)
    → IsBounded c (attempts + 1) (min (total + d) duration_max) r
    → IsBounded c attempts total (record r { calls = suc r.calls; sleeps = d ∷ r.sleeps })
slept-IsBounded c attempts total d r fits v = record {
  called = omega arith;
  call_limit = omega arith;
  sleeps_between = omega arith;
  honest = λ n e. omega (arith, v.honest n e);
  budget = λ b e m h. omega (arith, fits b e h, v.budget b e m (omega (arith, fits b e h)));
}

-- The report of a round that does not sleep.
ended-IsBounded :
    {E A : Type 0} (c : RetrySettings E) (attempts total : ℕ) (o : Outcome E A)
    → attempts ≤ c.max_retry_attempts
    → ((n : ℕ) → reported o ≡ some n → n ≡ attempts + 1)
    → IsBounded c attempts total (record { outcome = o; calls = 1; sleeps = [] })
ended-IsBounded c attempts total o h n = record {
  called = omega arith;
  call_limit = omega arith;
  sleeps_between = omega arith;
  honest = n;
  budget = λ b e m t. omega arith;
}

module _ {E A : Type 0} (random : ℕ → ℕ → ℕ) (c : RetrySettings E)
    (operation : AudioSourceOperation) (inner : ℕ → Answer E A) where
  -- The loop ends when its fuel exceeds the retries left, and its report is bounded.
  pub retry_loop-IsBounded :
      (fuel attempts total : ℕ)
      → attempts ≤ c.max_retry_attempts
      → c.max_retry_attempts < attempts + fuel
      → (r : Report E A) × (retry_loop random c operation inner fuel attempts total ≡ some r)
        × IsBounded c attempts total r
  unfolding retry_loop
  retry_loop-IsBounded zero attempts total h f = absurd (omega arith)
  retry_loop-IsBounded (suc fuel) attempts total h f = elim (Answer-cases (inner attempts)) [
    | inl (a, answer) ↦
        rw (answer, retry_loop)
          (
            record { outcome = ok a; calls = 1; sleeps = [] },
            refl,
            ended-IsBounded c attempts total (ok a) h (λ n p. ground arith),
          )
    | inr (e, answer) ↦
        elim (Bool-cases (ltb attempts c.max_retry_attempts && c.retry_policy operation e)) [
          | inl again ↦
              elim (Option-cases (retry_sleep_delay_for_attempt random c (attempts + 1) total)) [
                | inl over ↦
                    rw (answer, again, over, retry_loop)
                      (
                        record { outcome = failed_after (attempts + 1) e; calls = 1; sleeps = [] },
                        refl,
                        ended-IsBounded c attempts total (failed_after (attempts + 1) e) h
                            (λ n p. ground arith),
                      )
                | inr (d, wait) ↦
                    let (r, ran, v) =
                      retry_loop-IsBounded fuel (attempts + 1) (min (total + d) duration_max)
                        (ground arith) (omega arith) in
                    rw (answer, again, wait, ran, retry_loop)
                      (
                        record r { calls = suc r.calls; sleeps = d ∷ r.sleeps },
                        refl,
                        slept-IsBounded c attempts total d r
                            (λ b p t.
                              (retry_sleep_delay_budget random c (attempts + 1) total b p t d
                                wait).1)
                            v,
                      )
              ]
          | inr stop ↦
              rw (answer, stop, retry_loop)
                (
                  record { outcome = failed_after (attempts + 1) e; calls = 1; sleeps = [] },
                  refl,
                  ended-IsBounded c attempts total (failed_after (attempts + 1) e) h
                      (λ n p. ground arith),
                )
        ]
  ]

  -- The first `k` calls after `attempts` fail with errors that the policy retries.
  abbrev pub FailsFirst : ℕ → ℕ → Type 0
  FailsFirst attempts zero = Unit {0}
  FailsFirst attempts (suc k) =
      ((e : E) × (inner attempts ≡ err e) × (c.retry_policy operation e ≡ true))
      × FailsFirst (attempts + 1) k

  -- The waits before `k` retries, the first of them the one after `attempts` earlier calls.
  abbrev pub waits : ℕ → ℕ → List ℕ
  waits attempts zero = []
  waits attempts (suc k) = retry_delay_for_attempt random c (attempts + 1) ∷ waits (attempts + 1) k

  sleeps_in_full :
      (n total : ℕ)
      → c.max_total_retry_delay ≡ none
      → retry_sleep_delay_for_attempt random c n total ≡ some (retry_delay_for_attempt random c n)
  unfolding retry_sleep_delay_for_attempt
  sleeps_in_full n total b = ground arith

  retry_loop_succeeds :
      (k fuel attempts total : ℕ) {a : A}
      → c.max_total_retry_delay ≡ none
      → attempts + k ≤ c.max_retry_attempts
      → k < fuel
      → FailsFirst attempts k
      → inner (attempts + k) ≡ ok a
      → retry_loop random c operation inner fuel attempts total
        ≡ some (record { outcome = ok a; calls = suc k; sleeps = waits attempts k })
  unfolding retry_loop
  retry_loop_succeeds k zero attempts total b m f h s = absurd (omega arith)
  retry_loop_succeeds zero (suc fuel) attempts total b m f h s =
      let here : attempts + 0 ≡ attempts = omega arith in
      let answer = rw here at s in rw (answer, retry_loop) refl
  retry_loop_succeeds (suc k) (suc fuel) attempts total b m f h s =
      let (e, answer, retried) = h.0 in
      let below : ltb attempts c.max_retry_attempts ≡ true = ground arith in
      let later : attempts + suc k ≡ attempts + 1 + k = omega arith in
      let d = retry_delay_for_attempt random c (attempts + 1) in
      let rest =
        retry_loop_succeeds k fuel (attempts + 1) (min (total + d) duration_max) b (omega arith)
          (omega arith) h.1 (rw later at s) in
      rw (answer, below, retried, sleeps_in_full (attempts + 1) total b, rest, retry_loop) refl

  -- Without a time budget, if the first `k` calls fail with errors that the policy retries, `k` does
  -- not exceed the retries allowed, and the call after them succeeds, then its value is the result:
  -- the client was called `k + 1` times and slept before each retry for that retry's delay.
  pub retry_loop-first_success :
      (k : ℕ) {a : A}
      → c.max_total_retry_delay ≡ none
      → k ≤ c.max_retry_attempts
      → FailsFirst 0 k
      → inner k ≡ ok a
      → retry_loop random c operation inner (suc c.max_retry_attempts) 0 0
        ≡ some (record { outcome = ok a; calls = suc k; sleeps = waits 0 k })
  retry_loop-first_success k b m h s =
      let here : k ≡ 0 + k = omega arith in
      retry_loop_succeeds k (suc c.max_retry_attempts) 0 0 b (omega arith) (omega arith) h
        (rw here at s)
