-- ===== src/Worker/Retry/Bounds.antt =====
-- What worker/retry.py decides, for every attempt number and every setting.
use native.Mathlib.Nat.{pow-succ'}
use native.Mathlib.Numerals.{add-one}
use sentinel_brief.Prelude.{
  ℕ, zero, suc, ◌+◌, ◌*◌, ◌^◌, ◌-◌, ◌≤◌, ◌<◌, ◌≡◌, ◌↔◌, ap, sym, ◌∙◌, Result, ok, err, min, arith,
}
use sentinel_brief.Core.Errors.{Exn}
use sentinel_brief.Worker.Retry.{
  PolicyError, backoff_seconds, RetryAction, RetryDecision, reason_of, decide_retry,
}

-- For an attempt number from 1 to 1024 the delay is the base doubled once for each earlier
-- attempt, cut at the maximum.
pub backoff_seconds_exact :
    (job_try base_s max_s : ℕ)
    → 1 ≤ job_try
    → job_try ≤ 1024
    → backoff_seconds job_try base_s max_s ≡ ok (min (base_s * 2 ^ (job_try - 1)) max_s)
unfolding backoff_seconds
backoff_seconds_exact job_try base_s max_s h k = ground arith

pow2-suc : (n : ℕ) → 2 ^ suc n ≡ 2 * 2 ^ n
pow2-suc n = pow-succ' 2 n

suc-sub_one : (n : ℕ) → suc n - 1 ≡ n
suc-sub_one n = omega arith

exact_at :
    (n base_s max_s : ℕ)
    → n < 1024
    → backoff_seconds (suc n) base_s max_s ≡ ok (min (base_s * 2 ^ n) max_s)
exact_at n base_s max_s h =
    rw suc-sub_one at (backoff_seconds_exact (suc n) base_s max_s (omega arith) (omega arith))

zero_raises : (base_s max_s d : ℕ) → backoff_seconds 0 base_s max_s ≡ ok d → ⊥
unfolding backoff_seconds
zero_raises base_s max_s d e = cc

ok_injective : {a b : ℕ} → ◌≡◌ {A = Result PolicyError ℕ} (ok a) (ok b) → a ≡ b
ok_injective e = cc

-- The next delay is twice this one, cut at the maximum, while neither power overflows.
backoff_seconds-suc :
    (job_try base_s max_s d : ℕ)
    → job_try < 1024
    → backoff_seconds job_try base_s max_s ≡ ok d
    → backoff_seconds (job_try + 1) base_s max_s ≡ ok (min (2 * d) max_s)
backoff_seconds-suc zero base_s max_s d h e = absurd (zero_raises base_s max_s d e)
backoff_seconds-suc (suc n) base_s max_s d h e =
    rw
      (
        add-one,
        backoff_seconds_exact (suc (suc n)) base_s max_s (omega arith) (omega arith),
        suc-sub_one (suc n),
        pow2-suc n,
      )
      (ap ok (omega (arith, ok_injective (sym (exact_at n base_s max_s (omega arith)) ∙ e))))

-- With both numbers positive, the decision is terminal exactly on the last allowed attempt or
-- past it, and then it defers by nothing.
pub decide_retry-fail_iff :
    (exc : Exn) (job_try max_tries base_s max_s : ℕ) (d : RetryDecision)
    → decide_retry exc job_try max_tries base_s max_s ≡ ok d
    → (d.action ≡ RetryAction.fail) ↔ (max_tries ≤ job_try)
unfolding decide_retry
decide_retry-fail_iff exc job_try max_tries base_s max_s d e =
    (λ h. ground arith, λ h. ground arith)

-- A decision never defers by more than the maximum, and names the exception's reason.
decide_retry_bounds :
    (exc : Exn) (job_try max_tries base_s max_s : ℕ) (d : RetryDecision)
    → decide_retry exc job_try max_tries base_s max_s ≡ ok d
    → (d.defer_s ≤ max_s) × (d.reason ≡ reason_of exc)
unfolding decide_retry
decide_retry_bounds exc job_try max_tries base_s max_s d e = (ground arith, ground arith)

-- Before the last attempt the delay is the exponential one.
pub decide_retry-retries :
    (exc : Exn) (job_try max_tries base_s max_s : ℕ)
    → 1 ≤ job_try
    → job_try ≤ 1024
    → job_try < max_tries
    → decide_retry exc job_try max_tries base_s max_s
      ≡ ok (record {
        action = RetryAction.retry;
        defer_s = min (base_s * 2 ^ (job_try - 1)) max_s;
        reason = reason_of exc;
      })
unfolding decide_retry
decide_retry-retries exc job_try max_tries base_s max_s h k l = ground arith

-- On the last attempt or past it the decision is terminal.
pub decide_retry-fails :
    (exc : Exn) (job_try max_tries base_s max_s : ℕ)
    → 1 ≤ max_tries
    → max_tries ≤ job_try
    → decide_retry exc job_try max_tries base_s max_s
      ≡ ok (record { action = RetryAction.fail; defer_s = 0; reason = reason_of exc })
unfolding decide_retry
decide_retry-fails exc job_try max_tries base_s max_s h l = ground arith

-- Past attempt 1024 the float power raises.
pub decide_retry-overflows :
    (exc : Exn) (job_try max_tries base_s max_s : ℕ)
    → 1024 < job_try
    → job_try < max_tries
    → decide_retry exc job_try max_tries base_s max_s ≡ err PolicyError.overflow_error
unfolding decide_retry
decide_retry-overflows exc job_try max_tries base_s max_s h l = ground arith
