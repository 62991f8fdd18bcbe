-- ===== src/Worker/Retry.antt =====
-- worker/retry.py: the policy that says whether a failed attempt is retried or is terminal.
pub mod Bounds
use sentinel_brief.Prelude.{ℕ, ◌*◌, ◌-◌, ◌^◌, String, Result, ok, err, ltb, leb, min, if◌then◌else◌}
use sentinel_brief.Core.Errors.{Exn}

-- What Python raises here: ValueError, and the OverflowError of a float power.
pub data PolicyError : Type 0 where
  value_error overflow_error : PolicyError

-- `2.0 ** n`, which raises from n = 1024 on. Below that it is exact.
unfoldable pub float_pow2 : ℕ → Result PolicyError ℕ
float_pow2 n = if ltb n 1024 then ok (2 ^ n) else err PolicyError.overflow_error

abbrev capped : ℕ → ℕ → Result PolicyError ℕ → Result PolicyError ℕ
capped base_s max_s (ok p) = ok (min (base_s * p) max_s)
capped base_s max_s (err e) = err e

-- Delays are counted in a fixed fraction of a second that divides the two settings.
unfoldable pub backoff_seconds : ℕ → ℕ → ℕ → Result PolicyError ℕ
unfolding float_pow2
backoff_seconds job_try base_s max_s =
    if ltb job_try 1
    then err PolicyError.value_error
    else capped base_s max_s (float_pow2 (job_try - 1))

pub data RetryAction : Type 0 where
  retry fail : RetryAction

pub record RetryDecision : Type 0 where
  pub action : RetryAction
  pub defer_s : ℕ
  pub reason : String

-- `exc.code` of a SentinelBriefError, the class name of any other exception.
unfoldable pub reason_of : Exn → String
reason_of Exn.config_error = "config_error"
reason_of Exn.fixture_missing = "fixture_missing"
reason_of Exn.llm_call_failed = "llm_call_failed"
reason_of Exn.not_found = "not_found"
reason_of Exn.conflict = "conflict"
reason_of Exn.queue_unavailable = "queue_unavailable"
reason_of (Exn.verdict_validation attempts last_error) = "verdict_validation"
reason_of (Exn.budget_exceeded tokens_today budget) = "budget_exceeded"
reason_of Exn.signature_error = "unauthorized"
reason_of Exn.length_required = "length_required"
reason_of Exn.payload_too_large = "payload_too_large"
reason_of Exn.stream_unavailable = "stream_unavailable"
reason_of (Exn.rate_limited retry_after) = "rate_limited"
reason_of Exn.redis_error = "RedisError"
reason_of Exn.validation_error = "ValidationError"
reason_of (Exn.other name) = name

abbrev deferred : String → Result PolicyError ℕ → Result PolicyError RetryDecision
deferred reason (ok s) = ok (record { action = RetryAction.retry; defer_s = s; reason = reason })
deferred reason (err e) = err e

unfoldable pub decide_retry : Exn → ℕ → ℕ → ℕ → ℕ → Result PolicyError RetryDecision
unfolding backoff_seconds
decide_retry exc job_try max_tries base_s max_s =
    if ltb job_try 1
    then err PolicyError.value_error
    else if ltb max_tries 1
    then err PolicyError.value_error
    else if leb max_tries job_try
    then ok (record { action = RetryAction.fail; defer_s = 0; reason = reason_of exc })
    else deferred (reason_of exc) (backoff_seconds job_try base_s max_s)
