-- ===== src/Core/Errors.antt =====
-- core/errors.py: the exceptions that the pipeline, the job and the services raise. A message is
-- kept only where code reads it back.
use sentinel_brief.Prelude.{ℕ, String, Option, List}

pub data Exn : Type 0 where
  config_error fixture_missing llm_call_failed not_found conflict queue_unavailable : Exn
  signature_error length_required payload_too_large stream_unavailable : Exn
  rate_limited : Option ℕ → Exn
  verdict_validation : ℕ → List ℕ → Exn
  budget_exceeded : ℕ → ℕ → Exn
  -- a RedisError that nothing catches, and a pydantic ValidationError over `alerts.raw`
  redis_error validation_error : Exn
  -- any other exception, by the name of its class
  other : String → Exn
