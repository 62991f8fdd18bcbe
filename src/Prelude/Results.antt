-- ===== src/Prelude/Results.antt =====
-- Exceptions as values: a call returns, or raises an exception of type `E`.
pub data Result {ℓ} (E : Type 0) (A : Type ℓ) : Type ℓ where
  ok : A → Result E A
  err : E → Result E A
