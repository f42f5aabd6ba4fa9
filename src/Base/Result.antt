-- ===== src/Base/Result.antt =====
-- A value or an error.
pub data Result {ℓ} (E : Type ℓ) (A : Type ℓ) : Type ℓ where
  ok : A → Result E A
  err : E → Result E A
