-- ===== src/Base/Results.antt =====
-- RESULT<Type> of src/Result.h: a value or an error code. `fault` is what the C++ standard leaves
-- undefined, such as a read outside an array; no caller sees it.

pub data ErrorCode : Type 0 where
  generic_unknown : ErrorCode
  generic_out_of_memory : ErrorCode
  generic_invalid_argument : ErrorCode
  generic_quota_exceeded : ErrorCode
  vector_pre_allocated : ErrorCode
  vector_item_not_found : ErrorCode

pub data Outcome {ℓ} (A : Type ℓ) : Type ℓ where
  ok : A → Outcome A
  err : ErrorCode → Outcome A
  fault : Outcome A

infixl 5 ◌>>=◌
abbrev pub ◌>>=◌ {ℓ κ} : {A : Type ℓ} {B : Type κ} → Outcome A → (A → Outcome B) → Outcome B
ok a >>= f = f a
err e >>= f = err e
fault >>= f = fault
