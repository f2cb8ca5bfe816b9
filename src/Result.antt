-- ===== src/Result.antt =====
-- How a call ends: it returns, it throws a standard exception, or it waits for ever.
pub data Exception : Type 0 where
  invalid_argument out_of_range : Exception

pub data Result {ℓ} (A : Type ℓ) : Type ℓ where
  done : A → Result A
  threw : Exception → Result A
  blocked : Result A
