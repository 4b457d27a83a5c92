-- ===== src/Outcome.antt =====
-- include/system_error.hpp, and what a call that may throw comes to: a value or an exception.
use libcoio.Base.{ℕ}

-- `system_error` carries the error number; the others are the standard library's own.
pub data Exception : Type 0 where
  system_error : ℕ → Exception
  invalid_argument out_of_range logic_error : Exception

pub data Outcome {ℓ} (A : Type ℓ) : Type ℓ where
  returned : A → Outcome A
  threw : Exception → Outcome A

abbrev pub make_system_error : ℕ → Exception
make_system_error err = system_error err
