-- ===== src/Future/VoidPromise.antt =====
-- `future_promise<void>` and `is_ready` of include/future.hpp.
use libcoio.Base.{ℕ, ◌≡◌, refl, Bool, true, false, Option, none, some}
use libcoio.Outcome.{Outcome, returned, threw, Exception}
use libcoio.Future.{FuturePromise, fresh, return_value, unhandled_exception, result}

pub record VoidPromise : Type 0 where
  pub m_state : Bool
  pub m_continuation : Option ℕ
  pub m_exception : Option Exception

abbrev pub void_fresh : VoidPromise
void_fresh = record { m_state = false; m_continuation = none; m_exception = none }

abbrev pub return_void : VoidPromise → VoidPromise
return_void p = p

abbrev pub void_exception : Exception → VoidPromise → VoidPromise
void_exception e p = record p { m_exception = some e }

-- `result`: without an exception it returns, whether or not the body has ended.
unfoldable pub void_result : VoidPromise → Outcome {0} Unit
void_result p = elim p.m_exception [ none ↦ returned tt | some e ↦ threw e ]

-- `is_ready` and `await_ready`, of a handle that may be null and whether the coroutine is at its end.
abbrev pub is_ready : Option Bool → Bool
is_ready none = true
is_ready (some done) = done

-- The end of the body, of the two kinds of promise.
abbrev pub void_finish : Outcome {0} Unit → VoidPromise → VoidPromise
void_finish (returned x) p = return_void p
void_finish (threw e) p = void_exception e p

abbrev pub finish : Outcome {0} Unit → FuturePromise {0} Unit → FuturePromise {0} Unit
finish (returned x) p = return_value x p
finish (threw e) p = unhandled_exception e p

-- Once its body has ended, the promise of a future without a value gives what the promise of a future with
-- a value of no content gives.
pub void_result-void_finish :
    (o : Outcome {0} Unit) → some (void_result (void_finish o void_fresh)) ≡ result (finish o fresh)
unfolding void_result result
void_result-void_finish (returned tt) = refl
void_result-void_finish (threw e) = refl
