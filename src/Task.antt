-- ===== src/Task.antt =====
-- include/details/task_with_callback.hpp: the promise of a task, its result, and its callback at the end.
use libcoio.Base.{Bool, true, false, Option, none, some}
use libcoio.Outcome.{Outcome, returned, threw, Exception}

-- `m_pointer` points at the yielded value; `m_callback` says whether there is a callback.
pub record TaskPromise {ℓ} (T : Type ℓ) : Type ℓ where
  pub m_pointer : Option T
  pub m_exception : Option Exception
  pub m_callback : Bool

module _ {ℓ} {T : Type ℓ} where
  abbrev pub new_task : TaskPromise T
  new_task = record { m_pointer = none; m_exception = none; m_callback = false }

  abbrev pub set_callback : TaskPromise T → TaskPromise T
  set_callback p = record p { m_callback = true }

  -- `final_awaiter::await_suspend`: whether the callback is called; it is moved away first.
  abbrev pub final_suspend : TaskPromise T → Bool × TaskPromise T
  final_suspend p = (p.m_callback, record p { m_callback = false })

  abbrev pub yield_value : T → TaskPromise T → Bool × TaskPromise T
  yield_value v p = final_suspend (record p { m_pointer = some v })

  abbrev pub unhandled_exception : Exception → TaskPromise T → TaskPromise T
  unhandled_exception e p = record p { m_exception = some e }

  -- The body of the task, `co_yield co_await a`, once `a` has come to its end.
  unfoldable pub finish : Outcome T → TaskPromise T → Bool × TaskPromise T
  finish (returned v) p = yield_value v p
  finish (threw e) p = final_suspend (unhandled_exception e p)

  -- `result`; `none` is the read through a null pointer.
  unfoldable pub result : TaskPromise T → Option (Outcome T)
  result p = elim p.m_exception [
    | some e ↦ some (threw e)
    | none ↦ elim p.m_pointer [ some v ↦ some (returned v) | none ↦ none ]
  ]
