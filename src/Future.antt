-- ===== src/Future.antt =====
-- include/future.hpp: the promise of a `future`, its result, and the hand-over between the coroutine's
-- `final_suspend` and the `await_suspend` of the one who waits for it.
pub mod VoidPromise
pub mod Race
pub mod Progress
mod Tests
use libcoio.Base.{
  ℕ, zero, suc, ◌+◌, ◌-◌, ◌*◌, ◌/◌, ◌%◌, ◌^◌, ◌≤◌, ◌<◌, min, max, ◌≡◌, refl, sym, ap, ◌∙◌, ◌≢◌, ◌↔◌,
  ◌⊎◌, inl, inr, Bool, true, false, not, ◌&&◌, ◌||◌, Option, none, some, List, [], ◌∷◌, ◌++◌,
  append-nil, append_assoc, arith, dec_lt, ltb, leb, ◌==◌, if◌then◌else◌, ltb_iff, leb_iff, ==_iff,
  Bool-cases, Option-cases, length, take, drop, replicate, length-append, length-take, length-drop,
  length-replicate, take-append-drop, take_all, drop_all, take-append_of_le, drop-append_of_le,
  take-append_add, drop-append_add, take-append_self, drop-append_self, drop-drop, drop-take,
  take-take, Bytes, codes, occurs, find, find_from, IsFirst, find-IsFirst, find_of_IsFirst,
  find-eq-none, find-none_at, find_from-eq-find, occurs-drop, occurs-append, length_of_occurs,
  find-le-length, find-append, find_splits, starts_with-append, starts_with,
}
use libcoio.Outcome.{Outcome, returned, threw, Exception}

-- `std::variant<std::monostate, T, std::exception_ptr>`
pub data Variant {ℓ} (T : Type ℓ) : Type ℓ where
  monostate : Variant T
  value : T → Variant T
  exception : Exception → Variant T

-- `m_continuation` is a `std::coroutine_handle<>`, null at first.
pub record FuturePromise {ℓ} (T : Type ℓ) : Type ℓ where
  pub m_state : Bool
  pub m_continuation : Option ℕ
  pub m_result : Variant T

module _ {ℓ} {T : Type ℓ} where
  pub fresh : FuturePromise T
  fresh = record { m_state = false; m_continuation = none; m_result = monostate }

  -- `m_state.exchange(true)`: the old value.
  abbrev pub exchange : FuturePromise T → Bool × FuturePromise T
  exchange p = (p.m_state, record p { m_state = true })

  abbrev pub return_value : T → FuturePromise T → FuturePromise T
  return_value v p = record p { m_result = value v }

  abbrev pub unhandled_exception : Exception → FuturePromise T → FuturePromise T
  unhandled_exception e p = record p { m_result = exception e }

  -- `get`; `none` is the failed assertion.
  unfoldable pub result : FuturePromise T → Option (Outcome T)
  result p = elim p.m_result [
    | monostate ↦ none
    | value v ↦ some (returned v)
    | exception e ↦ some (threw e)
  ]

  -- `set_continuation` in its two steps, the store and the exchange; the answer says whether the caller
  -- is to stay suspended.
  abbrev pub store_continuation : ℕ → FuturePromise T → FuturePromise T
  store_continuation k p = record p { m_continuation = some k }

  abbrev pub set_state : FuturePromise T → Bool × FuturePromise T
  set_state p = (not (exchange p).0, (exchange p).1)

  abbrev pub set_continuation : ℕ → FuturePromise T → Bool × FuturePromise T
  set_continuation k p = set_state (store_continuation k p)

-- Where the coroutine that awaits stands: inside `m_handle.resume()`, before the store and before the
-- exchange of `set_continuation`; then it is suspended, or goes on.
pub data Awaiter : Type 0 where
  resuming storing exchanging suspended going_on : Awaiter

-- Where the awaited coroutine stands: in its body, before the exchange of `final_awaiter`, before the
-- `resume` of the continuation, and at the end.
pub data Body : Type 0 where
  running finishing waking ended : Body

-- One awaited future. `resumed` counts the calls of `resume` on the continuation.
pub record State (T : Type 0) : Type 0 where
  pub promise : FuturePromise T
  pub awaiter : Awaiter
  pub body : Body
  pub resumed : ℕ

-- From the start of the body, by the `resume` of `await_suspend`.
abbrev pub started : (T : Type 0) → State T
started T = record { promise = fresh; awaiter = resuming; body = running; resumed = 0 }

-- After `await_suspend`: `true` keeps the caller suspended.
abbrev pub after_suspend : Bool → Awaiter
after_suspend true = suspended
after_suspend false = going_on

-- After the exchange of `final_awaiter`.
abbrev pub after_final : Bool → Body
after_final true = waking
after_final false = ended

-- `resume` makes a suspended coroutine go on.
abbrev pub wake : Awaiter → Awaiter
wake suspended = going_on
wake a = a

-- The steps, in any order that two threads can bring about: the body may run within `resume` or on
-- another thread, after `resume` has returned.
pub data Step {T : Type 0} (k : ℕ) : State T → State T → Type 0 where
  body_returns :
      (s : State T) (v : T)
      → s.body ≡ running
      → Step k s (record s { promise = return_value v s.promise; body = finishing })
  body_throws :
      (s : State T) (e : Exception)
      → s.body ≡ running
      → Step k s (record s { promise = unhandled_exception e s.promise; body = finishing })
  final_exchange :
      (s : State T)
      → s.body ≡ finishing
      → Step k s
          (record s { promise = (exchange s.promise).1; body = after_final (exchange s.promise).0 })
  final_resume :
      (s : State T) (h : ℕ)
      → s.body ≡ waking
      → s.promise.m_continuation ≡ some h
      → Step k s (record s { awaiter = wake s.awaiter; body = ended; resumed = s.resumed + 1 })
  resume_returns : (s : State T) → s.awaiter ≡ resuming → Step k s (record s { awaiter = storing })
  stores :
      (s : State T)
      → s.awaiter ≡ storing
      → Step k s (record s { promise = store_continuation k s.promise; awaiter = exchanging })
  exchanges :
      (s : State T)
      → s.awaiter ≡ exchanging
      → Step k s (record s {
        promise = (set_state s.promise).1;
        awaiter = after_suspend (set_state s.promise).0;
      })

pub data Steps {T : Type 0} (k : ℕ) : State T → State T → Type 0 where
  stay : (s : State T) → Steps k s s
  more : (s t u : State T) → Steps k s t → Step k t u → Steps k s u
