-- ===== src/Awaitable.antt =====
-- include/just.hpp, include/fmap.hpp, include/flat_map.hpp and include/sync_wait.hpp: awaitables by
-- their three functions, and what is made of them.
pub mod Laws
pub mod Pipes
pub mod SyncWait
mod Tests
use libcoio.Base.{
  ℕ, zero, suc, ◌+◌, ◌-◌, ◌*◌, ◌/◌, ◌%◌, ◌^◌, ◌≤◌, ◌<◌, min, max, ◌≡◌, refl, sym, ap, ◌∙◌, ◌≢◌, ◌↔◌,
  ◌⊎◌, inl, inr, Bool, true, false, not, ◌&&◌, ◌||◌, Option, none, some, List, [], ◌∷◌, ◌++◌,
  append-nil, append_assoc, arith, dec_lt, ltb, leb, ◌==◌, if◌then◌else◌, ltb_iff, leb_iff, ==_iff,
  Bool-cases, Option-cases, length, take, drop, replicate, length-append, length-take, length-drop,
  length-replicate, take-append-drop, take_all, drop_all, take-append_of_le, drop-append_of_le,
  take-append_add, drop-append_add, take-append_self, drop-append_self, drop-drop, drop-take,
  take-take, Bytes, codes, occurs, find, find_from, IsFirst, find-IsFirst, find_of_IsFirst,
  find-eq-none, find-none_at, find_from-eq-find, occurs-drop, occurs-append, length_of_occurs,
  find-le-length, find-append, find_splits, starts_with-append, starts_with,
}
use libcoio.Outcome.{Outcome, returned, threw, Exception}
use libcoio.Task.{TaskPromise, new_task, set_callback, finish, result}

-- An awaiter over its states. `completed` is what happens while the one who waits is suspended.
pub record Awaiter (R : Type 0) : Type 1 where
  pub Memory : Type 0
  pub memory : Memory
  pub await_ready : Memory → Bool
  pub await_suspend : Memory → Bool × Memory
  pub completed : Memory → Memory
  pub await_resume : Memory → Outcome R

module _ {R : Type 0} where
  -- After `await_suspend`.
  abbrev pub woken : (A : Awaiter R) → Bool × A.Memory → Bool × Outcome R
  woken A (true, s) = (true, A.await_resume (A.completed s))
  woken A (false, s) = (false, A.await_resume s)

  -- `co_await`: whether the coroutine was suspended, and what comes out.
  pub co_await : Awaiter R → Bool × Outcome R
  co_await A =
      if A.await_ready A.memory
      then (false, A.await_resume A.memory)
      else woken A (A.await_suspend A.memory)

  pub just : R → Awaiter R
  just v = record {
    Memory = R;
    memory = v;
    await_ready = λ s. true;
    await_suspend = λ s. (false, s);
    completed = λ s. s;
    await_resume = λ s. returned s;
  }

  -- A `future` for a body that comes to this end, with or without a suspension.
  pub future : Bool × Outcome R → Awaiter R
  future x = record {
    Memory = Bool × Outcome R;
    memory = x;
    await_ready = λ s. false;
    await_suspend = λ s. (s.0, s);
    completed = λ s. s;
    await_resume = λ s. s.1;
  }

module _ {R Q : Type 0} where
  -- A call that may throw, on an outcome.
  abbrev pub invoke : (R → Outcome Q) → Outcome R → Outcome Q
  invoke fn (returned v) = fn v
  invoke fn (threw e) = threw e

  -- `fmap_awaitable::operator co_await`; all but `await_resume` is passed on.
  abbrev pub fmap : Awaiter R → (R → Outcome Q) → Awaiter Q
  fmap A fn = record {
    Memory = A.Memory;
    memory = A.memory;
    await_ready = A.await_ready;
    await_suspend = A.await_suspend;
    completed = A.completed;
    await_resume = λ s. invoke fn (A.await_resume s);
  }

  abbrev pub and_then : (R → Awaiter Q) → Bool × Outcome R → Bool × Outcome Q
  and_then fn (b, threw e) = (b, threw e)
  and_then fn (b, returned v) = (b || (co_await (fn v)).0, (co_await (fn v)).1)

  -- `flat_map_impl`, a coroutine that awaits one after the other.
  pub flat_map : Awaiter R → (R → Awaiter Q) → Awaiter Q
  unfolding future
  flat_map A fn = future (and_then fn (co_await A))

module _ {R : Type 0} where
  -- `sync_wait`: the flag is set by the callback of the task; `none` would be a wait without end.
  pub sync_wait : Awaiter R → Option (Outcome R)
  sync_wait A =
      let (flag, task) = finish (co_await A).1 (set_callback new_task) in
      if flag then result task else none
