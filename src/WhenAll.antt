-- ===== src/WhenAll.antt =====
-- include/when_all.hpp: `when_all` on a vector of awaitables. Tasks come to their ends in any order,
-- before or after the `co_await` of the counter, all on the thread of the coroutine that awaits: none ends
-- between the load and the store of that `co_await`.
pub mod VoidTasks
pub mod Joins
pub mod Gather
mod Tests
use libcoio.Base.{
  ℕ, zero, suc, ◌+◌, ◌-◌, ◌*◌, ◌/◌, ◌%◌, ◌^◌, ◌≤◌, ◌<◌, min, max, ◌≡◌, refl, sym, ap, ◌∙◌, ◌≢◌, ◌↔◌,
  ◌⊎◌, inl, inr, Bool, true, false, not, ◌&&◌, ◌||◌, Option, none, some, List, [], ◌∷◌, ◌++◌,
  append-nil, append_assoc, arith, dec_lt, ltb, leb, ◌==◌, if◌then◌else◌, ltb_iff, leb_iff, ==_iff,
  Bool-cases, Option-cases, length, take, drop, replicate, length-append, length-take, length-drop,
  length-replicate, take-append-drop, take_all, drop_all, take-append_of_le, drop-append_of_le,
  take-append_add, drop-append_add, take-append_self, drop-append_self, drop-drop, drop-take,
  take-take, Bytes, codes, occurs, find, find_from, IsFirst, find-IsFirst, find_of_IsFirst,
  find-eq-none, find-none_at, find_from-eq-find, occurs-drop, occurs-append, length_of_occurs,
  find-le-length, find-append, find_splits, starts_with-append, starts_with,
}
use libcoio.Outcome.{Outcome, returned, threw, Exception}
use libcoio.Task.{TaskPromise, new_task, set_callback, finish, result}
use libcoio.AwaitCounter.{
  AwaitableCounter, await_ready, await_suspend, notify_complete_one, Waiter, arriving, deciding,
  asleep, going_on, after_ready, after_notify,
}

pub record Join (T : Type 0) : Type 0 where
  pub tasks : List (TaskPromise T)
  pub counter : AwaitableCounter
  pub waiter : Waiter

-- A task with its callback, for each awaitable.
abbrev pub start_all : {T : Type 0} → ℕ → List (TaskPromise T)
start_all n = replicate n (set_callback new_task)

abbrev pub started : (T : Type 0) → ℕ → Join T
started T n = record {
  tasks = start_all n;
  counter = record { continuation = none; cnt = n };
  waiter = arriving;
}

-- `co_await counter`: the load of `await_ready`, then the store of `await_suspend`.
abbrev pub load_counter : {T : Type 0} → Join T → Join T
load_counter s = record s { waiter = after_ready (await_ready s.counter) }

abbrev pub store_counter : {T : Type 0} → ℕ → Join T → Join T
store_counter k s = record s { counter = await_suspend k s.counter; waiter = asleep }

-- The callback, where it is called.
abbrev pub callback : {T : Type 0} → Bool → Join T → Join T
callback true s = record s {
  counter = (notify_complete_one s.counter).1;
  waiter = after_notify (notify_complete_one s.counter).0 s.waiter;
}
callback false s = s

-- The steps on one thread: a task ends only where the coroutine is not between the load and the store.
pub data Step {T : Type 0} (k : ℕ) : Join T → Join T → Type 0 where
  loads : (s : Join T) → s.waiter ≡ arriving → Step k s (load_counter s)
  stores : (s : Join T) → s.waiter ≡ deciding → Step k s (store_counter k s)
  ends :
      (s : Join T) (xs : List (TaskPromise T)) (p : TaskPromise T) (ys : List (TaskPromise T))
      (o : Outcome T)
      → s.tasks ≡ xs ++ (p ∷ ys)
      → p.m_callback ≡ true
      → s.waiter ≢ deciding
      → Step k s (callback (finish o p).0 (record s { tasks = xs ++ ((finish o p).1 ∷ ys) }))

pub data Steps {T : Type 0} (k : ℕ) : Join T → Join T → Type 0 where
  stay : (s : Join T) → Steps k s s
  more : (s t u : Join T) → Steps k s t → Step k t u → Steps k s u

-- One turn of the loop over the tasks: `none` is a read through a null pointer.
abbrev pub gathered :
    {T : Type 0} → Option (Outcome T) → Option (Outcome (List T)) → Option (Outcome (List T))
gathered none rest = none
gathered (some (threw e)) rest = some (threw e)
gathered (some (returned v)) none = none
gathered (some (returned v)) (some (threw e)) = some (threw e)
gathered (some (returned v)) (some (returned vs)) = some (returned (v ∷ vs))

-- The loop that collects the results.
pub gather : {T : Type 0} → List (TaskPromise T) → Option (Outcome (List T))
gather [] = some (returned [])
gather (p ∷ ps) = gathered (result p) (gather ps)

-- `get_non_void`: for a task without a value it gives `void_t`, here `none`, and does not look at the task.
abbrev pub get_non_void : {T : Type 0} → Bool → TaskPromise T → Option (Outcome (Option T))
get_non_void is_void p = if is_void then some (returned none) else elim (result p) [
  | none ↦ none
  | some (returned v) ↦ some (returned (some v))
  | some (threw e) ↦ some (threw e)
]

-- The results of `when_all_impl`, the version on a tuple; the flag tells the awaitables without a value.
pub gather_tuple : {T : Type 0} → List (Bool × TaskPromise T) → Option (Outcome (List (Option T)))
gather_tuple [] = some (returned [])
gather_tuple ((is_void, p) ∷ ps) = gathered (get_non_void is_void p) (gather_tuple ps)
