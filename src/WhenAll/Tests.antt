-- ===== src/WhenAll/Tests.antt =====
-- `when_all` of include/when_all.hpp on two awaitables: one ends before the `co_await`, one after it.
use libcoio.Base.{ℕ, ◌<◌, ◌≡◌, refl, Bool, true, false, none, some, List, [], ◌∷◌, arith}
use mathlib.Core.List.{map}
use libcoio.Outcome.{Outcome, returned, threw, logic_error}
use libcoio.Task.{TaskPromise, new_task, set_callback, finish}
use libcoio.AwaitCounter.{asleep, going_on, notify_complete_one}
use libcoio.WhenAll.{
  gather_tuple, Join, started, load_counter, store_counter, callback, loads, stores, ends, Steps,
  stay, more, gather,
}
use libcoio.WhenAll.Joins.{open_tasks, Steps-joins}
use libcoio.WhenAll.Gather.{ended_in_tuple, tuple_outcome, gather_tuple_lem}

abbrev fresh_task : TaskPromise ℕ
fresh_task = set_callback new_task

abbrev s0 : Join ℕ
s0 = started ℕ 2

abbrev s1 : Join ℕ
s1 = callback true (record s0 { tasks = fresh_task ∷ (finish (returned 5) fresh_task).1 ∷ [] })

abbrev s2 : Join ℕ
s2 = store_counter 7 (load_counter s1)

abbrev s3 : Join ℕ
s3 = callback true (record s2 {
  tasks = (finish (returned 4) fresh_task).1 ∷ (finish (returned 5) fresh_task).1 ∷ [];
})

run_to_end : Steps 7 s0 s3
unfolding finish notify_complete_one
run_to_end =
    more s0 s2 s3
      (more s0 (load_counter s1) s2
        (more s0 s1 (load_counter s1)
          (more s0 s0 s1 (stay s0)
            (ends s0 (fresh_task ∷ []) fresh_task [] (returned 5) refl refl (λ e. cc (e))))
          (loads s1 refl))
        (stores (load_counter s1) refl))
      (ends s2 [] fresh_task ((finish (returned 5) fresh_task).1 ∷ []) (returned 4) refl refl
        (λ e. cc (e)))

wakes : s3.waiter ≡ going_on
unfolding notify_complete_one
wakes = refl

Steps-joins_example :
    (s3.waiter ≡ going_on
      → (open_tasks s3.tasks ≡ 0) × ((o : Outcome (List ℕ)) × (gather s3.tasks ≡ some o)))
    × (s3.waiter ≡ asleep → (0 < open_tasks s3.tasks) × (s3.counter.continuation ≡ some 7))
Steps-joins_example = Steps-joins 7 2 s3 (omega arith) run_to_end

abbrev two : List ℕ
two = 4 ∷ 5 ∷ []

abbrev mixed : List (Bool × Outcome ℕ)
mixed = (false, returned 4) ∷ (true, threw logic_error) ∷ []

exception_lost : tuple_outcome mixed ≡ returned (some 4 ∷ none ∷ [])
unfolding tuple_outcome
exception_lost = refl

gather_tuple_lem_example : gather_tuple (map ended_in_tuple mixed) ≡ some (tuple_outcome mixed)
gather_tuple_lem_example = gather_tuple_lem mixed
