-- ===== src/WhenAll/VoidTasks.antt =====
-- `when_all` of include/when_all.hpp on a vector of awaitables without a value.
use libcoio.Base.{◌≡◌, refl, some, List, ◌∷◌, ◌++◌}
use libcoio.Outcome.{Outcome, returned, threw, Exception}
use mathlib.Core.List.{map}
use libcoio.Task.{TaskPromise}
use libcoio.WhenAll.{gather}
use libcoio.WhenAll.Gather.{ended, gather_lem}

-- After `co_await counter` the coroutine ends; the tasks are not looked at.
unfoldable pub gather_void : List {0} (TaskPromise {0} Unit) → Outcome {0} Unit
gather_void tasks = returned tt

-- `when_all` on awaitables without a value returns even when some of them have thrown: the exception, which
-- the version with values throws again, is lost.
pub gather_void_lem :
    (before : List (Unit {0})) (e : Exception) (rest : List {0} (Outcome {0} Unit))
    → (gather_void (ended (map {A = Unit {0}} returned before ++ (threw e ∷ rest))) ≡ returned tt)
      × (gather (ended (map {A = Unit {0}} returned before ++ (threw e ∷ rest))) ≡ some (threw e))
unfolding gather_void
gather_void_lem before e rest = (refl, (gather_lem before e rest).1)
