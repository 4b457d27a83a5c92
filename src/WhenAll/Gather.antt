-- ===== src/WhenAll/Gather.antt =====
-- The results of `when_all` of include/when_all.hpp come in the order of the awaitables.
use libcoio.Base.{◌≡◌, refl, Bool, true, false, Option, none, some, List, [], ◌∷◌, ◌++◌}
use mathlib.Core.List.{map}
use libcoio.Outcome.{Outcome, returned, threw, Exception}
use libcoio.Task.{TaskPromise, new_task, set_callback, finish, result}
use libcoio.WhenAll.{gather_tuple, gathered, gather}

-- The tasks after they have come to these ends.
abbrev pub ended : {T : Type 0} → List (Outcome T) → List (TaskPromise T)
ended os = map (λ o. (finish o (set_callback new_task)).1) os

finish_lem : {T : Type 0} (o : Outcome T) → result (finish o (set_callback new_task)).1 ≡ some o
unfolding finish result
finish_lem (returned v) = refl
finish_lem (threw e) = refl

-- If every task has returned, the results are their values in the order of the awaitables.
-- If some have thrown, the exception of the first of them in that order is thrown again.
pub gather_lem :
    {T : Type 0} (vs : List T) (e : Exception) (rest : List (Outcome T))
    → (gather (ended (map returned vs)) ≡ some (returned vs))
      × (gather (ended (map returned vs ++ (threw e ∷ rest))) ≡ some (threw e))
unfolding gather
gather_lem {T} [] e rest = (refl, rw (finish_lem {T = T} (threw e)) refl)
gather_lem (v ∷ vs) e rest =
    let (all, first) = gather_lem vs e rest in
    (rw (finish_lem (returned v)) (rw all refl), rw (finish_lem (returned v)) (rw first refl))

-- One task of a tuple, after it has come to this end.
abbrev pub ended_in_tuple : {T : Type 0} → Bool × Outcome T → Bool × TaskPromise T
ended_in_tuple (is_void, o) = (is_void, (finish o (set_callback new_task)).1)

abbrev cons_result : {T : Type 0} → Option T → Outcome (List (Option T)) → Outcome (List (Option T))
cons_result v (returned vs) = returned (v ∷ vs)
cons_result v (threw e) = threw e

-- What the awaitables with a value come to, in order; the others count as returned.
unfoldable pub tuple_outcome : {T : Type 0} → List (Bool × Outcome T) → Outcome (List (Option T))
tuple_outcome [] = returned []
tuple_outcome ((true, o) ∷ os) = cons_result none (tuple_outcome os)
tuple_outcome ((false, threw e) ∷ os) = threw e
tuple_outcome ((false, returned v) ∷ os) = cons_result (some v) (tuple_outcome os)

cons_lem :
    {T : Type 0} (v : Option T) (o : Outcome (List (Option T)))
    → gathered (some (returned v)) (some o) ≡ some (cons_result v o)
cons_lem v (returned vs) = refl
cons_lem v (threw e) = refl

-- `when_all` on a tuple gives the values in order, or the first exception of an awaitable with a value;
-- an exception of an awaitable without a value is lost, and counts as a return.
pub gather_tuple_lem :
    {T : Type 0} (os : List (Bool × Outcome T))
    → gather_tuple (map ended_in_tuple os) ≡ some (tuple_outcome os)
unfolding gather_tuple tuple_outcome
gather_tuple_lem [] = refl
gather_tuple_lem ((true, o) ∷ os) = rw (gather_tuple_lem os) (cons_lem none (tuple_outcome os))
gather_tuple_lem ((false, threw e) ∷ os) = rw (finish_lem (threw e)) refl
gather_tuple_lem ((false, returned v) ∷ os) =
    rw (finish_lem (returned v)) (rw (gather_tuple_lem os) (cons_lem (some v) (tuple_outcome os)))
