-- ===== src/Awaitable/Tests.antt =====
-- An awaitable that suspends once and then gives five, and the theorems of include/fmap.hpp,
-- include/flat_map.hpp and include/sync_wait.hpp at it.
use libcoio.Base.{
  ◌⊎◌, ◌≤◌, arith, put, ◌≢◌, none, some, ℕ, ◌+◌, ◌/◌, ◌%◌, ◌≡◌, refl, true, false, ◌==◌,
  if◌then◌else◌,
}
use libcoio.Outcome.{Outcome, returned, threw, logic_error}
use libcoio.Awaitable.{Awaiter, co_await, just, fmap, flat_map, invoke, and_then}
use libcoio.Awaitable.Laws.{flat_map_lem}
use libcoio.Awaitable.SyncWait.{
  SyncWait, released, notifying, ended, loading, running, made, Step, starts, loads, finishes,
  Steps, none_yet, then_one, IsOver, Steps-IsOver,
}
use libcoio.Awaitable.Pipes.{
  Objects, transform_of_temporary, transform_of, fmap_pipe, fmap_pipe_lvalue, flat_map_pipe,
  await_fmap, await_flat_map, pipes_lem,
}

-- Four in memory; the completion adds one.
abbrev five : Awaiter ℕ
five = record {
  Memory = ℕ;
  memory = 4;
  await_ready = λ s. false;
  await_suspend = λ s. (true, s);
  completed = λ s. s + 1;
  await_resume = λ s. returned s;
}

abbrev half : ℕ → Outcome ℕ
half n = if n % 2 == 0 then returned (n / 2) else threw logic_error

abbrev plus_five : ℕ → Awaiter ℕ
plus_five n = fmap five (λ m. returned (n + m))

fmap_throws : co_await (fmap five half) ≡ (true, threw logic_error)
unfolding co_await
fmap_throws = refl

flat_map_lem_example :
    (co_await (flat_map (just 3) plus_five) ≡ co_await (plus_five 3))
    × (co_await (flat_map five just) ≡ co_await five)
    × (co_await (flat_map (flat_map five plus_five) plus_five)
        ≡ co_await (flat_map five (λ w. flat_map (plus_five w) plus_five)))
flat_map_lem_example = flat_map_lem five 3 plus_five plus_five

-- `half` and `plus_five` lie at 2.
abbrev halves : Objects (ℕ → Outcome ℕ)
halves a = if a == 2 then some half else none

abbrev adders : Objects (ℕ → Awaiter ℕ)
adders a = if a == 2 then some plus_five else none

apart : ◌≢◌ {A = ℕ} 2 7
apart e = absurd (omega (arith, e))

pipes_lem_example :
    (await_fmap (put halves 7 none) five (fmap_pipe (transform_of_temporary half))
      ≡ some ((co_await five).0, invoke half (co_await five).1))
    × (await_flat_map
          (put adders 7 (some plus_five))
          five
          (flat_map_pipe 7 (transform_of_temporary plus_five))
        ≡ some (and_then plus_five (co_await five)))
    × (await_flat_map (put adders 7 none) five (flat_map_pipe 7 (transform_of_temporary plus_five))
        ≡ none)
    × (await_flat_map (put adders 7 none) five (flat_map_pipe 7 (transform_of 2))
        ≡ some (and_then plus_five (co_await five)))
    × (await_fmap (put halves 7 none) five (fmap_pipe_lvalue 7 (transform_of_temporary half))
        ≡ none)
pipes_lem_example = pipes_lem five half plus_five 7 2 halves adders apart refl

abbrev set_up : SyncWait
set_up = record { flag = false; waiter = loading; task = running }

abbrev set : SyncWait
set = record { flag = true; waiter = loading; task = notifying }

-- The waiter has returned, its flag is gone, and it is still to be notified.
abbrev gone : SyncWait
gone = record { flag = true; waiter = released; task = notifying }

to_gone : Steps made 3 gone
to_gone =
    then_one {t = set}
      (then_one {t = set_up} (then_one {t = made} none_yet (starts made refl))
        (finishes set_up refl))
      (loads set refl)

Steps-IsOver_example :
    (gone.waiter ≡ released → (gone.flag ≡ true) × ((gone.task ≡ notifying) ⊎ (gone.task ≡ ended)))
    × (((u : SyncWait) × Step gone u) ⊎ IsOver gone)
    × (3 ≤ 7)
Steps-IsOver_example = Steps-IsOver 3 gone to_gone
