-- ===== src/Concepts/Tests.antt =====
-- The awaitables of include/future.hpp and include/just.hpp, and the theorems at one of them.
use libcoio.Base.{◌≡◌, ◌≢◌, ◌↔◌, ◌⊎◌, refl, true, none, some}
use libcoio.Concepts.{
  object, plain, rvalue, void, gives_void, gives_bool, gives_handle, gives_other, Class, itself,
  get_awaiter, await_result_type, awaiter,
}
use libcoio.Concepts.Choice.{co_await_choice, ways, get_awaiter_iff, only, usable, awaiter_iff}

-- `future<T>` for the object type 0, by its member operator on an rvalue.
abbrev future_class : Class
future_class = record {
  own = record { await_ready = none; await_suspend = none; await_resume = none };
  member_co_await = some (record {
    await_ready = some true;
    await_suspend = some gives_bool;
    await_resume = some (rvalue (object 0));
  });
  free_co_await = none;
}

future_result : await_result_type future_class ≡ some (plain (object 0))
unfolding await_result_type mathlib.Core.Option.bind
future_result = refl

get_awaiter_iff_example :
    (get_awaiter future_class ≡ co_await_choice future_class)
    ↔ ((ways future_class ≡ 1) ⊎ (ways future_class ≡ 3))
get_awaiter_iff_example = get_awaiter_iff future_class refl

awaiter_iff_example :
    ((awaiter (only gives_handle void).own ≡ usable (only gives_handle void).own)
      ↔ ((gives_handle ≡ gives_void) ⊎ (gives_handle ≡ gives_bool)))
    × ((get_awaiter (only gives_handle void) ≡ itself) ↔ (gives_handle ≢ gives_handle))
    × ((usable (only gives_handle void).own ≡ true) ↔ (gives_handle ≢ gives_other))
awaiter_iff_example = awaiter_iff gives_handle void
