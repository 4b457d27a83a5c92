-- ===== src/IoAwaiter/Tests.antt =====
-- Two reads and a delay under way at once over include/io_context.hpp.
use libcoio.Base.{
  length, ◌+◌, ◌<◌, ◌≢◌, ◌↔◌, ◌≡◌, refl, none, some, List, [], ◌∷◌, ◌++◌, pos, negsuc,
}
use libcoio.Outcome.{threw, make_system_error}
use libcoio.IoAwaiter.Operations.{recv, time_delay, to_kernel_timespec}
use libcoio.IoAwaiter.{
  Sqe, Ring, await_suspend, nonpoll_submit, complete, await_resume, Action, suspends, submits,
  completes, act, act_all,
}
use libcoio.IoAwaiter.Room.{round_of, round_of_iff}
use libcoio.IoAwaiter.Delivery.{AllElsewhere, complete-await_suspend}

abbrev idle : Ring
idle = record {
  entries = 4096;
  sq = [];
  in_flight = [];
  awaiters = λ a. record { res = pos 0; flag = 0; continuation = none };
}

abbrev others : List Action
others =
    suspends 2 (time_delay (pos 5)).io_operation 20
    ∷ submits
    ∷ completes (some 2) (negsuc 61) 0
    ∷ completes none (negsuc 61) 0
    ∷ []

started : (r' : Ring) × (await_suspend 1 (recv 3 64).io_operation 10 idle ≡ some r')
unfolding await_suspend
started = (_, refl)

went_on : (r'' : Ring) × (act_all others started.0 ≡ some r'')
unfolding await_suspend started act_all act nonpoll_submit complete to_kernel_timespec
went_on = (_, refl)

apart : AllElsewhere 1 others
unfolding AllElsewhere to_kernel_timespec
apart = (refl, (tt, (refl, (tt, tt))))

complete-await_suspend_example :
    (e : Sqe) × (started.0.sq ≡ idle.sq ++ (e ∷ []))
    × (e.operation ≡ (recv 3 64).io_operation)
    × ((complete e.user_data (negsuc 103) 0 went_on.0).0 ≡ some 10)
    × (await_resume (recv 3 64) 1 (complete e.user_data (negsuc 103) 0 went_on.0).1
        ≡ threw (make_system_error 104))
complete-await_suspend_example =
    complete-await_suspend (recv 3 64) 1 10 idle started.0 went_on.0 others (negsuc 103) 0 started.1
      apart went_on.1

-- A ring of two entries has room for one operation a round.
abbrev small : Ring
small = record idle { entries = 2 }

round_of_iff_example :
    (act_all (round_of ((1, (recv 3 64).io_operation, 10) ∷ [])) small ≢ none)
    ↔ (length small.sq + 1 < small.entries)
round_of_iff_example = round_of_iff ((1, (recv 3 64).io_operation, 10) ∷ []) small
