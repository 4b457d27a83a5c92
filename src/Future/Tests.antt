-- ===== src/Future/Tests.antt =====
-- A future of include/future.hpp whose body ends on another thread after the one who waits has been
-- suspended, and the theorems at it.
use libcoio.Base.{ℕ, ◌+◌, ◌≤◌, ◌≡◌, refl, ◌⊎◌, some}
use libcoio.Outcome.{returned}
use libcoio.Future.{
  fresh, result, storing, exchanging, going_on, finishing, ended, State, started, Step,
  body_returns, final_exchange, final_resume, resume_returns, stores, exchanges, Steps, stay, more,
  after_suspend, after_final, wake, return_value, store_continuation, set_state, exchange,
}
use libcoio.Future.Race.{HandsOver, Steps-HandsOver}
use libcoio.Future.Progress.{count, Steps-progress}

abbrev s0 : State ℕ
s0 = started ℕ

abbrev s1 : State ℕ
s1 = record s0 { awaiter = storing }

abbrev s2 : State ℕ
s2 = record s1 { promise = store_continuation 7 s1.promise; awaiter = exchanging }

abbrev s3 : State ℕ
s3 = record s2 {
  promise = (set_state s2.promise).1;
  awaiter = after_suspend (set_state s2.promise).0;
}

abbrev s4 : State ℕ
s4 = record s3 { promise = return_value 42 s3.promise; body = finishing }

abbrev s5 : State ℕ
s5 = record s4 { promise = (exchange s4.promise).1; body = after_final (exchange s4.promise).0 }

abbrev s6 : State ℕ
s6 = record s5 { awaiter = wake s5.awaiter; body = ended; resumed = s5.resumed + 1 }

run_to_end : Steps 7 s0 s6
unfolding fresh
run_to_end =
    more s0 s5 s6
      (more s0 s4 s5
        (more s0 s3 s4
          (more s0 s2 s3
            (more s0 s1 s2 (more s0 s0 s1 (stay s0) (resume_returns s0 refl)) (stores s1 refl))
            (exchanges s2 refl))
          (body_returns s3 42 refl))
        (final_exchange s4 refl))
      (final_resume s5 7 refl refl)

gives_42 : result s6.promise ≡ some (returned 42)
unfolding result fresh
gives_42 = refl

Steps-HandsOver_example : HandsOver 7 s6
Steps-HandsOver_example = Steps-HandsOver 7 s6 run_to_end

Steps-progress_example :
    (count run_to_end ≤ 6) × ((s6.awaiter ≡ going_on) ⊎ ((t : State ℕ) × Step 7 s6 t))
Steps-progress_example = Steps-progress 7 s6 run_to_end
