-- ===== src/IoContext/Tests.antt =====
-- A context of include/io_context.hpp with a few tasks, and the theorems at it.
use libcoio.Base.{ℕ, ◌≡◌, refl, true, false, none, some, [], ◌∷◌, ◌==◌, if◌then◌else◌, pos}
use libcoio.Outcome.{Outcome, returned}
use libcoio.IoContext.{
  Code, leave, posts, dispatches, stops, task, resume, Thread, IoContext, remote_task, request_stop,
  run_code, run_all, for_each_cqe, resolve_remote_coroutine, resolve_remote_task,
  resolve_local_task, run_once, arrive_all, loop,
}
use libcoio.IoContext.Rounds.{round, run_once_lem}
use libcoio.IoContext.Fifo.{serve, quiet_rounds, quiet_rounds-serve}
use libcoio.IoContext.Loop.{loop_stop}

-- 1 posts 2 and dispatches 3; 4 stops the loop; 5 posts itself.
abbrev code : ℕ → Code
code n =
    if n == 1
    then posts 2 (dispatches 3 (posts 5 leave) leave)
    else if n == 4
    then stops leave
    else if n == 5
    then posts 5 leave
    else leave

abbrev here : Thread
here = record { id = 9; this_thread_context = some 100 }

abbrev context : IoContext
context = record {
  self = 100;
  cq =
      record { user_data = some 1; res = pos 8; flags = 0 }
      ∷ record { user_data = none; res = pos 0; flags = 0 }
      ∷ [];
  m_remote_tasks = 4 ∷ [];
  m_remote_spawn = 6 ∷ [];
  m_local_tasks = 7 ∷ [];
  m_is_stopped = false;
  m_thid = some 9;
  ran = [];
}

abbrev quiet : IoContext
quiet = record context {
  cq = [];
  m_remote_tasks = [];
  m_remote_spawn = [];
  m_local_tasks = 1 ∷ 5 ∷ [];
}

-- What the local stage runs includes 2 and 5, which the continuation 1 has posted.
one_round :
    (run_once code here context).1.ran
    ≡ resume 1 (pos 8) 0 ∷ task 3 ∷ task 6 ∷ task 4 ∷ task 7 ∷ task 2 ∷ task 5 ∷ []
unfolding run_once for_each_cqe resolve_remote_coroutine resolve_remote_task resolve_local_task
    run_all run_code
one_round = refl

run_once_lem_example : run_once code here context ≡ round code context
run_once_lem_example = run_once_lem code here context refl

quiet_rounds-serve_example :
    ((quiet_rounds code here 3 quiet).1.m_local_tasks, (quiet_rounds code here 3 quiet).1.ran)
    ≡ serve code (quiet_rounds code here 3 quiet).0 (1 ∷ 5 ∷ []) []
quiet_rounds-serve_example =
    quiet_rounds-serve code here 3 quiet
      (record { bound = refl; no_completion = refl; no_spawn = refl; no_remote = refl })

stopped : (run_once code here context).1.m_is_stopped ≡ true
unfolding run_once for_each_cqe resolve_remote_coroutine resolve_remote_task resolve_local_task
    run_all run_code
stopped = refl

loop_stop_example :
    loop code here ((remote_task 2 ∷ []) ∷ [] ∷ []) (request_stop context)
    ≡ (returned tt, arrive_all (remote_task 2 ∷ []) (run_once code here context).1)
loop_stop_example = loop_stop code here (remote_task 2 ∷ []) ([] ∷ []) context (refl, refl) stopped

-- A scope in which another context is bound.
abbrev inner : IoContext
inner = record context { self = 200 }

abbrev nothing_more : Thread × IoContext → Outcome {0} Unit × (Thread × IoContext)
nothing_more s = (returned tt, s)
