-- ===== src/IoContext/Threads/Tests.antt =====
-- A context of include/io_context.hpp in steps, and the theorems at it.
use libcoio.Base.{none, ℕ, ◌≡◌, refl, false, some, [], ◌∷◌, ◌==◌, if◌then◌else◌, pos}
use libcoio.IoContext.{Code, leave, posts, stops, Thread, IoContext, remote_spawn, run_once}
use libcoio.IoContext.Rounds.{round}
use libcoio.IoContext.Threads.{submitting, Running, arrives, at_start}
use libcoio.IoContext.Threads.Alone.{Reaches}
use libcoio.IoContext.Threads.Round.{steps-run_once}
use libcoio.IoContext.Threads.Unlocked.{Unlocked, pushed, begin_push, goes_on, at_loop}

-- 1 posts 2; 3 asks to stop.
abbrev code : ℕ → Code
code n = if n == 1 then posts 2 leave else if n == 3 then stops leave else leave

abbrev here : Thread
here = record { id = 9; this_thread_context = some 100 }

abbrev context : IoContext
context = record {
  self = 100;
  cq = record { user_data = some 1; res = pos 8; flags = 0 } ∷ [];
  m_remote_tasks = 4 ∷ [];
  m_remote_spawn = [];
  m_local_tasks = 7 ∷ [];
  m_is_stopped = false;
  m_thid = some 9;
  ran = [];
}

steps-run_once_example :
    (u : Running) × Reaches code here (at_start context) u
    × (u.place ≡ submitting)
    × ((u.cnt, u.context) ≡ run_once code here context)
    × ((u.cnt, u.context) ≡ round code context)
steps-run_once_example = steps-run_once code here (at_start context) refl refl refl

-- The completion has been resumed; 5 is pushed while the loop looks at the coroutines, and a `co_spawn` comes
-- after that. Then the loop finds the tasks of other threads.
abbrev w3 : Unlocked
w3 = goes_on code here (goes_on code here (goes_on code here (at_loop context)))

abbrev w4 : Unlocked
w4 = goes_on code here (begin_push 5 w3)

abbrev w5 : Unlocked
w5 = record w4 { state = pushed 5 (4 ∷ []) w4.state; pushing = [] }

abbrev w6 : Unlocked
w6 = record w5 { state = arrives (remote_spawn 6) w5.state; spawning = none }

later_state : Unlocked
later_state = goes_on code here w6
