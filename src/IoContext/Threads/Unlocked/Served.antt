-- ===== src/IoContext/Threads/Unlocked/Served.antt =====
-- What the loop of an include/io_context.hpp context runs, of what other threads push beside it.
use libcoio.Base.{ℕ, ◌≡◌, true, List, [], ◌∷◌, ◌++◌}
use libcoio.IoContext.{Code, Thread, IoContext, is_in_local_thread}
use libcoio.IoContext.Threads.{Stage, coroutines, remote, Running, complete, at_start}
use libcoio.IoContext.Threads.Order.{taken}
use libcoio.IoContext.Threads.Turns.{Turn, completions_of, coroutines_of, tasks_of, events_of}
use libcoio.IoContext.Threads.Unlocked.{Unlocked, Steps}
use libcoio.IoContext.Threads

-- At most one push is under way, and it has read the queue as it is.
abbrev Quiet : List (ℕ × List ℕ) → List ℕ → Type 0
Quiet [] q = Unit
Quiet ((t, seen) ∷ []) q = seen ≡ q
Quiet (x ∷ (y ∷ xs)) q = ⊥

module _ (code : ℕ → Code) (th : Thread) where
  -- The tasks of other threads that wait.
  abbrev waiting : Running → List ℕ
  waiting s = s.context.m_remote_tasks

  module _ (c : IoContext) (l : is_in_local_thread th c ≡ true) where
    -- The state of the loop is one of the steps in which a push is whole.
    abbrev Whole : Unlocked → Type 0
    Whole w =
        Threads.Steps code th (at_start c) w.state × Quiet w.pushing w.state.context.m_remote_tasks

    -- The turns `ts` are what the context has run since `c`, each with what it runs at once, and are, kind by
    -- kind, all that came, up to what is taken or still in its queue.
    pub record Accounts (s : Running) (ts : List Turn) : Type 0 where
      pub executed : s.context.ran ≡ c.ran ++ events_of code ts
      pub completions : s.completed ≡ completions_of ts ++ s.context.cq
      pub coroutines_in_order :
          s.spawned ≡ coroutines_of ts ++ (taken coroutines s.place ++ s.context.m_remote_spawn)
      pub tasks_in_order :
          s.asked ≡ tasks_of ts ++ (taken remote s.place ++ s.context.m_remote_tasks)

    -- The context has run the turns `ts` since `c`, among them all that had come to `s`, in order.
    pub record HasServed (s u : Running) (ts : List Turn) : Type 0 where
      pub executed : u.context.ran ≡ c.ran ++ events_of code ts
      pub completions : completions_of ts ≡ s.completed
      pub coroutines_in_order : coroutines_of ts ≡ s.spawned
      pub tasks_in_order : tasks_of ts ≡ s.asked
