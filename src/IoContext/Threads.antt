-- ===== src/IoContext/Threads.antt =====
-- include/io_context.hpp in single steps: the thread of the loop and other threads in any interleaving.
-- Each step of the loop looks at one queue, takes it, or runs one task; other threads and the kernel come
-- in between any two.
pub mod Order
pub mod Serving
pub mod Stages
pub mod Leaves
pub mod Alone
pub mod Completions
pub mod Round
pub mod Served
pub mod Turns
pub mod Unlocked
mod Tests
use libcoio.Base.{
  ℕ, zero, suc, ◌+◌, Bool, true, false, none, some, List, [], ◌∷◌, ◌++◌, if◌then◌else◌, length,
}
use libcoio.IoContext.{
  Code, task, resume, Thread, IoContext, Cqe, Arrival, completion, remote_task, remote_spawn,
  remote_stop, arrive, log, run_code,
}

-- `resolve_remote_coroutine`, `resolve_remote_task` and `resolve_local_task`.
pub data Stage : Type 0 where
  coroutines : Stage
  remote : Stage
  local : Stage

-- Where the thread of the loop is; `running` has what is left of the queue that was taken.
pub data Place : Type 0 where
  testing : Place
  completing : Place
  checking : Stage → Place
  swapping : Stage → Place
  running : Stage → List ℕ → Place
  submitting : Place
  ended : Place

-- What came from outside in all, and what of it has been run: `completed` and `resumed` are completions,
-- `spawned` and `started` coroutines, `asked` and `done` tasks of other threads. The source has no history.
pub record Running : Type 0 where
  pub place : Place
  pub cnt : ℕ
  pub context : IoContext
  pub completed : List Cqe
  pub resumed : List Cqe
  pub spawned : List ℕ
  pub started : List ℕ
  pub asked : List ℕ
  pub done : List ℕ

abbrev pub queue : Stage → IoContext → List ℕ
queue coroutines c = c.m_remote_spawn
queue remote c = c.m_remote_tasks
queue local c = c.m_local_tasks

abbrev pub clear : Stage → IoContext → IoContext
clear coroutines c = record c { m_remote_spawn = [] }
clear remote c = record c { m_remote_tasks = [] }
clear local c = record c { m_local_tasks = [] }

-- `run_once` calls the three in this order.
abbrev pub next_place : Stage → Place
next_place coroutines = checking remote
next_place remote = checking local
next_place local = submitting

-- Notes that `ts` have been run.
abbrev pub note : Stage → List ℕ → Running → Running
note coroutines ts s = record s { started = s.started ++ ts }
note remote ts s = record s { done = s.done ++ ts }
note local ts s = s

-- The test of the `while`, and `cnt += io_uring_cq_ready`.
abbrev pub test : Bool → Running → Running
test true s = record s { place = ended }
test false s = record s { place = completing; cnt = length s.context.cq }

-- The test whether the queue of a stage is empty.
abbrev pub check : Stage → List ℕ → Running → Running
check st [] s = record s { place = next_place st }
check st (t ∷ ts) s = record s { place = swapping st }

module _ (code : ℕ → Code) (th : Thread) where
  -- The callable of `for_each_cqe`, on one completion.
  pub complete : Cqe → IoContext → IoContext
  unfolding run_code
  complete e c = elim e.user_data [
    | none ↦ c
    | some k ↦ run_code th (code k) (log (resume k e.res e.flags) c)
  ]

  pub run_task : ℕ → IoContext → IoContext
  unfolding run_code
  run_task t c = run_code th (code t) (log (task t) c)

  -- One turn of `io_uring_for_each_cqe`.
  pub next_cqe : List Cqe → Running → Running
  unfolding complete
  next_cqe [] s = record s { place = checking coroutines }
  next_cqe (e ∷ es) s = record s {
    place = completing;
    context = complete e (record s.context { cq = es });
    resumed = s.resumed ++ (e ∷ []);
  }

  -- One step of the thread of the loop. What `nonpoll_submit` waits for comes after 1 ms at the latest.
  pub advance_at : Place → Running → Running
  unfolding next_cqe run_task
  advance_at testing s = test s.context.m_is_stopped s
  advance_at completing s = next_cqe s.context.cq s
  advance_at (checking st) s = check st (queue st s.context) s
  advance_at (swapping st) s = record s {
    place = running st (queue st s.context);
    cnt = s.cnt + length (queue st s.context);
    context = clear st s.context;
  }
  advance_at (running st []) s = record s { place = next_place st }
  advance_at (running st (t ∷ ts)) s =
      note st (t ∷ []) (record s { place = running st ts; context = run_task t s.context })
  advance_at submitting s = record s { place = testing }
  advance_at ended s = record s { place = ended }

  -- One step of the loop, wherever it stands.
  pub advance : Running → Running
  unfolding advance_at
  advance s = advance_at s.place s

-- What comes from outside, with its history. Completions and `co_spawn` come so; a task that is pushed
-- without the mutex does where nothing overlaps with its push.
pub arrives : Arrival → Running → Running
arrives (completion e) s = record s {
  context = arrive (completion e) s.context;
  completed = s.completed ++ (e ∷ []);
}
arrives (remote_task t) s = record s {
  context = arrive (remote_task t) s.context;
  asked = s.asked ++ (t ∷ []);
}
arrives (remote_spawn t) s = record s {
  context = arrive (remote_spawn t) s.context;
  spawned = s.spawned ++ (t ∷ []);
}
arrives remote_stop s = record s { context = arrive remote_stop s.context }

-- A push of another thread is one step here; Unlocked has it in its parts.
pub data Step (code : ℕ → Code) (th : Thread) : Running → Running → Type 0 where
  steps : (s : Running) → Step code th s (advance code th s)
  comes : (a : Arrival) (s : Running) → Step code th s (arrives a s)

pub data Steps (code : ℕ → Code) (th : Thread) (s : Running) : Running → Type 0 where
  none_yet : Steps code th s s
  then_one : {t u : Running} → Steps code th s t → Step code th t u → Steps code th s u

-- `loop` after `assert_bind`.
abbrev pub at_start : IoContext → Running
at_start c = record {
  place = testing;
  cnt = 0;
  context = record c { m_is_stopped = false };
  completed = c.cq;
  resumed = [];
  spawned = c.m_remote_spawn;
  started = [];
  asked = c.m_remote_tasks;
  done = [];
}
