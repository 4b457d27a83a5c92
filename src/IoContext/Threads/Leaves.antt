-- ===== src/IoContext/Threads/Leaves.antt =====
-- What code that the loop of an include/io_context.hpp context runs leaves as it was.
use libcoio.Base.{ℕ, ◌≡◌, refl, ap, Bool, true, Option, none, some, List, ◌∷◌}
use libcoio.IoContext.{Code, task, resume, Thread, IoContext, Cqe, log, is_in_local_thread}
use libcoio.IoContext.Effects.{posted, direct, asks_stop, after, run_now, run_code_lem}
use libcoio.IoContext.Threads.{complete, run_task}

module _ (code : ℕ → Code) (th : Thread) where
  pub run_task_lem :
      (t : ℕ) (c : IoContext)
      → is_in_local_thread th c ≡ true
      → run_task code th t c
        ≡ after (posted (code t)) (task t ∷ direct (code t)) (asks_stop (code t)) c
  unfolding run_task
  run_task_lem t c l = run_now th t (code t) c l

  -- What code run on the thread of the loop leaves: all but the local queue, the flag and the record.
  pub record Leaves (c d : IoContext) : Type 0 where
    pub same_thread : is_in_local_thread th d ≡ is_in_local_thread th c
    pub same_cq : d.cq ≡ c.cq
    pub same_spawn : d.m_remote_spawn ≡ c.m_remote_spawn
    pub same_tasks : d.m_remote_tasks ≡ c.m_remote_tasks

  after-Leaves :
      (ts : List ℕ) (es : List _) (b : Bool) (c d : IoContext) → d ≡ after ts es b c → Leaves c d
  unfolding after
  after-Leaves ts es b c d h = record {
    same_thread = ap (is_in_local_thread th) h;
    same_cq = ap (λ x. x.cq) h;
    same_spawn = ap (λ x. x.m_remote_spawn) h;
    same_tasks = ap (λ x. x.m_remote_tasks) h;
  }

  pub complete-Leaves :
      (e : Cqe) (c : IoContext) (u : Option ℕ)
      → e.user_data ≡ u
      → is_in_local_thread th c ≡ true
      → Leaves c (complete code th e c)
  unfolding complete
  complete-Leaves e c none q l =
      rw q (record { same_thread = refl; same_cq = refl; same_spawn = refl; same_tasks = refl })
  complete-Leaves e c (some k) q l =
      let c' : IoContext = log (resume k e.res e.flags) c in
      let ran = after-Leaves _ _ _ c' _ (run_code_lem th (code k) c' l) in
      rw q (record {
        same_thread = ran.same_thread;
        same_cq = ran.same_cq;
        same_spawn = ran.same_spawn;
        same_tasks = ran.same_tasks;
      })

  pub run_task-Leaves :
      (t : ℕ) (c : IoContext) → is_in_local_thread th c ≡ true → Leaves c (run_task code th t c)
  run_task-Leaves t c l = after-Leaves _ _ _ c _ (run_task_lem t c l)
