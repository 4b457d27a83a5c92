-- ===== src/IoContext/Calls.antt =====
-- The calls of include/io_context.hpp that put work into a context, from its own thread and from others.
use libcoio.Base.{ℕ, ◌≡◌, refl, true, false, [], ◌∷◌, ◌++◌}
use libcoio.IoContext.{
  Code, task, Thread, IoContext, is_in_local_thread, post, schedule, run_code, dispatch, co_spawn,
}
use libcoio.IoContext.Effects.{posted, direct, asks_stop, after, run_now}

-- From another thread nothing runs: the work goes to the end of a queue of the context, and `schedule`
-- keeps its caller suspended. On the context's own thread `dispatch` and `co_spawn` run the work before
-- they return, `schedule` does not suspend, and `post` leaves the work for the local queue.
pub calls_lem :
    (th : Thread) (t : ℕ) (d : Code) (c : IoContext)
    → (is_in_local_thread th c ≡ false
        → (post th t c ≡ record c { m_remote_tasks = c.m_remote_tasks ++ (t ∷ []) })
          × (dispatch th t d c ≡ record c { m_remote_tasks = c.m_remote_tasks ++ (t ∷ []) })
          × (co_spawn th t d c ≡ record c { m_remote_spawn = c.m_remote_spawn ++ (t ∷ []) })
          × (schedule th t c ≡ (true, record c { m_remote_tasks = c.m_remote_tasks ++ (t ∷ []) })))
      × (is_in_local_thread th c ≡ true
          → (post th t c ≡ record c { m_local_tasks = c.m_local_tasks ++ (t ∷ []) })
            × (dispatch th t d c ≡ after (posted d) (task t ∷ direct d) (asks_stop d) c)
            × (co_spawn th t d c ≡ after (posted d) (task t ∷ direct d) (asks_stop d) c)
            × (schedule th t c ≡ (false, c)))
unfolding run_code
calls_lem th t d c = (
  (λ away. (rw away refl, rw away refl, rw away refl, rw away refl)),
  (λ here. (
    rw here refl,
    rw here (run_now th t d c here),
    rw here (run_now th t d c here),
    rw here refl,
  )),
)
