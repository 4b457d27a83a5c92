-- ===== src/IoContext/Threads/Serving.antt =====
-- What the interleaved steps of an include/io_context.hpp context run: all that came, once and in order.
use libcoio.Base.{
  ℕ, ◌≡◌, refl, sym, ap, ◌∙◌, Bool, true, false, List, [], ◌∷◌, ◌++◌, append-nil, append_assoc,
  length,
}
use libcoio.IoContext.{Code, Thread, IoContext, Cqe, is_in_local_thread}
use libcoio.IoContext.Threads.Leaves.{complete-Leaves, run_task-Leaves}
use libcoio.IoContext.Threads.{
  Stage, coroutines, remote, local, Place, testing, completing, checking, swapping, running,
  submitting, ended, Running, queue, test, check, next_cqe, complete, run_task, advance_at, advance,
  arrives, Step, steps, comes, Steps, none_yet, then_one, at_start,
}
use libcoio.IoContext.Threads.Order.{IsServed, stands_at, runs, Served, arrives-IsServed}

module _ (code : ℕ → Code) (th : Thread) where
  test-Served : (b : Bool) (s : Running) → IsServed th testing s → Served code th (test b s)
  test-Served true s h = stands_at code th testing ended s s.cnt refl refl h
  test-Served false s h = stands_at code th testing completing s (length s.context.cq) refl refl h

  next_cqe-Served :
      (q : List Cqe) (s : Running)
      → s.context.cq ≡ q
      → IsServed th completing s
      → Served code th (next_cqe code th q s)
  unfolding next_cqe
  next_cqe-Served [] s e h = stands_at code th completing (checking coroutines) s s.cnt refl refl h
  next_cqe-Served (x ∷ es) s e h =
      runs code th completing
        (record s {
          place = completing;
          context = record s.context { cq = es };
          resumed = s.resumed ++ (x ∷ []);
        })
        (complete code th x (record s.context { cq = es }))
        (complete-Leaves code th x (record s.context { cq = es }) x.user_data refl h.here)
        (record {
          here = h.here;
          completions =
              h.completions ∙ ap (λ c. s.resumed ++ c) e ∙ sym (append_assoc s.resumed (x ∷ []) es);
          coroutines_in_order = h.coroutines_in_order;
          tasks_in_order = h.tasks_in_order;
        })

  check-Served :
      (st : Stage) (q : List ℕ) (s : Running)
      → IsServed th (checking st) s
      → Served code th (check st q s)
  check-Served coroutines [] s h =
      stands_at code th (checking coroutines) (checking remote) s s.cnt refl refl h
  check-Served remote [] s h =
      stands_at code th (checking remote) (checking local) s s.cnt refl refl h
  check-Served local [] s h = stands_at code th (checking local) submitting s s.cnt refl refl h
  check-Served coroutines (t ∷ ts) s h =
      stands_at code th (checking coroutines) (swapping coroutines) s s.cnt refl refl h
  check-Served remote (t ∷ ts) s h =
      stands_at code th (checking remote) (swapping remote) s s.cnt refl refl h
  check-Served local (t ∷ ts) s h =
      stands_at code th (checking local) (swapping local) s s.cnt refl refl h

  advance_at-Served :
      (p : Place) (s : Running) → IsServed th p s → Served code th (advance_at code th p s)
  unfolding advance_at
  advance_at-Served testing s h = test-Served s.context.m_is_stopped s h
  advance_at-Served completing s h = next_cqe-Served s.context.cq s refl h
  advance_at-Served (checking st) s h = check-Served st (queue st s.context) s h
  advance_at-Served (swapping coroutines) s h = record {
    here = h.here;
    completions = h.completions;
    coroutines_in_order =
        h.coroutines_in_order
        ∙ ap (λ x. s.started ++ x) (sym (append-nil s.context.m_remote_spawn));
    tasks_in_order = h.tasks_in_order;
  }
  advance_at-Served (swapping remote) s h = record {
    here = h.here;
    completions = h.completions;
    coroutines_in_order = h.coroutines_in_order;
    tasks_in_order =
        h.tasks_in_order ∙ ap (λ x. s.done ++ x) (sym (append-nil s.context.m_remote_tasks));
  }
  advance_at-Served (swapping local) s h = record {
    here = h.here;
    completions = h.completions;
    coroutines_in_order = h.coroutines_in_order;
    tasks_in_order = h.tasks_in_order;
  }
  advance_at-Served (running coroutines []) s h =
      stands_at code th (running coroutines []) (checking remote) s s.cnt refl refl h
  advance_at-Served (running remote []) s h =
      stands_at code th (running remote []) (checking local) s s.cnt refl refl h
  advance_at-Served (running local []) s h =
      stands_at code th (running local []) submitting s s.cnt refl refl h
  advance_at-Served (running coroutines (t ∷ ts)) s h =
      runs code th (running coroutines ts)
        (record s { place = running coroutines ts; started = s.started ++ (t ∷ []) })
        (run_task code th t s.context) (run_task-Leaves code th t s.context h.here)
        (record {
          here = h.here;
          completions = h.completions;
          coroutines_in_order =
              h.coroutines_in_order
              ∙ sym (append_assoc s.started (t ∷ []) (ts ++ s.context.m_remote_spawn));
          tasks_in_order = h.tasks_in_order;
        })
  advance_at-Served (running remote (t ∷ ts)) s h =
      runs code th (running remote ts)
        (record s { place = running remote ts; done = s.done ++ (t ∷ []) })
        (run_task code th t s.context) (run_task-Leaves code th t s.context h.here)
        (record {
          here = h.here;
          completions = h.completions;
          coroutines_in_order = h.coroutines_in_order;
          tasks_in_order =
              h.tasks_in_order
              ∙ sym (append_assoc s.done (t ∷ []) (ts ++ s.context.m_remote_tasks));
        })
  advance_at-Served (running local (t ∷ ts)) s h =
      runs code th (running local ts) (record s { place = running local ts })
        (run_task code th t s.context) (run_task-Leaves code th t s.context h.here)
        (record {
          here = h.here;
          completions = h.completions;
          coroutines_in_order = h.coroutines_in_order;
          tasks_in_order = h.tasks_in_order;
        })
  advance_at-Served submitting s h = stands_at code th submitting testing s s.cnt refl refl h
  advance_at-Served ended s h = stands_at code th ended ended s s.cnt refl refl h

  pub Step-IsServed : {s t : Running} → Step code th s t → Served code th s → Served code th t
  unfolding advance arrives
  Step-IsServed (steps s) h = advance_at-Served s.place s h
  Step-IsServed (comes a s) h = arrives-IsServed code th a s h

  -- By the histories, where a push is whole: what came is what was run, what is taken and what is in the queue.
  pub Steps-IsServed :
      (c : IoContext) (s : Running)
      → is_in_local_thread th c ≡ true
      → Steps code th (at_start c) s
      → IsServed th s.place s
  Steps-IsServed c s l none_yet = record {
    here = l;
    completions = refl;
    coroutines_in_order = refl;
    tasks_in_order = refl;
  }
  Steps-IsServed c s l (then_one {t} xs x) = Step-IsServed x (Steps-IsServed c t l xs)
