-- ===== src/IoContext/Threads/Order.antt =====
-- The order of what the loop of an include/io_context.hpp context has run, taken and left in its queues.
use libcoio.Base.{ℕ, ◌≡◌, sym, ap, ◌∙◌, true, List, [], ◌∷◌, ◌++◌, append_assoc}
use libcoio.IoContext.{
  Code, Thread, IoContext, Arrival, completion, remote_task, remote_spawn, remote_stop,
  is_in_local_thread,
}
use libcoio.IoContext.Threads.Leaves.{Leaves}
use libcoio.IoContext.Threads.{Stage, coroutines, remote, Place, running, Running, arrives}

-- What has been taken from the queue of a stage and is not yet run.
abbrev pub taken : Stage → Place → List ℕ
taken coroutines (running coroutines ts) = ts
taken remote (running remote ts) = ts
taken st p = []

-- All that came is run, taken or still in its queue, in this order, when the loop stands at `p`.
pub record IsServed (th : Thread) (p : Place) (s : Running) : Type 0 where
  pub here : is_in_local_thread th s.context ≡ true
  pub completions : s.completed ≡ s.resumed ++ s.context.cq
  pub coroutines_in_order :
      s.spawned ≡ s.started ++ (taken coroutines p ++ s.context.m_remote_spawn)
  pub tasks_in_order : s.asked ≡ s.done ++ (taken remote p ++ s.context.m_remote_tasks)

-- A longer queue, after what was taken from it before.
longer {ℓ} :
    {A : Type ℓ} (came run held q : List A) (x : A)
    → came ≡ run ++ (held ++ q)
    → came ++ (x ∷ []) ≡ run ++ (held ++ (q ++ (x ∷ [])))
longer came run held q x h =
    ap (λ l. l ++ (x ∷ [])) h
    ∙ append_assoc run (held ++ q) (x ∷ [])
    ∙ ap (λ l. run ++ l) (append_assoc held q (x ∷ []))

module _ (code : ℕ → Code) (th : Thread) where
  -- The loop goes on to a place that has as much taken.
  pub stands_at :
      (p q : Place) (s : Running) (n : ℕ)
      → taken coroutines q ≡ taken coroutines p
      → taken remote q ≡ taken remote p
      → IsServed th p s
      → IsServed th q (record s { place = q; cnt = n })
  stands_at p q s n a b h = record {
    here = h.here;
    completions = h.completions;
    coroutines_in_order =
        h.coroutines_in_order ∙ ap (λ x. s.started ++ (x ++ s.context.m_remote_spawn)) (sym a);
    tasks_in_order = h.tasks_in_order ∙ ap (λ x. s.done ++ (x ++ s.context.m_remote_tasks)) (sym b);
  }

  -- The same with a context whose queues are left as they were.
  pub runs :
      (p : Place) (s : Running) (d : IoContext)
      → Leaves code th s.context d
      → IsServed th p s
      → IsServed th p (record s { context = d })
  runs p s d l h = record {
    here = l.same_thread ∙ h.here;
    completions = h.completions ∙ ap (λ x. s.resumed ++ x) (sym l.same_cq);
    coroutines_in_order =
        h.coroutines_in_order ∙ ap (λ x. s.started ++ (taken coroutines p ++ x)) (sym l.same_spawn);
    tasks_in_order =
        h.tasks_in_order ∙ ap (λ x. s.done ++ (taken remote p ++ x)) (sym l.same_tasks);
  }

  abbrev pub Served : Running → Type 0
  Served s = IsServed th s.place s

  pub arrives-IsServed : (a : Arrival) (s : Running) → Served s → Served (arrives a s)
  unfolding arrives
  arrives-IsServed (completion e) s h = record {
    here = h.here;
    completions = longer s.completed s.resumed [] s.context.cq e h.completions;
    coroutines_in_order = h.coroutines_in_order;
    tasks_in_order = h.tasks_in_order;
  }
  arrives-IsServed (remote_task t) s h = record {
    here = h.here;
    completions = h.completions;
    coroutines_in_order = h.coroutines_in_order;
    tasks_in_order =
        longer s.asked s.done (taken remote s.place) s.context.m_remote_tasks t h.tasks_in_order;
  }
  arrives-IsServed (remote_spawn t) s h = record {
    here = h.here;
    completions = h.completions;
    coroutines_in_order =
        longer s.spawned s.started (taken coroutines s.place) s.context.m_remote_spawn t
          h.coroutines_in_order;
    tasks_in_order = h.tasks_in_order;
  }
  arrives-IsServed remote_stop s h = record {
    here = h.here;
    completions = h.completions;
    coroutines_in_order = h.coroutines_in_order;
    tasks_in_order = h.tasks_in_order;
  }
