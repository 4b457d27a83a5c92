-- ===== src/IoContext/Rounds.antt =====
-- One round of the loop of include/io_context.hpp: what it runs, and in which order.
use libcoio.Base.{
  ℕ, ◌+◌, ◌≡◌, refl, sym, ap, ◌∙◌, Bool, true, false, ◌||◌, List, [], ◌∷◌, ◌++◌, append_assoc,
  length,
}
use libcoio.IoContext.{
  Code, Thread, IoContext, is_in_local_thread, resolve_remote_coroutine, resolve_remote_task,
  resolve_local_task, run_once,
}
use libcoio.IoContext.Effects.{
  posted_all, events, any_stop, cq_posted, cq_events, cq_stop, after, after-nil, run_all_lem,
  for_each_cqe_lem,
}

append_four {ℓ} :
    {A : Type ℓ} → (r a b d e : List A) → r ++ a ++ b ++ d ++ e ≡ r ++ (a ++ (b ++ (d ++ e)))
append_four r a b d e =
    append_assoc (r ++ a ++ b) d e
    ∙ append_assoc (r ++ a) b (d ++ e)
    ∙ append_assoc r a (b ++ (d ++ e))

or_four : (r a b d e : Bool) → ((((r || a) || b) || d) || e) ≡ (r || (a || (b || (d || e))))
or_four true a b d e = refl
or_four false true b d e = refl
or_four false false true d e = refl
or_four false false false d e = refl

module _ (code : ℕ → Code) where
  pub spawn_stage :
      (th : Thread) (c : IoContext) (ts : List ℕ)
      → c.m_remote_spawn ≡ ts
      → is_in_local_thread th c ≡ true
      → resolve_remote_coroutine code th c ≡ (
        length ts,
        after
            (posted_all code ts)
            (events code ts)
            (any_stop code ts)
            (record c { m_remote_spawn = [] }),
      )
  unfolding resolve_remote_coroutine posted_all events any_stop
  spawn_stage th c [] e l =
      rw e (ap (λ x. (0, x)) (sym (after-nil (record c { m_remote_spawn = [] }))))
  spawn_stage th c (t ∷ ts) e l = rw e (
      ap (λ x. (length (t ∷ ts), x))
        (run_all_lem code th (t ∷ ts) (record c { m_remote_spawn = [] }) l))

  pub remote_stage :
      (th : Thread) (c : IoContext) (ts : List ℕ)
      → c.m_remote_tasks ≡ ts
      → is_in_local_thread th c ≡ true
      → resolve_remote_task code th c ≡ (
        length ts,
        after
            (posted_all code ts)
            (events code ts)
            (any_stop code ts)
            (record c { m_remote_tasks = [] }),
      )
  unfolding resolve_remote_task posted_all events any_stop
  remote_stage th c [] e l =
      rw e (ap (λ x. (0, x)) (sym (after-nil (record c { m_remote_tasks = [] }))))
  remote_stage th c (t ∷ ts) e l = rw e (
      ap (λ x. (length (t ∷ ts), x))
        (run_all_lem code th (t ∷ ts) (record c { m_remote_tasks = [] }) l))

  pub local_stage :
      (th : Thread) (c : IoContext) (ts : List ℕ)
      → c.m_local_tasks ≡ ts
      → is_in_local_thread th c ≡ true
      → resolve_local_task code th c ≡ (
        length ts,
        after
            (posted_all code ts)
            (events code ts)
            (any_stop code ts)
            (record c { m_local_tasks = [] }),
      )
  unfolding resolve_local_task posted_all events any_stop
  local_stage th c [] e l =
      rw e (ap (λ x. (0, x)) (sym (after-nil (record c { m_local_tasks = [] }))))
  local_stage th c (t ∷ ts) e l = rw e (
      ap (λ x. (length (t ∷ ts), x))
        (run_all_lem code th (t ∷ ts) (record c { m_local_tasks = [] }) l))

  -- The tasks that the local stage of a round runs: those that waited, then those that the earlier
  -- stages of the same round have posted.
  abbrev pub local_batch : IoContext → List ℕ
  local_batch c =
      c.m_local_tasks
      ++ (cq_posted code c.cq
          ++ (posted_all code c.m_remote_spawn ++ posted_all code c.m_remote_tasks))

  -- What a round comes to.
  abbrev pub round : IoContext → ℕ × IoContext
  round c = (
    length c.cq + length c.m_remote_spawn + length c.m_remote_tasks + length (local_batch c),
    record c {
      cq = [];
      m_remote_tasks = [];
      m_remote_spawn = [];
      m_local_tasks = posted_all code (local_batch c);
      m_is_stopped =
          c.m_is_stopped
          || (cq_stop code c.cq
              || (any_stop code c.m_remote_spawn
                  || (any_stop code c.m_remote_tasks || any_stop code (local_batch c))));
      ran =
          c.ran
          ++ (cq_events code c.cq
              ++ (events code c.m_remote_spawn
                  ++ (events code c.m_remote_tasks ++ events code (local_batch c))));
    },
  )

  -- On the context's own thread, `run_once` runs the continuations of the completions, then the spawned
  -- coroutines, then the tasks of other threads, then the local tasks, each in the order in which they
  -- came; local tasks that the first three post run in this round, and those that the local tasks post
  -- are all that is left for the next. It answers with the number of all that it took, and every queue
  -- of other threads is empty.
  pub run_once_lem :
      (th : Thread) (c : IoContext) → is_in_local_thread th c ≡ true → run_once code th c ≡ round c
  unfolding run_once after
  run_once_lem th c l =
      let c1 =
        after (cq_posted code c.cq) (cq_events code c.cq) (cq_stop code c.cq)
          (record c { cq = [] }) in
      let sp = c.m_remote_spawn in
      let c2 =
        after (posted_all code sp) (events code sp) (any_stop code sp)
          (record c1 { m_remote_spawn = [] }) in
      let rt = c.m_remote_tasks in
      let c3 =
        after (posted_all code rt) (events code rt) (any_stop code rt)
          (record c2 { m_remote_tasks = [] }) in
      let batch : c3.m_local_tasks ≡ local_batch c =
        append_assoc (c.m_local_tasks ++ cq_posted code c.cq) (posted_all code sp)
          (posted_all code rt)
        ∙ append_assoc c.m_local_tasks (cq_posted code c.cq)
            (posted_all code sp ++ posted_all code rt) in
      rw (for_each_cqe_lem code th c.cq (record c { cq = [] }) l) (
        rw (spawn_stage th c1 sp refl l) (
          rw (remote_stage th c2 rt refl l) (
            rw (local_stage th c3 (local_batch c) batch l) (
              rw
                (
                  append_four c.ran (cq_events code c.cq) (events code sp) (events code rt)
                      (events code (local_batch c)),
                  or_four c.m_is_stopped (cq_stop code c.cq) (any_stop code sp) (any_stop code rt)
                      (any_stop code (local_batch c)),
                )
                refl))))
