-- ===== src/IoContext/Threads/Turns.antt =====
-- What the loop of an include/io_context.hpp context has in fact run, turn by turn.
use libcoio.Base.{
  ℕ, ◌≡◌, refl, sym, ap, ◌∙◌, Bool, true, false, Option, none, some, List, [], ◌∷◌, ◌++◌,
  append-nil, append_assoc,
}
use libcoio.IoContext.{
  Code, Event, task, resume, Thread, IoContext, Cqe, log, is_in_local_thread, completion,
  remote_task, remote_spawn, remote_stop,
}
use libcoio.IoContext.Effects.{direct, after, run_code_lem}
use libcoio.IoContext.Threads.{
  Stage, coroutines, remote, local, Place, testing, completing, checking, swapping, running,
  submitting, ended, Running, queue, test, check, next_cqe, complete, run_task, advance_at, advance,
  arrives, Step, steps, comes, Steps, none_yet, then_one, at_start,
}
use libcoio.IoContext.Threads.Leaves.{run_task_lem}
use libcoio.IoContext.Threads.Serving.{Steps-IsServed}

-- One completion, or one coroutine or task of a stage.
pub data Turn : Type 0 where
  of_completion : Cqe → Turn
  of_stage : Stage → ℕ → Turn

unfoldable pub completions_of : List Turn → List Cqe
completions_of [] = []
completions_of (of_completion e ∷ ts) = e ∷ completions_of ts
completions_of (of_stage st t ∷ ts) = completions_of ts

unfoldable pub coroutines_of : List Turn → List ℕ
coroutines_of [] = []
coroutines_of (of_completion e ∷ ts) = coroutines_of ts
coroutines_of (of_stage coroutines t ∷ ts) = t ∷ coroutines_of ts
coroutines_of (of_stage remote t ∷ ts) = coroutines_of ts
coroutines_of (of_stage local t ∷ ts) = coroutines_of ts

unfoldable pub tasks_of : List Turn → List ℕ
tasks_of [] = []
tasks_of (of_completion e ∷ ts) = tasks_of ts
tasks_of (of_stage coroutines t ∷ ts) = tasks_of ts
tasks_of (of_stage remote t ∷ ts) = t ∷ tasks_of ts
tasks_of (of_stage local t ∷ ts) = tasks_of ts

module _ (code : ℕ → Code) where
  -- What a turn runs: the continuation, coroutine or task, and what that runs at once.
  abbrev pub events_at : Option ℕ → Cqe → List Event
  events_at none e = []
  events_at (some k) e = resume k e.res e.flags ∷ direct (code k)

  unfoldable pub turn_events : Turn → List Event
  turn_events (of_completion e) = events_at e.user_data e
  turn_events (of_stage st t) = task t ∷ direct (code t)

  unfoldable pub events_of : List Turn → List Event
  unfolding turn_events
  events_of [] = []
  events_of (t ∷ ts) = turn_events t ++ events_of ts

  events_of-snoc :
      (ts : List Turn) (t : Turn) → events_of (ts ++ (t ∷ [])) ≡ events_of ts ++ turn_events t
  unfolding events_of
  events_of-snoc [] t = append-nil (turn_events t)
  events_of-snoc (u ∷ ts) t =
      ap (λ l. turn_events u ++ l) (events_of-snoc ts t)
      ∙ sym (append_assoc (turn_events u) (events_of ts) (turn_events t))

  completions_of-append :
      (ts us : List Turn) → completions_of (ts ++ us) ≡ completions_of ts ++ completions_of us
  unfolding completions_of
  completions_of-append [] us = refl
  completions_of-append (of_completion e ∷ ts) us = ap (λ l. e ∷ l) (completions_of-append ts us)
  completions_of-append (of_stage st t ∷ ts) us = completions_of-append ts us

  coroutines_of-append :
      (ts us : List Turn) → coroutines_of (ts ++ us) ≡ coroutines_of ts ++ coroutines_of us
  unfolding coroutines_of
  coroutines_of-append [] us = refl
  coroutines_of-append (of_completion e ∷ ts) us = coroutines_of-append ts us
  coroutines_of-append (of_stage coroutines t ∷ ts) us =
      ap (λ l. t ∷ l) (coroutines_of-append ts us)
  coroutines_of-append (of_stage remote t ∷ ts) us = coroutines_of-append ts us
  coroutines_of-append (of_stage local t ∷ ts) us = coroutines_of-append ts us

  tasks_of-append : (ts us : List Turn) → tasks_of (ts ++ us) ≡ tasks_of ts ++ tasks_of us
  unfolding tasks_of
  tasks_of-append [] us = refl
  tasks_of-append (of_completion e ∷ ts) us = tasks_of-append ts us
  tasks_of-append (of_stage coroutines t ∷ ts) us = tasks_of-append ts us
  tasks_of-append (of_stage remote t ∷ ts) us = ap (λ l. t ∷ l) (tasks_of-append ts us)
  tasks_of-append (of_stage local t ∷ ts) us = tasks_of-append ts us

  -- The turns `ts` are what the context has run since `c`, and what the histories of `s` have.
  pub record Ran (c : IoContext) (s : Running) (ts : List Turn) : Type 0 where
    pub executed : s.context.ran ≡ c.ran ++ events_of ts
    pub resumed_are : s.resumed ≡ completions_of ts
    pub started_are : s.started ≡ coroutines_of ts
    pub done_are : s.done ≡ tasks_of ts

  abbrev pub HasRun : IoContext → Running → Type 0
  HasRun c s = (ts : List Turn) × Ran c s ts

  -- One more turn.
  one_more :
      (c d : IoContext) (s u : Running) (ts : List Turn) (t : Turn)
      → Ran c s ts
      → u.context.ran ≡ s.context.ran ++ turn_events t
      → u.resumed ≡ s.resumed ++ completions_of (t ∷ [])
      → u.started ≡ s.started ++ coroutines_of (t ∷ [])
      → u.done ≡ s.done ++ tasks_of (t ∷ [])
      → HasRun c u
  one_more c d s u ts t h ran r st dn = (
    ts ++ (t ∷ []),
    record {
      executed =
          ran
          ∙ ap (λ l. l ++ turn_events t) h.executed
          ∙ append_assoc c.ran (events_of ts) (turn_events t)
          ∙ ap (λ l. c.ran ++ l) (sym (events_of-snoc ts t));
      resumed_are =
          r
          ∙ ap (λ l. l ++ completions_of (t ∷ [])) h.resumed_are
          ∙ sym (completions_of-append ts (t ∷ []));
      started_are =
          st
          ∙ ap (λ l. l ++ coroutines_of (t ∷ [])) h.started_are
          ∙ sym (coroutines_of-append ts (t ∷ []));
      done_are =
          dn ∙ ap (λ l. l ++ tasks_of (t ∷ [])) h.done_are ∙ sym (tasks_of-append ts (t ∷ []));
    },
  )

  abbrev histories : Running → List Event × List Cqe × List ℕ × List ℕ
  histories s = (s.context.ran, s.resumed, s.started, s.done)

  module _ (th : Thread) where
    complete-ran :
        (e : Cqe) (c : IoContext) (u : Option ℕ)
        → e.user_data ≡ u
        → is_in_local_thread th c ≡ true
        → (complete code th e c).ran ≡ c.ran ++ events_at u e
    unfolding complete after
    complete-ran e c none q l = rw q (sym (append-nil c.ran))
    complete-ran e c (some k) q l =
        let c' : IoContext = log (resume k e.res e.flags) c in
        rw q (
          ap (λ (d : IoContext). d.ran) (run_code_lem th (code k) c' l)
          ∙ append_assoc c.ran (resume k e.res e.flags ∷ []) (direct (code k)))

    run_task-ran :
        (t : ℕ) (c : IoContext)
        → is_in_local_thread th c ≡ true
        → (run_task code th t c).ran ≡ c.ran ++ (task t ∷ direct (code t))
    unfolding after
    run_task-ran t c l = ap (λ (d : IoContext). d.ran) (run_task_lem code th t c l)

    module _ (c : IoContext) where
      same : (s u : Running) → histories u ≡ histories s → HasRun c s → HasRun c u
      same s u e (ts, h) = (
        ts,
        record {
          executed = ap (λ x. x.0) e ∙ h.executed;
          resumed_are = ap (λ x. x.1) e ∙ h.resumed_are;
          started_are = ap (λ x. x.2) e ∙ h.started_are;
          done_are = ap (λ x. x.3) e ∙ h.done_are;
        },
      )

      test-HasRun : (b : Bool) (s : Running) → HasRun c s → HasRun c (test b s)
      test-HasRun true s h = same s _ refl h
      test-HasRun false s h = same s _ refl h

      check-HasRun : (st : Stage) (q : List ℕ) (s : Running) → HasRun c s → HasRun c (check st q s)
      check-HasRun st [] s h = same s _ refl h
      check-HasRun st (t ∷ ts) s h = same s _ refl h

      next_cqe-HasRun :
          (q : List Cqe) (s : Running)
          → is_in_local_thread th s.context ≡ true
          → HasRun c s
          → HasRun c (next_cqe code th q s)
      unfolding next_cqe turn_events completions_of coroutines_of tasks_of
      next_cqe-HasRun [] s l h = same s _ refl h
      next_cqe-HasRun (e ∷ es) s l (ts, h) =
          one_more c c s _ ts (of_completion e) h
            (complete-ran e (record s.context { cq = es }) e.user_data refl l) refl
            (sym (append-nil s.started)) (sym (append-nil s.done))

      advance_at-HasRun :
          (p : Place) (s : Running)
          → is_in_local_thread th s.context ≡ true
          → HasRun c s
          → HasRun c (advance_at code th p s)
      unfolding advance_at turn_events completions_of coroutines_of tasks_of
      advance_at-HasRun testing s l h = test-HasRun s.context.m_is_stopped s h
      advance_at-HasRun completing s l h = next_cqe-HasRun s.context.cq s l h
      advance_at-HasRun (checking st) s l h = check-HasRun st (queue st s.context) s h
      advance_at-HasRun (swapping coroutines) s l h = same s _ refl h
      advance_at-HasRun (swapping remote) s l h = same s _ refl h
      advance_at-HasRun (swapping local) s l h = same s _ refl h
      advance_at-HasRun (running st []) s l h = same s _ refl h
      advance_at-HasRun (running coroutines (t ∷ q)) s l (ts, h) =
          one_more c c s _ ts (of_stage coroutines t) h (run_task-ran t s.context l)
            (sym (append-nil s.resumed)) refl (sym (append-nil s.done))
      advance_at-HasRun (running remote (t ∷ q)) s l (ts, h) =
          one_more c c s _ ts (of_stage remote t) h (run_task-ran t s.context l)
            (sym (append-nil s.resumed)) (sym (append-nil s.started)) refl
      advance_at-HasRun (running local (t ∷ q)) s l (ts, h) =
          one_more c c s _ ts (of_stage local t) h (run_task-ran t s.context l)
            (sym (append-nil s.resumed)) (sym (append-nil s.started)) (sym (append-nil s.done))
      advance_at-HasRun submitting s l h = same s _ refl h
      advance_at-HasRun ended s l h = same s _ refl h

      Step-HasRun :
          {s t : Running}
          → Step code th s t
          → is_in_local_thread th s.context ≡ true
          → HasRun c s
          → HasRun c t
      unfolding advance arrives
      Step-HasRun (steps s) l h = advance_at-HasRun s.place s l h
      Step-HasRun (comes (completion e) s) l h = same s _ refl h
      Step-HasRun (comes (remote_task t) s) l h = same s _ refl h
      Step-HasRun (comes (remote_spawn t) s) l h = same s _ refl h
      Step-HasRun (comes remote_stop s) l h = same s _ refl h

      pub Steps-HasRun :
          (s : Running) → is_in_local_thread th c ≡ true → Steps code th (at_start c) s → HasRun c s
      unfolding events_of completions_of coroutines_of tasks_of
      Steps-HasRun s l none_yet = (
        [],
        record {
          executed = sym (append-nil c.ran);
          resumed_are = refl;
          started_are = refl;
          done_are = refl;
        },
      )
      Steps-HasRun s l (then_one {t} xs x) =
          Step-HasRun x (Steps-IsServed code th c t l xs).here (Steps-HasRun t l xs)
