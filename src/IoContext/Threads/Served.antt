-- ===== src/IoContext/Threads/Served.antt =====
-- The loop of an include/io_context.hpp context on its own serves all that waits.
use libcoio.Base.{
  ℕ, zero, suc, ◌≡◌, refl, sym, ap, ◌∙◌, ◌≢◌, ◌⊎◌, inl, inr, Bool, true, false, List, [], ◌∷◌, ◌++◌,
  append-nil,
}
use libcoio.IoContext.{Code, Thread, IoContext, Cqe, is_in_local_thread}
use mathlib.Core.Path.{subst}
use libcoio.IoContext.Threads.{
  coroutines, remote, local, Place, testing, completing, checking, swapping, running, submitting,
  ended, Running, queue, advance_at, advance, test, check, next_cqe, steps, Steps, then_one,
  at_start,
}
use libcoio.IoContext.Threads.Order.{IsServed}
use libcoio.IoContext.Threads.Serving.{Steps-IsServed}
use libcoio.IoContext.Threads.Alone.{alone, Reaches, goes, then_goes}
use libcoio.IoContext.Threads.Round.{steps-run_once, from_place}

testing_or_not : (p : Place) → (p ≡ testing) ⊎ (p ≢ testing)
testing_or_not testing = inl refl
testing_or_not completing = inr (λ e. cc (e))
testing_or_not (checking st) = inr (λ e. cc (e))
testing_or_not (swapping st) = inr (λ e. cc (e))
testing_or_not (running st ts) = inr (λ e. cc (e))
testing_or_not submitting = inr (λ e. cc (e))
testing_or_not ended = inr (λ e. cc (e))

module _ (code : ℕ → Code) (th : Thread) where
  -- The histories of what has come.
  abbrev came : Running → List Cqe × List ℕ × List ℕ
  came s = (s.completed, s.spawned, s.asked)

  came-advance_at : (p : Place) (s : Running) → came (advance_at code th p s) ≡ came s
  unfolding advance_at
  came-advance_at testing s = elim s.context.m_is_stopped as (λ b. came (test b s) ≡ came s) [
    | true ↦ refl
    | false ↦ refl
  ]
  came-advance_at completing s = elim s.context.cq as (λ q. came (next_cqe code th q s) ≡ came s) [
    | [] ↦ refl
    | e ∷ es ↦ refl
  ]
  came-advance_at (checking st) s =
      elim (queue st s.context) as (λ q. came (check st q s) ≡ came s) [ [] ↦ refl | t ∷ ts ↦ refl ]
  came-advance_at (swapping st) s = refl
  came-advance_at (running st []) s = refl
  came-advance_at (running coroutines (t ∷ ts)) s = refl
  came-advance_at (running remote (t ∷ ts)) s = refl
  came-advance_at (running local (t ∷ ts)) s = refl
  came-advance_at submitting s = refl
  came-advance_at ended s = refl

  came-alone : (n : ℕ) (s : Running) → came (alone code th n s) ≡ came s
  unfolding alone advance
  came-alone zero s = refl
  came-alone (suc n) s = came-alone n (advance code th s) ∙ came-advance_at s.place s

  alone_steps :
      (r : Running) (n : ℕ) (s : Running) → Steps code th r s → Steps code th r (alone code th n s)
  unfolding alone
  alone_steps r zero s xs = xs
  alone_steps r (suc n) s xs = alone_steps r n (advance code th s) (then_one xs (steps s))

  -- The loop comes to `u`, and either has ended there, with the flag set, or has run all that had come.
  abbrev pub Served : Running → Type 0
  Served s =
      (u : Running) × Reaches code th s u
      × (((u.place ≡ ended) × (u.context.m_is_stopped ≡ true))
          ⊎ ((u.resumed ≡ s.completed) × (u.started ≡ s.spawned) × (u.done ≡ s.asked)))

  module _ (c : IoContext) (l : is_in_local_thread th c ≡ true) where
    pub reached_steps :
        {s u : Running}
        → Steps code th (at_start c) s
        → Reaches code th s u
        → Steps code th (at_start c) u
    reached_steps {s} xs x =
        subst (λ v. Steps code th (at_start c) v) x.reached (alone_steps (at_start c) x.count s xs)

    all_run :
        (s u : Running)
        → Steps code th (at_start c) s
        → Reaches code th s u
        → u.place ≡ submitting
        → u.context.cq ≡ []
        → u.context.m_remote_spawn ≡ []
        → u.context.m_remote_tasks ≡ []
        → (u.resumed ≡ s.completed) × (u.started ≡ s.spawned) × (u.done ≡ s.asked)
    all_run s u xs x p q1 q2 q3 =
        let h : IsServed th submitting u =
          subst (λ q. IsServed th q u) p (Steps-IsServed code th c u l (reached_steps xs x)) in
        let kept : came u ≡ came s = ap came (sym x.reached) ∙ came-alone x.count s in
        (
          sym (
              ap (λ t. t.0) (sym kept)
              ∙ h.completions
              ∙ ap (λ t. u.resumed ++ t) q1
              ∙ append-nil u.resumed),
          sym (
              ap (λ t. t.1) (sym kept)
              ∙ h.coroutines_in_order
              ∙ ap (λ t. u.started ++ t) q2
              ∙ append-nil u.started),
          sym (
              ap (λ t. t.2) (sym kept)
              ∙ h.tasks_in_order
              ∙ ap (λ t. u.done ++ t) q3
              ∙ append-nil u.done),
        )

    at_test :
        (s : Running) (b : Bool)
        → Steps code th (at_start c) s
        → s.place ≡ testing
        → s.context.m_is_stopped ≡ b
        → Served s
    unfolding advance advance_at
    at_test s true xs p e = (
      record s { place = ended },
      goes code th (ap (λ q. advance_at code th q s) p ∙ ap (λ b. test b s) e),
      inl (refl, e),
    )
    at_test s false xs p e =
        let here = (Steps-IsServed code th c s l xs).here in
        let (u, way, at, ran, is_round) = steps-run_once code th s here p e in
        let same = ap (λ r. r.1) is_round in
        (
          u,
          way,
          inr (
              all_run s u xs way at (ap (λ d. d.cq) same) (ap (λ d. d.m_remote_spawn) same)
                (ap (λ d. d.m_remote_tasks) same)),
        )

    -- What holds further on.
    later : {s v : Running} → Reaches code th s v → Served v → Served s
    later {s} {v} x (u, way, inl stop) = (u, then_goes code th x way, inl stop)
    later {s} {v} x (u, way, inr (r, st, d)) =
        let kept : came v ≡ came s = ap came (sym x.reached) ∙ came-alone x.count s in
        (
          u,
          then_goes code th x way,
          inr (r ∙ ap (λ t. t.0) kept, st ∙ ap (λ t. t.1) kept, d ∙ ap (λ t. t.2) kept),
        )

    from_submitting : (u : Running) → Steps code th (at_start c) u → u.place ≡ submitting → Served u
    unfolding advance advance_at
    from_submitting u xs p =
        let v : Running = record u { place = testing } in
        let way = goes code th {s = u} {u = v} (ap (λ q. advance_at code th q u) p) in
        later way (at_test v u.context.m_is_stopped (reached_steps xs way) refl refl)

    -- The loop on its own comes to where the histories of what was run are those of what had come, or it ends
    -- by the stop flag.
    pub reached-Served : (s : Running) → Steps code th (at_start c) s → s.place ≢ ended → Served s
    reached-Served s xs n = elim (testing_or_not s.place) [
      | inl e ↦ at_test s s.context.m_is_stopped xs e refl
      | inr m ↦
          let (u, way, p) =
            from_place code th s.place s (Steps-IsServed code th c s l xs).here n m in
          later way (from_submitting u (reached_steps xs way) p)
    ]
