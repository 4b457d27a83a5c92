-- ===== src/IoContext/Threads/Completions.antt =====
-- The completions of a round of an include/io_context.hpp context, step by step.
use libcoio.Base.{
  ℕ, ◌≡◌, refl, sym, ap, ◌∙◌, true, Option, none, some, List, [], ◌∷◌, ◌++◌, append-nil,
  append_assoc,
}
use libcoio.IoContext.{Code, resume, Thread, IoContext, Cqe, log, is_in_local_thread, for_each_cqe}
use libcoio.IoContext.Effects.{after, run_code_lem}
use libcoio.IoContext.Threads.{coroutines, completing, checking, Running, complete, advance}
use libcoio.IoContext.Threads.Alone.{Reaches, goes, then_goes, ends_as}

module _ (code : ℕ → Code) (th : Thread) where
  -- A completion runs the same whatever stands behind it in the ring.
  complete-cq :
      (e : Cqe) (es : List Cqe) (c : IoContext) (u : Option ℕ)
      → e.user_data ≡ u
      → is_in_local_thread th c ≡ true
      → complete code th e (record c { cq = es })
        ≡ record (complete code th e (record c { cq = [] })) { cq = es }
  unfolding complete after
  complete-cq e es c none q l = rw q refl
  complete-cq e es c (some k) q l =
      let ev = resume k e.res e.flags in
      let c1 : IoContext = record c { cq = es } in
      let c0 : IoContext = record c { cq = [] } in
      rw q (
        run_code_lem th (code k) (log ev c1) l
        ∙ ap (λ (d : IoContext). record d { cq = es })
            (sym (run_code_lem th (code k) (log ev c0) l)))

  for_each_step :
      (e : Cqe) (es : List Cqe) (c : IoContext) (u : Option ℕ)
      → e.user_data ≡ u
      → for_each_cqe code th (e ∷ es) c ≡ for_each_cqe code th es (complete code th e c)
  unfolding for_each_cqe complete
  for_each_step e es c none q = rw q refl
  for_each_step e es c (some k) q = rw q refl

  complete-local :
      (e : Cqe) (c : IoContext) (u : Option ℕ)
      → e.user_data ≡ u
      → is_in_local_thread th c ≡ true
      → (is_in_local_thread th (complete code th e (record c { cq = [] })) ≡ true)
        × ((complete code th e (record c { cq = [] })).cq ≡ [])
  unfolding complete after
  complete-local e c none q l = rw q (l, refl)
  complete-local e c (some k) q l =
      let c0 : IoContext = record c { cq = [] } in
      let same = run_code_lem th (code k) (log (resume k e.res e.flags) c0) l in
      rw q (ap (is_in_local_thread th) same ∙ l, ap (λ (d : IoContext). d.cq) same)

  -- All completions that are in the ring.
  pub completions :
      (es : List Cqe) (s : Running)
      → is_in_local_thread th s.context ≡ true
      → Reaches code th
          (record s { place = completing; context = record s.context { cq = es } })
          (record s {
            place = checking coroutines;
            context = for_each_cqe code th es (record s.context { cq = [] });
            resumed = s.resumed ++ es;
          })
  unfolding advance for_each_cqe
  completions [] s l = goes code th (
      ap
        (λ r. record s {
          place = checking coroutines;
          context = record s.context { cq = [] };
          resumed = r;
        })
        (sym (append-nil s.resumed)))
  completions (e ∷ es) s l =
      let c0 : IoContext = record s.context { cq = [] } in
      let d : IoContext = complete code th e c0 in
      let (l', empty) = complete-local e s.context e.user_data refl l in
      let s' : Running = record s { context = d; resumed = s.resumed ++ (e ∷ []) } in
      ends_as code th
        (then_goes code th
          (goes code th (
            ap
              (λ (x : IoContext). record s {
                place = completing;
                context = x;
                resumed = s.resumed ++ (e ∷ []);
              })
              (complete-cq e es s.context e.user_data refl l)))
          (completions es s' l'))
        (ap
            (λ (x : IoContext). record s {
              place = checking coroutines;
              context = for_each_cqe code th es x;
              resumed = (s.resumed ++ (e ∷ [])) ++ es;
            })
            (let z : record d { cq = [] } ≡ d = ap (λ q. record d { cq = q }) (sym empty) in z)
          ∙ ap
              (λ (x : IoContext). record s {
                place = checking coroutines;
                context = x;
                resumed = (s.resumed ++ (e ∷ [])) ++ es;
              })
              (sym (for_each_step e es c0 e.user_data refl))
          ∙ ap
              (λ r. record s {
                place = checking coroutines;
                context = for_each_cqe code th (e ∷ es) c0;
                resumed = r;
              })
              (append_assoc s.resumed (e ∷ []) es))
