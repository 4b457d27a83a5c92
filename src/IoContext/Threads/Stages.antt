-- ===== src/IoContext/Threads/Stages.antt =====
-- A stage of a round of an include/io_context.hpp context, step by step, against the function of the source.
use libcoio.Base.{
  ℕ, ◌+◌, ◌≡◌, refl, sym, ap, ◌∙◌, List, [], ◌∷◌, ◌++◌, append-nil, append_assoc, length, arith,
}
use libcoio.IoContext.{
  Code, Thread, IoContext, run_all, resolve_remote_coroutine, resolve_remote_task,
  resolve_local_task,
}
use libcoio.IoContext.Threads.{
  Stage, coroutines, remote, local, checking, running, Running, queue, clear, next_place, note,
  run_task, advance, check,
}
use libcoio.IoContext.Threads.Alone.{Reaches, goes, then_goes, ends_as}

module _ (code : ℕ → Code) (th : Thread) where
  -- What is left of a batch.
  pub batch :
      (st : Stage) (ts : List ℕ) (s : Running)
      → Reaches code th
          (record s { place = running st ts })
          (note st ts (record s { place = next_place st; context = run_all code th ts s.context }))
  unfolding advance run_all
  batch coroutines [] s =
      goes code th
        (ap (λ l. record s { place = checking remote; started = l }) (sym (append-nil s.started)))
  batch remote [] s =
      goes code th
        (ap (λ l. record s { place = checking local; done = l }) (sym (append-nil s.done)))
  batch local [] s = goes code th refl
  batch coroutines (t ∷ ts) s =
      let c : IoContext = run_task code th t s.context in
      let s' : Running = record s { context = c; started = s.started ++ (t ∷ []) } in
      let rest = batch coroutines ts s' in
      ends_as code th (then_goes code th (goes code th refl) rest) (
        ap (λ l. record s { place = checking remote; context = run_all code th ts c; started = l })
          (append_assoc s.started (t ∷ []) ts))
  batch remote (t ∷ ts) s =
      let c : IoContext = run_task code th t s.context in
      let s' : Running = record s { context = c; done = s.done ++ (t ∷ []) } in
      let rest = batch remote ts s' in
      ends_as code th (then_goes code th (goes code th refl) rest) (
        ap (λ l. record s { place = checking local; context = run_all code th ts c; done = l })
          (append_assoc s.done (t ∷ []) ts))
  batch local (t ∷ ts) s =
      let c : IoContext = run_task code th t s.context in
      then_goes code th (goes code th refl) (batch local ts (record s { context = c }))

  -- What the source calls for a stage.
  abbrev pub resolve : Stage → IoContext → ℕ × IoContext
  resolve coroutines = resolve_remote_coroutine code th
  resolve remote = resolve_remote_task code th
  resolve local = resolve_local_task code th

  resolve_empty : (st : Stage) (c : IoContext) → queue st c ≡ [] → resolve st c ≡ (0, c)
  unfolding resolve_remote_coroutine resolve_remote_task resolve_local_task
  resolve_empty coroutines c e = rw e refl
  resolve_empty remote c e = rw e refl
  resolve_empty local c e = rw e refl

  resolve_full :
      (st : Stage) (c : IoContext) (t : ℕ) (ts : List ℕ)
      → queue st c ≡ t ∷ ts
      → resolve st c ≡ (length (queue st c), run_all code th (queue st c) (clear st c))
  unfolding resolve_remote_coroutine resolve_remote_task resolve_local_task
  resolve_full coroutines c t ts e = rw e refl
  resolve_full remote c t ts e = rw e refl
  resolve_full local c t ts e = rw e refl

  note-nil : (st : Stage) (s : Running) → note st [] s ≡ s
  note-nil coroutines s = ap (λ l. record s { started = l }) (append-nil s.started)
  note-nil remote s = ap (λ l. record s { done = l }) (append-nil s.done)
  note-nil local s = refl

  -- The state behind a stage.
  abbrev pub behind : Stage → Running → Running
  behind st s = note st (queue st s.context) (record s {
    place = next_place st;
    cnt = s.cnt + (resolve st s.context).0;
    context = (resolve st s.context).1;
  })

  by_queue :
      (st : Stage) (q : List ℕ) (s : Running)
      → queue st s.context ≡ q
      → Reaches code th (record s { place = checking st }) (behind st s)
  unfolding advance
  by_queue st [] s e =
      ends_as code th (goes code th (ap (λ q. check st q (record s { place = checking st })) e)) (
        sym (
          ap
            (λ q. note st q (record s {
              place = next_place st;
              cnt = s.cnt + (resolve st s.context).0;
              context = (resolve st s.context).1;
            }))
            e
          ∙ note-nil st _
          ∙ ap
              (λ (r : ℕ × IoContext). record s {
                place = next_place st;
                cnt = s.cnt + r.0;
                context = r.1;
              })
              (resolve_empty st s.context e)
          ∙ ap (λ n. record s { place = next_place st; cnt = n })
              (let e : s.cnt + 0 ≡ s.cnt = omega arith in e)))
  by_queue st (t ∷ ts) s e =
      then_goes code th (goes code th (ap (λ q. check st q (record s { place = checking st })) e)) (
        then_goes code th (goes code th refl) (
          ends_as code th
            (batch st (queue st s.context) (record s {
              cnt = s.cnt + length (queue st s.context);
              context = clear st s.context;
            }))
            (ap
              (λ (r : ℕ × IoContext).
                note st (queue st s.context)
                  (record s { place = next_place st; cnt = s.cnt + r.0; context = r.1 }))
              (sym (resolve_full st s.context t ts e)))))

  -- A whole stage, from the look at its queue.
  pub stage :
      (st : Stage) (s : Running) → Reaches code th (record s { place = checking st }) (behind st s)
  stage st s = by_queue st (queue st s.context) s refl
