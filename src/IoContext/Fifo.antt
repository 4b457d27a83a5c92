-- ===== src/IoContext/Fifo.antt =====
-- The batches of include/io_context.hpp against one queue that is served one task at a time.
use libcoio.Base.{
  ℕ, zero, suc, ◌+◌, ◌≡◌, refl, sym, ap, ◌∙◌, true, List, [], ◌∷◌, ◌++◌, append-nil, append_assoc,
  arith, length,
}
use libcoio.IoContext.{Code, Event, task, Thread, IoContext, is_in_local_thread, run_once}
use libcoio.IoContext.Effects.{posted, direct, posted_all, events, cq_posted, cq_events}
use libcoio.IoContext.Rounds.{local_batch, run_once_lem}

module _ (code : ℕ → Code) where
  -- The first task of the queue runs; what it posts goes to the end.
  pub serve : ℕ → List ℕ → List Event → List ℕ × List Event
  unfolding posted direct
  serve zero q r = (q, r)
  serve (suc n) [] r = ([], r)
  serve (suc n) (t ∷ q) r = serve n (q ++ posted (code t)) (r ++ (task t ∷ direct (code t)))

  -- A whole batch, served one by one.
  serve-append :
      (xs ys : List ℕ) (r : List Event)
      → serve (length xs) (xs ++ ys) r ≡ (ys ++ posted_all code xs, r ++ events code xs)
  unfolding serve posted_all events
  serve-append [] ys r = rw (append-nil ys, append-nil r) refl
  serve-append (x ∷ xs) ys r =
      let p = posted (code x) in
      let e : List Event = task x ∷ direct (code x) in
      ap (λ q. serve (length xs) q (r ++ e)) (append_assoc xs ys p)
      ∙ serve-append xs (ys ++ p) (r ++ e)
      ∙ ap (λ q. (q, (r ++ e) ++ events code xs)) (append_assoc ys p (posted_all code xs))
      ∙ ap (λ q. (ys ++ (p ++ posted_all code xs), q)) (append_assoc r e (events code xs))

  serve_idle : (n : ℕ) (r : List Event) → serve n [] r ≡ ([], r)
  unfolding serve
  serve_idle zero r = refl
  serve_idle (suc n) r = refl

  serve_add :
      (n m : ℕ) (q : List ℕ) (r : List Event)
      → serve (n + m) q r ≡ serve m (serve n q r).0 (serve n q r).1
  unfolding serve
  serve_add zero m q r = ap (λ k. serve k q r) (omega arith)
  serve_add (suc n) m [] r = serve_idle (suc n + m) r ∙ sym (serve_idle m r)
  serve_add (suc n) m (t ∷ q) r =
      ap (λ k. serve k (t ∷ q) r) (let e : suc n + m ≡ suc (n + m) = omega arith in e)
      ∙ serve_add n m (q ++ posted (code t)) (r ++ (task t ∷ direct (code t)))

  -- Rounds without arrivals, and how much they took in all.
  pub quiet_rounds : Thread → ℕ → IoContext → ℕ × IoContext
  quiet_rounds th zero c = (0, c)
  quiet_rounds th (suc n) c =
      let (k, c') = run_once code th c in let (m, c'') = quiet_rounds th n c' in (k + m, c'')

  -- Nothing has come from the kernel or from other threads.
  pub record IsQuiet (th : Thread) (c : IoContext) : Type 0 where
    pub bound : is_in_local_thread th c ≡ true
    pub no_completion : c.cq ≡ []
    pub no_spawn : c.m_remote_spawn ≡ []
    pub no_remote : c.m_remote_tasks ≡ []

  run_once-IsQuiet :
      (th : Thread) (c : IoContext)
      → IsQuiet th c
      → ((run_once code th c).0 ≡ length c.m_local_tasks)
        × ((run_once code th c).1.m_local_tasks ≡ posted_all code c.m_local_tasks)
        × ((run_once code th c).1.ran ≡ c.ran ++ events code c.m_local_tasks)
        × IsQuiet th (run_once code th c).1
  unfolding posted_all events cq_posted cq_events
  run_once-IsQuiet th c h =
      let batch : local_batch code c ≡ c.m_local_tasks =
        rw (h.no_completion, h.no_spawn, h.no_remote) (append-nil c.m_local_tasks) in
      let whole = run_once_lem code th c h.bound in
      (
        ap (λ x. x.0) whole
            ∙ rw (h.no_completion, h.no_spawn, h.no_remote)
                (ap (λ q. 0 + length q) (append-nil c.m_local_tasks) ∙ omega arith),
        ap (λ x. x.1.m_local_tasks) whole ∙ ap (posted_all code) batch,
        ap (λ x. x.1.ran) whole
            ∙ ap
                (λ b.
                  c.ran
                  ++ (cq_events code c.cq
                      ++ (events code c.m_remote_spawn
                          ++ (events code c.m_remote_tasks ++ events code b))))
                batch
            ∙ rw (h.no_completion, h.no_spawn, h.no_remote) refl,
        record {
          bound = ap (λ x. is_in_local_thread th x.1) whole ∙ h.bound;
          no_completion = ap (λ x. x.1.cq) whole;
          no_spawn = ap (λ x. x.1.m_remote_spawn) whole;
          no_remote = ap (λ x. x.1.m_remote_tasks) whole;
        },
      )

  -- Local tasks run first in, first out over any number of rounds: rounds of `run_once` on the
  -- context's thread, with nothing from the kernel or other threads, leave the queue and the record of
  -- what has run as serving one queue task by task does, as many times as the rounds say they took.
  pub quiet_rounds-serve :
      (th : Thread) (n : ℕ) (c : IoContext)
      → IsQuiet th c
      → ((quiet_rounds th n c).1.m_local_tasks, (quiet_rounds th n c).1.ran)
        ≡ serve (quiet_rounds th n c).0 c.m_local_tasks c.ran
  unfolding quiet_rounds serve
  quiet_rounds-serve th zero c h = refl
  quiet_rounds-serve th (suc n) c h =
      let (count, left, log, still) = run_once-IsQuiet th c h in
      let c' = (run_once code th c).1 in
      let one : serve (run_once code th c).0 c.m_local_tasks c.ran ≡ (c'.m_local_tasks, c'.ran) =
        ap (λ k. serve k c.m_local_tasks c.ran) count
        ∙ ap (λ q. serve (length c.m_local_tasks) q c.ran) (sym (append-nil c.m_local_tasks))
        ∙ serve-append c.m_local_tasks [] c.ran
        ∙ rw (left, log) refl in
      quiet_rounds-serve th n c' still
      ∙ ap (λ x. serve (quiet_rounds th n c').0 x.0 x.1) (sym one)
      ∙ sym (serve_add (run_once code th c).0 (quiet_rounds th n c').0 c.m_local_tasks c.ran)
