-- ===== src/IoContext/Effects.antt =====
-- What code that runs on the thread of an include/io_context.hpp context does to the context.
use libcoio.Base.{
  or_assoc, or_false, or_true, ℕ, ◌≡◌, refl, sym, ap, ◌∙◌, Bool, true, false, ◌||◌, Option, none,
  some, List, [], ◌∷◌, ◌++◌, append-nil, append_assoc,
}
use libcoio.IoContext.{
  Code, leave, posts, dispatches, spawns, stops, Cqe, Event, task, resume, Thread, IoContext,
  is_in_local_thread, log, request_stop, run_code, run_all, for_each_cqe,
}

-- What code posts, the code that it starts itself included, in order.
unfoldable pub posted : Code → List ℕ
posted leave = []
posted (posts t k) = t ∷ posted k
posted (dispatches t d k) = posted d ++ posted k
posted (spawns t d k) = posted d ++ posted k
posted (stops k) = posted k

-- What it runs at once.
unfoldable pub direct : Code → List Event
direct leave = []
direct (posts t k) = direct k
direct (dispatches t d k) = task t ∷ (direct d ++ direct k)
direct (spawns t d k) = task t ∷ (direct d ++ direct k)
direct (stops k) = direct k

unfoldable pub asks_stop : Code → Bool
asks_stop leave = false
asks_stop (posts t k) = asks_stop k
asks_stop (dispatches t d k) = asks_stop d || asks_stop k
asks_stop (spawns t d k) = asks_stop d || asks_stop k
asks_stop (stops k) = true

-- The context after code that posts `ts`, runs `es`, and asks to stop if `b`.
unfoldable pub after : List ℕ → List Event → Bool → IoContext → IoContext
after ts es b c = record c {
  m_local_tasks = c.m_local_tasks ++ ts;
  ran = c.ran ++ es;
  m_is_stopped = c.m_is_stopped || b;
}

pub after-nil : (c : IoContext) → after [] [] false c ≡ c
unfolding after
after-nil c = rw (append-nil c.m_local_tasks, append-nil c.ran, or_false c.m_is_stopped) refl

pub after-after :
    (ts us : List ℕ) (es fs : List Event) (a b : Bool) (c : IoContext)
    → after us fs b (after ts es a c) ≡ after (ts ++ us) (es ++ fs) (a || b) c
unfolding after
after-after ts us es fs a b c =
    rw (append_assoc c.m_local_tasks ts us, append_assoc c.ran es fs, or_assoc c.m_is_stopped a b)
      refl

pub after-local :
    (th : Thread) (ts : List ℕ) (es : List Event) (b : Bool) (c : IoContext)
    → is_in_local_thread th (after ts es b c) ≡ is_in_local_thread th c
unfolding after
after-local th ts es b c = refl

compose :
    (ts us : List ℕ) (es fs : List Event) (a b : Bool) (c c' x : IoContext)
    → c' ≡ after ts es a c
    → x ≡ after us fs b c'
    → x ≡ after (ts ++ us) (es ++ fs) (a || b) c
compose ts us es fs a b c c' x h g = g ∙ ap (after us fs b) h ∙ after-after ts us es fs a b c

logged : (e : Event) (c : IoContext) → log e c ≡ after [] (e ∷ []) false c
unfolding after
logged e c = rw (append-nil c.m_local_tasks, or_false c.m_is_stopped) refl

posting :
    (t : ℕ) (c : IoContext)
    → record c { m_local_tasks = c.m_local_tasks ++ (t ∷ []) } ≡ after (t ∷ []) [] false c
unfolding after
posting t c = rw (append-nil c.ran, or_false c.m_is_stopped) refl

stopping : (c : IoContext) → request_stop c ≡ after [] [] true c
unfolding after
stopping c = rw (append-nil c.m_local_tasks, append-nil c.ran, or_true c.m_is_stopped) refl

-- What running `k` on the context's thread comes to.
abbrev Appends : Thread → Code → Type 0
Appends th k =
    (c : IoContext)
    → is_in_local_thread th c ≡ true
    → run_code th k c ≡ after (posted k) (direct k) (asks_stop k) c

-- A callable that is run at once, then the rest.
nested :
    (th : Thread) (t : ℕ) (d k : Code) (c : IoContext)
    → is_in_local_thread th c ≡ true
    → Appends th d
    → Appends th k
    → run_code th k (run_code th d (log (task t) c))
      ≡ after
          (posted d ++ posted k)
          (task t ∷ (direct d ++ direct k))
          (asks_stop d || asks_stop k)
          c
nested th t d k c l hd hk =
    let first = compose _ _ _ _ _ _ _ _ _ (logged (task t) c) (hd (log (task t) c) l) in
    compose _ _ _ _ _ _ _ _ _ first (
      hk (run_code th d (log (task t) c))
        (ap (is_in_local_thread th) first ∙ after-local th _ _ _ c ∙ l))

-- Code that runs on the context's thread only appends to the local queue and to what has been run, and
-- may ask to stop.
pub run_code_lem : (th : Thread) (k : Code) → Appends th k
unfolding run_code posted direct asks_stop
run_code_lem th leave c l = sym (after-nil c)
run_code_lem th (posts t k) c l = rw l (
    compose _ _ _ _ _ _ _ _ _ (posting t c)
      (run_code_lem th k (record c { m_local_tasks = c.m_local_tasks ++ (t ∷ []) }) l))
run_code_lem th (dispatches t d k) c l =
    rw l (nested th t d k c l (run_code_lem th d) (run_code_lem th k))
run_code_lem th (spawns t d k) c l =
    rw l (nested th t d k c l (run_code_lem th d) (run_code_lem th k))
run_code_lem th (stops k) c l =
    compose _ _ _ _ _ _ _ _ _ (stopping c) (run_code_lem th k (request_stop c) l)

-- Work that is run at once, under the name `t`.
pub run_now :
    (th : Thread) (t : ℕ) (d : Code) (c : IoContext)
    → is_in_local_thread th c ≡ true
    → run_code th d (log (task t) c) ≡ after (posted d) (task t ∷ direct d) (asks_stop d) c
run_now th t d c l =
    compose _ _ _ _ _ _ _ _ _ (logged (task t) c) (run_code_lem th d (log (task t) c) l)

module _ (code : ℕ → Code) where
  unfoldable pub posted_all : List ℕ → List ℕ
  unfolding posted
  posted_all [] = []
  posted_all (t ∷ ts) = posted (code t) ++ posted_all ts

  unfoldable pub events : List ℕ → List Event
  unfolding direct
  events [] = []
  events (t ∷ ts) = (task t ∷ direct (code t)) ++ events ts

  unfoldable pub any_stop : List ℕ → Bool
  unfolding asks_stop
  any_stop [] = false
  any_stop (t ∷ ts) = asks_stop (code t) || any_stop ts

  -- A batch of tasks runs in order, and only appends.
  pub run_all_lem :
      (th : Thread) (ts : List ℕ) (c : IoContext)
      → is_in_local_thread th c ≡ true
      → run_all code th ts c ≡ after (posted_all ts) (events ts) (any_stop ts) c
  unfolding run_all posted_all events any_stop
  run_all_lem th [] c l = sym (after-nil c)
  run_all_lem th (t ∷ ts) c l =
      let x = run_code th (code t) (log (task t) c) in
      compose _ _ _ _ _ _ _ _ _ (run_now th t (code t) c l) (
        run_all_lem th ts x
          (ap (is_in_local_thread th) (run_now th t (code t) c l) ∙ after-local th _ _ _ c ∙ l))

  pub posted_all-append : (xs ys : List ℕ) → posted_all (xs ++ ys) ≡ posted_all xs ++ posted_all ys
  unfolding posted_all
  posted_all-append [] ys = refl
  posted_all-append (x ∷ xs) ys =
      ap (λ t. posted (code x) ++ t) (posted_all-append xs ys)
      ∙ sym (append_assoc (posted (code x)) (posted_all xs) (posted_all ys))

  pub events-append : (xs ys : List ℕ) → events (xs ++ ys) ≡ events xs ++ events ys
  unfolding events
  events-append [] ys = refl
  events-append (x ∷ xs) ys =
      ap (λ t. (task x ∷ direct (code x)) ++ t) (events-append xs ys)
      ∙ sym (append_assoc (task x ∷ direct (code x)) (events xs) (events ys))

  -- The same for completions; those without user data run nothing.
  unfoldable pub cq_posted : List Cqe → List ℕ
  unfolding posted
  cq_posted [] = []
  cq_posted (e ∷ es) = elim e.user_data [
    | none ↦ cq_posted es
    | some k ↦ posted (code k) ++ cq_posted es
  ]

  unfoldable pub cq_events : List Cqe → List Event
  unfolding direct
  cq_events [] = []
  cq_events (e ∷ es) = elim e.user_data [
    | none ↦ cq_events es
    | some k ↦ (resume k e.res e.flags ∷ direct (code k)) ++ cq_events es
  ]

  unfoldable pub cq_stop : List Cqe → Bool
  unfolding asks_stop
  cq_stop [] = false
  cq_stop (e ∷ es) = elim e.user_data [
    | none ↦ cq_stop es
    | some k ↦ asks_stop (code k) || cq_stop es
  ]

  cq_step :
      (th : Thread) (e : Cqe) (es : List Cqe) (c : IoContext) (u : Option ℕ)
      → e.user_data ≡ u
      → is_in_local_thread th c ≡ true
      → ((x : IoContext)
          → is_in_local_thread th x ≡ true
          → for_each_cqe code th es x ≡ after (cq_posted es) (cq_events es) (cq_stop es) x)
      → for_each_cqe code th (e ∷ es) c
        ≡ after (cq_posted (e ∷ es)) (cq_events (e ∷ es)) (cq_stop (e ∷ es)) c
  unfolding for_each_cqe cq_posted cq_events cq_stop
  cq_step th e es c none q l ih = rw q (ih c l)
  cq_step th e es c (some k) q l ih =
      let ev = resume k e.res e.flags in
      let first = compose _ _ _ _ _ _ _ _ _ (logged ev c) (run_code_lem th (code k) (log ev c) l) in
      rw q (
        compose _ _ _ _ _ _ _ _ _ first (
          ih (run_code th (code k) (log ev c))
            (ap (is_in_local_thread th) first ∙ after-local th _ _ _ c ∙ l)))

  pub for_each_cqe_lem :
      (th : Thread) (es : List Cqe) (c : IoContext)
      → is_in_local_thread th c ≡ true
      → for_each_cqe code th es c ≡ after (cq_posted es) (cq_events es) (cq_stop es) c
  unfolding for_each_cqe cq_posted cq_events cq_stop
  for_each_cqe_lem th [] c l = sym (after-nil c)
  for_each_cqe_lem th (e ∷ es) c l = cq_step th e es c e.user_data refl l (for_each_cqe_lem th es)
