-- ===== src/Resolver/Ended.antt =====
-- The end of the poll thread of include/http/resolver.hpp.
use libcoio.Base.{
  ◌++◌, ℕ, ◌+◌, ◌≤◌, ◌≡◌, refl, ap, ◌∙◌, inl, inr, false, List, [], ◌∷◌, arith, Option-cases,
}
use mathlib.Core.Path.{subst}
use libcoio.Resolver.Weights.{
  weigh, indicator, count, weigh_nil, weigh_cons, recipients, recipients_nil, recipients_middle,
}
use libcoio.Resolver.{
  run_posted, push_query, Answer, AsyncResolver, AsyncQueryAwaiter, init, Ares, Step, asks, wakes,
  stops, runs, tests, swaps, starts, answers_at_once, submitted, gets_fds, answers, processed,
  loads, awakens, Steps, stay, more, taking, submitting, polling, ended, after_fds,
}

-- What the contexts have been given.
abbrev pub answered : (ℕ → ℕ) → AsyncResolver → ℕ
answered f s = weigh f (recipients s.posted) + weigh f s.resumed

run_posted-answered :
    (f : ℕ → ℕ) (x : Answer) (xs ys : List Answer) (s : AsyncResolver)
    → s.posted ≡ xs ++ (x ∷ ys)
    → answered f (run_posted x (xs ++ ys) s) ≤ answered f s
run_posted-answered f x xs ys s p =
    let sum = ap (λ ys. weigh f (recipients ys)) p ∙ recipients_middle f xs x ys in
    elim (Option-cases (s.awaiters x.awaiter).handle) [
      | inl e ↦ rw e (omega (arith, sum))
      | inr (h, e) ↦ rw e (omega (arith, sum, weigh_cons f x.awaiter s.resumed))
    ]

-- Without the poll thread nothing is answered.
Step-ended :
    (A : Ares) (f : ℕ → ℕ) (s t : AsyncResolver)
    → Step A s t
    → s.poll ≡ ended
    → (t.poll ≡ ended) × (answered f t ≤ answered f s)
Step-ended A f _ _ (asks s a h) e = (e, omega arith)
Step-ended A f _ _ (wakes s n q) e = (e, omega arith)
Step-ended A f _ _ (stops s q) e = (e, omega arith)
Step-ended A f _ _ (runs s x xs ys q) e = (e, run_posted-answered f x xs ys s q)
Step-ended A f _ _ (tests s q) e = cc (e, q)
Step-ended A f _ _ (swaps s q) e = cc (e, q)
Step-ended A f _ _ (starts s a c q d) e = cc (e, q)
Step-ended A f _ _ (answers_at_once s x c q d) e = cc (e, q)
Step-ended A f _ _ (submitted s q d) e = cc (e, q)
Step-ended A f _ _ (gets_fds s q) e = cc (e, q)
Step-ended A f _ _ (answers s x c d q r) e = cc (e, q)
Step-ended A f _ _ (processed s q) e = cc (e, q)
Step-ended A f _ _ (loads s q) e = cc (e, q)
Step-ended A f _ _ (awakens s q d) e = cc (e, q)

Steps-ended :
    (A : Ares) (f : ℕ → ℕ) (s t : AsyncResolver)
    → Steps A s t
    → s.poll ≡ ended
    → answered f t ≤ answered f s
Steps-ended A f _ _ (stay s) e = omega arith
Steps-ended A f _ _ (more s t u x xs) e =
    let (e', less) = Step-ended A f s t x e in omega (arith, Steps-ended A f t u xs e', less)

-- After the poll thread has ended, no number of steps answers another query: what is posted or resumed
-- later was posted or resumed before.
pub ended-answers :
    (A : Ares) (s t : AsyncResolver) (a : ℕ)
    → Steps A s t
    → s.poll ≡ ended
    → count a (recipients t.posted) + count a t.resumed
      ≤ count a (recipients s.posted) + count a s.resumed
ended-answers A s t a xs e = Steps-ended A (indicator a) s t xs e

-- One turn of a thread that finds no query.
idle_turn :
    (A : Ares) (w : ℕ → AsyncQueryAwaiter) → Steps A (init w) (record (init w) { poll = ended })
idle_turn A w =
    let s0 = init w in
    let s1 = record s0 { poll = taking } in
    let s2 = record s0 { poll = submitting } in
    let s3 = record s0 { poll = polling } in
    let none_active : after_fds (A.ares_fds []) ≡ ended = rw ((A.fds_idle []).1 refl) refl in
    more s0 s1 (record s0 { poll = ended }) (tests s0 refl)
      (more s1 s2 (record s0 { poll = ended }) (swaps s1 refl)
        (more s2 s3 (record s0 { poll = ended }) (submitted s2 refl refl)
          (more s3 (record s0 { poll = ended }) (record s0 { poll = ended })
            (subst (λ p. Step A s3 (record s0 { poll = p })) none_active (gets_fds s3 refl))
            (stay (record s0 { poll = ended })))))

-- The poll thread may take its first turn before the first query: it then ends without having been
-- stopped, and the query that comes next is never resumed, whatever steps follow.
pub late_query :
    (A : Ares) (w : ℕ → AsyncQueryAwaiter) (a h : ℕ)
    → (s : AsyncResolver) × Steps A (init w) s
      × (s.stop_requested ≡ false)
      × (s.asked ≡ [])
      × ((t : AsyncResolver) → Steps A (push_query a h s) t → count a t.resumed ≡ 0)
late_query A w a h =
    let s = record (init w) { poll = ended } in
    (
      s,
      idle_turn A w,
      refl,
      refl,
      λ t xs. omega (
        arith,
        ended-answers A (push_query a h s) t a xs refl,
        recipients_nil (indicator a),
        weigh_nil (indicator a),
      ),
    )
