-- ===== src/Resolver/Once.antt =====
-- No query of include/http/resolver.hpp is lost or answered twice, and the count of the wakeups agrees
-- with what there is to do.
use libcoio.Base.{
  ◌++◌, ℕ, ◌+◌, ◌≡◌, refl, ap, ◌∙◌, ◌⊎◌, inl, inr, some, List, ◌∷◌, arith, ◌==◌, ==_iff, Bool-cases,
}
use mathlib.Core.Path.{subst}
use libcoio.Resolver.{
  Answer, AsyncResolver, AsyncQueryAwaiter, init, Ares, Step, asks, wakes, stops, runs, tests,
  swaps, starts, answers_at_once, submitted, gets_fds, answers, processed, loads, awakens, Steps,
  stay, more, push_query, run_posted,
}
use libcoio.Resolver.Weights.{
  swapped_lem, weigh, indicator, count, indicator_self, weigh_nil, weigh_cons, weigh_last,
  weigh_middle, recipients, recipients_nil, recipients_middle, recipients_last,
}

-- The queries that have not been answered.
abbrev pub open_weight : (ℕ → ℕ) → AsyncResolver → ℕ
open_weight f s = weigh f s.m_query_list + weigh f s.qlist + weigh f s.channel

abbrev pub Whole : AsyncResolver → Type 0
Whole s =
    (f : ℕ → ℕ)
    → weigh f s.asked ≡ open_weight f s + weigh f (recipients s.posted) + weigh f s.resumed

-- Every awaiter that has been asked for has its handle.
abbrev pub Handled : (ℕ → AsyncQueryAwaiter) → List ℕ → Type 0
Handled w xs = (a : ℕ) → (count a xs ≡ 0) ⊎ ((h : ℕ) × ((w a).handle ≡ some h))

push_query-Handled :
    (a h : ℕ) (s : AsyncResolver)
    → Handled s.awaiters s.asked
    → Handled (push_query a h s).awaiters (push_query a h s).asked
push_query-Handled a h s old b = elim (Bool-cases (b == a)) [
  | inl e ↦ inr (h, rw e refl)
  | inr e ↦ elim (old b) [
    | inl z ↦ inl (
        let other : indicator b a ≡ 0 = rw e refl in
        omega (arith, weigh_cons (indicator b) a s.asked, other, z))
    | inr (g, y) ↦ inr (g, rw e y)
  ]
]

run_posted-Handled :
    (x : Answer) (xs : List Answer) (s : AsyncResolver)
    → Handled s.awaiters s.asked
    → Handled (run_posted x xs s).awaiters s.asked
run_posted-Handled x xs s old b = elim (Bool-cases (b == x.awaiter)) [
  | inl e ↦ elim (old b) [
    | inl z ↦ inl z
    | inr (g, y) ↦
        inr (g, rw e (subst (λ c. (s.awaiters c).handle ≡ some g) ((==_iff b x.awaiter).0 e) y))
  ]
  | inr e ↦ rw e (old b)
]

-- A task that is posted finds the handle of its awaiter.
posted_handle :
    (x : Answer) (xs ys : List Answer) (s : AsyncResolver)
    → s.posted ≡ xs ++ (x ∷ ys)
    → Whole s
    → Handled s.awaiters s.asked
    → (h : ℕ) × ((s.awaiters x.awaiter).handle ≡ some h)
posted_handle x xs ys s p whole handled = elim (handled x.awaiter) [
  | inl z ↦
      let f = indicator x.awaiter in
      let sum = ap (λ ys. weigh f (recipients ys)) p ∙ recipients_middle f xs x ys in
      absurd (omega (arith, whole f, z, sum, indicator_self x.awaiter))
  | inr y ↦ y
]

run_posted-Whole :
    (x : Answer) (xs ys : List Answer) (s : AsyncResolver)
    → s.posted ≡ xs ++ (x ∷ ys)
    → Whole s
    → Handled s.awaiters s.asked
    → Whole (run_posted x (xs ++ ys) s)
run_posted-Whole x xs ys s p whole handled f =
    let (h, e) = posted_handle x xs ys s p whole handled in
    let sum = ap (λ ys. weigh f (recipients ys)) p ∙ recipients_middle f xs x ys in
    rw e (omega (arith, whole f, sum, weigh_cons f x.awaiter s.resumed))

-- What was asked is in one place, and can be resumed.
pub record IsConserved (s : AsyncResolver) : Type 0 where
  pub whole : Whole s
  pub handled : Handled s.awaiters s.asked

Step-IsConserved : (A : Ares) (s t : AsyncResolver) → Step A s t → IsConserved s → IsConserved t
Step-IsConserved A _ _ (asks s a h) v = record {
  whole = λ f. omega (arith, v.whole f, weigh_last f s.m_query_list a, weigh_cons f a s.asked);
  handled = push_query-Handled a h s v.handled;
}
Step-IsConserved A _ _ (wakes s n e) v = record { whole = v.whole; handled = v.handled }
Step-IsConserved A _ _ (stops s e) v = record { whole = v.whole; handled = v.handled }
Step-IsConserved A _ _ (runs s x xs ys e) v = record {
  whole = run_posted-Whole x xs ys s e v.whole v.handled;
  handled = run_posted-Handled x (xs ++ ys) s v.handled;
}
Step-IsConserved A _ _ (tests s e) v = record { whole = v.whole; handled = v.handled }
Step-IsConserved A _ _ (swaps s e) v = record {
  whole = λ f. omega (arith, v.whole f, swapped_lem f s.qlist s.m_query_list);
  handled = v.handled;
}
Step-IsConserved A _ _ (starts s a q e d) v = record {
  whole = λ f. omega (arith, v.whole f, weigh_last f s.channel a, ap (weigh f) d, weigh_cons f a q);
  handled = v.handled;
}
Step-IsConserved A _ _ (answers_at_once s x q e d) v = record {
  whole = λ f.
      omega
        (arith, v.whole f, recipients_last f s.posted x, ap (weigh f) d, weigh_cons f x.awaiter q);
  handled = v.handled;
}
Step-IsConserved A _ _ (submitted s e d) v = record { whole = v.whole; handled = v.handled }
Step-IsConserved A _ _ (gets_fds s e) v = record { whole = v.whole; handled = v.handled }
Step-IsConserved A _ _ (answers s x c d e q) v = record {
  whole = λ f. omega (
    arith,
    v.whole f,
    recipients_last f s.posted x,
    ap (weigh f) q,
    weigh_middle f c d x.awaiter,
  );
  handled = v.handled;
}
Step-IsConserved A _ _ (processed s e) v = record { whole = v.whole; handled = v.handled }
Step-IsConserved A _ _ (loads s e) v = record { whole = v.whole; handled = v.handled }
Step-IsConserved A _ _ (awakens s e d) v = record { whole = v.whole; handled = v.handled }

init-IsConserved : (w : ℕ → AsyncQueryAwaiter) → IsConserved (init w)
init-IsConserved w = record {
  whole = λ f. omega (arith, weigh_nil f, recipients_nil f);
  handled = λ a. inl (weigh_nil (indicator a));
}

Steps-IsConserved : (A : Ares) (s t : AsyncResolver) → Steps A s t → IsConserved s → IsConserved t
Steps-IsConserved A _ _ (stay s) v = v
Steps-IsConserved A _ _ (more s t u x xs) v =
    Steps-IsConserved A t u xs (Step-IsConserved A s t x v)

pub reached-IsConserved :
    (A : Ares) (w : ℕ → AsyncQueryAwaiter) (t : AsyncResolver) → Steps A (init w) t → IsConserved t
reached-IsConserved A w t xs = Steps-IsConserved A (init w) t xs (init-IsConserved w)

-- However the threads run, each query is as often in the lists of the resolver, in c-ares, in the posted
-- tasks and among the resumed coroutines together as it was asked: it is neither lost nor answered twice.
pub each_query_once :
    (A : Ares) (w : ℕ → AsyncQueryAwaiter) (t : AsyncResolver)
    → Steps A (init w) t
    → (a : ℕ)
    → count a t.asked
      ≡ count a t.m_query_list
        + count a t.qlist
        + count a t.channel
        + count a (recipients t.posted)
        + count a t.resumed
each_query_once A w t xs a = (reached-IsConserved A w t xs).whole (indicator a)
