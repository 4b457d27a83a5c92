-- ===== src/Resolver/Pending.antt =====
-- The count of include/http/resolver.hpp that the poll thread sleeps on.
use libcoio.Base.{
  ℕ, suc, ◌+◌, ◌-◌, ◌%◌, ◌^◌, ◌<◌, ◌≡◌, refl, ap, inl, inr, false, arith, if◌then◌else◌, Bool-cases,
  length,
}
use libcoio.Resolver.{
  AsyncResolver, AsyncQueryAwaiter, init, Ares, Step, asks, wakes, stops, runs, tests, swaps,
  starts, answers_at_once, submitted, gets_fds, answers, processed, loads, awakens, Steps, stay,
  more, blocked,
}
use libcoio.Resolver.Weights.{
  swapped_lem, weigh, count, weigh_nil, weigh_cons, weigh_last, weigh_middle, weigh_zero, indicator,
  recipients, length-eq-weigh,
}
use libcoio.Resolver.Once.{open_weight, reached-IsConserved}

-- The queries that have not been answered, and one for a destructor that has begun.
abbrev pub to_do : AsyncResolver → ℕ
to_do s = open_weight (λ _. 1) s + (if s.stop_requested then 1 else 0)

abbrev pub Counted : ℕ → ℕ → ℕ → Type 0
Counted c n d = (c + n) % 2 ^ 64 ≡ d % 2 ^ 64

-- The count and the wakeups to come are what there is to do, in 64 bits.
pub record IsCounted (s : AsyncResolver) : Type 0 where
  pub counted : Counted s.m_pending_cnt s.unwoken (to_do s)
  pub small : s.m_pending_cnt < 2 ^ 64

-- `fetch_add` and `fetch_sub`.
add_one : (c n d : ℕ) → Counted c (suc n) d → Counted ((c + 1) % 2 ^ 64) n d
add_one c n d h = omega (arith, h)

one_more : (c n d e : ℕ) → e ≡ d + 1 → Counted c n d → Counted c (n + 1) e
one_more c n d e q h = omega (arith, h, q)

sub_one : (c n d e : ℕ) → d ≡ e + 1 → Counted c n d → Counted ((c + 2 ^ 64 - 1) % 2 ^ 64) n e
sub_one c n d e q h = omega (arith, h, q)

recount : (c n d e : ℕ) → e ≡ d → Counted c n d → Counted c n e
recount c n d e q h = rw q h

below : (c : ℕ) → c % 2 ^ 64 < 2 ^ 64
below c = omega arith

moves :
    (s t : AsyncResolver)
    → t.m_pending_cnt ≡ s.m_pending_cnt
    → t.unwoken ≡ s.unwoken
    → to_do t ≡ to_do s
    → IsCounted s
    → IsCounted t
moves s t c n d v = record { counted = rw (c, n, d) v.counted; small = rw c v.small }

Step-IsCounted : (A : Ares) (s t : AsyncResolver) → Step A s t → IsCounted s → IsCounted t
Step-IsCounted A _ t (asks s a h) v = record {
  counted =
      one_more s.m_pending_cnt s.unwoken (to_do s) (to_do t)
        (omega (arith, weigh_last (λ _. 1) s.m_query_list a)) v.counted;
  small = v.small;
}
Step-IsCounted A _ _ (wakes s n e) v = record {
  counted = add_one s.m_pending_cnt n (to_do s) (rw e at v.counted);
  small = below (s.m_pending_cnt + 1);
}
Step-IsCounted A _ t (stops s e) v = record {
  counted = one_more s.m_pending_cnt s.unwoken (to_do s) (to_do t) (rw e (omega arith)) v.counted;
  small = v.small;
}
Step-IsCounted A _ _ (runs s x xs ys e) v = record { counted = v.counted; small = v.small }
Step-IsCounted A _ _ (tests s e) v = record { counted = v.counted; small = v.small }
Step-IsCounted A _ t (swaps s e) v =
    moves s t refl refl (omega (arith, swapped_lem (λ _. 1) s.qlist s.m_query_list)) v
Step-IsCounted A _ t (starts s a q e d) v =
    moves s t refl refl
      (omega
        (arith, weigh_last (λ _. 1) s.channel a, ap (weigh (λ _. 1)) d, weigh_cons (λ _. 1) a q))
      v
Step-IsCounted A _ t (answers_at_once s x q e d) v = record {
  counted =
      sub_one s.m_pending_cnt s.unwoken (to_do s) (to_do t)
        (omega (arith, ap (weigh (λ _. 1)) d, weigh_cons (λ _. 1) x.awaiter q)) v.counted;
  small = below (s.m_pending_cnt + 2 ^ 64 - 1);
}
Step-IsCounted A _ _ (submitted s e d) v = record { counted = v.counted; small = v.small }
Step-IsCounted A _ _ (gets_fds s e) v = record { counted = v.counted; small = v.small }
Step-IsCounted A _ t (answers s x c d e q) v = record {
  counted =
      sub_one s.m_pending_cnt s.unwoken (to_do s) (to_do t)
        (omega (arith, ap (weigh (λ _. 1)) q, weigh_middle (λ _. 1) c d x.awaiter)) v.counted;
  small = below (s.m_pending_cnt + 2 ^ 64 - 1);
}
Step-IsCounted A _ _ (processed s e) v = record { counted = v.counted; small = v.small }
Step-IsCounted A _ _ (loads s e) v = record { counted = v.counted; small = v.small }
Step-IsCounted A _ _ (awakens s e d) v = record { counted = v.counted; small = v.small }

Steps-IsCounted : (A : Ares) (s t : AsyncResolver) → Steps A s t → IsCounted s → IsCounted t
Steps-IsCounted A _ _ (stay s) v = v
Steps-IsCounted A _ _ (more s t u x xs) v = Steps-IsCounted A t u xs (Step-IsCounted A s t x v)

init-IsCounted : (w : ℕ → AsyncQueryAwaiter) → IsCounted (init w)
init-IsCounted w = record { counted = rw (weigh_nil (λ _. 1)) refl; small = omega arith }

-- After any steps, the count of the resolver and the calls of try_wakeup still to come add up, in 64 bits,
-- to the number of queries without an answer, and one more when the destructor has begun.
pub reached-counted :
    (A : Ares) (w : ℕ → AsyncQueryAwaiter) (t : AsyncResolver)
    → Steps A (init w) t
    → (t.m_pending_cnt + t.unwoken) % 2 ^ 64
      ≡ (length t.m_query_list
          + length t.qlist
          + length t.channel
          + (if t.stop_requested then 1 else 0))
        % 2 ^ 64
reached-counted A w t xs =
    rw (length-eq-weigh t.m_query_list, length-eq-weigh t.qlist, length-eq-weigh t.channel)
      (Steps-IsCounted A (init w) t xs (init-IsCounted w)).counted

nothing_to_do :
    (t : AsyncResolver)
    → t.m_pending_cnt ≡ 0
    → t.unwoken ≡ 0
    → open_weight (λ _. 1) t + 1 < 2 ^ 64
    → Counted t.m_pending_cnt t.unwoken (to_do t)
    → (open_weight (λ _. 1) t ≡ 0) × (t.stop_requested ≡ false)
nothing_to_do t c n small h = elim (Bool-cases t.stop_requested) [
  | inl e ↦
      let h' : Counted t.m_pending_cnt t.unwoken (open_weight (λ _. 1) t + 1) = rw e at h in
      absurd (omega (arith, h', small, c, n))
  | inr e ↦
      let h' : Counted t.m_pending_cnt t.unwoken (open_weight (λ _. 1) t + 0) = rw e at h in
      (omega (arith, h', small, c, n), e)
]

-- When the poll thread sleeps, the count is zero and no wakeup is still to come, every query has been
-- answered: all that were asked are posted to their contexts or resumed. It is asked fewer than 2^64 - 1
-- times.
pub sleeps-answered :
    (A : Ares) (w : ℕ → AsyncQueryAwaiter) (t : AsyncResolver)
    → Steps A (init w) t
    → t.poll ≡ blocked
    → t.m_pending_cnt ≡ 0
    → t.unwoken ≡ 0
    → length t.asked + 1 < 2 ^ 64
    → (a : ℕ)
    → (t.stop_requested ≡ false)
      × (count a t.asked ≡ count a (recipients t.posted) + count a t.resumed)
sleeps-answered A w t xs b c n small a =
    let one : ℕ → ℕ = λ _. 1 in
    let v = reached-IsConserved A w t xs in
    let balance = (Steps-IsCounted A (init w) t xs (init-IsCounted w)).counted in
    let (idle, go_on) =
      nothing_to_do t c n (omega (arith, small, length-eq-weigh t.asked, v.whole one)) balance in
    (
      go_on,
      omega (
        arith,
        v.whole (indicator a),
        weigh_zero (indicator a) t.m_query_list (omega (arith, idle)),
        weigh_zero (indicator a) t.qlist (omega (arith, idle)),
        weigh_zero (indicator a) t.channel (omega (arith, idle)),
      ),
    )
