-- ===== src/Resolver/Progress.antt =====
-- The resolver of include/http/resolver.hpp goes on as long as there is a query without an answer.
use libcoio.Base.{
  ℕ, zero, suc, ◌+◌, ◌%◌, ◌^◌, ◌<◌, ◌≡◌, refl, ap, ◌∙◌, ◌≢◌, ◌⊎◌, inl, inr, Bool, true, false, List,
  [], ◌∷◌, ◌++◌, arith, ◌==◌, ==_iff, Bool-cases, length,
}
use libcoio.Resolver.{
  swapped, AsyncResolver, AsyncQueryAwaiter, init, Ares, Step, wakes, tests, swaps, starts,
  submitted, gets_fds, processed, loads, awakens, Steps, blocked, Poll, looping, taking, submitting,
  polling, processing, deciding, ended, after_fds, after_load, after_stop_token,
}
use libcoio.Resolver.Weights.{count, recipients}
use libcoio.Resolver.Pending.{sleeps-answered}

-- A step that asks nothing new: the poll thread moves on, hands a query to c-ares, or a wakeup comes.
abbrev pub GoesOn : Ares → AsyncResolver → Type 0
GoesOn A t =
    (u : AsyncResolver) × Step A t u
    × (u.asked ≡ t.asked)
    × ((u.poll ≢ t.poll) ⊎ ((u.unwoken < t.unwoken) ⊎ (length u.qlist < length t.qlist)))

-- All that was asked is posted or resumed.
abbrev pub AllAnswered : AsyncResolver → Type 0
AllAnswered t = (a : ℕ) → count a t.asked ≡ count a (recipients t.posted) + count a t.resumed

moves_to :
    (A : Ares) (t : AsyncResolver) (p q : Poll)
    → t.poll ≡ p
    → q ≢ p
    → Step A t (record t { poll = q })
    → GoesOn A t
moves_to A t p q e apart step = (record t { poll = q }, step, refl, inl (λ x. apart (x ∙ e)))

loop_step :
    (A : Ares) (t : AsyncResolver) (b : Bool) → t.poll ≡ looping → t.stop_requested ≡ b → GoesOn A t
loop_step A t true e s =
    moves_to A t looping (after_stop_token t.stop_requested) e (rw s (λ x. cc (x))) (tests t e)
loop_step A t false e s =
    moves_to A t looping (after_stop_token t.stop_requested) e (rw s (λ x. cc (x))) (tests t e)

submit_step :
    (A : Ares) (t : AsyncResolver) (q : List ℕ) → t.poll ≡ submitting → t.qlist ≡ q → GoesOn A t
submit_step A t [] e s = moves_to A t submitting polling e (λ x. cc (x)) (submitted t e s)
submit_step A t (a ∷ q) e s = (
  record t { qlist = q; channel = t.channel ++ (a ∷ []) },
  starts t a q e s,
  refl,
  inr (inr (omega (arith, ap length s))),
)

fds_step : (A : Ares) (t : AsyncResolver) → t.poll ≡ polling → GoesOn A t
fds_step A t e = elim (Bool-cases (A.ares_fds t.channel == 0)) [
  | inl z ↦
      moves_to A t polling (after_fds (A.ares_fds t.channel)) e (rw z (λ x. cc (x))) (gets_fds t e)
  | inr z ↦
      moves_to A t polling (after_fds (A.ares_fds t.channel)) e (rw z (λ x. cc (x))) (gets_fds t e)
]

load_step : (A : Ares) (t : AsyncResolver) → t.poll ≡ deciding → GoesOn A t
load_step A t e = elim (Bool-cases (t.m_pending_cnt == 0)) [
  | inl z ↦ moves_to A t deciding (after_load t.m_pending_cnt) e (rw z (λ x. cc (x))) (loads t e)
  | inr z ↦ moves_to A t deciding (after_load t.m_pending_cnt) e (rw z (λ x. cc (x))) (loads t e)
]

blocked_step :
    (A : Ares) (t : AsyncResolver) (n : ℕ)
    → (t.m_pending_cnt ≡ 0 → t.unwoken ≡ 0 → AllAnswered t)
    → t.poll ≡ blocked
    → t.unwoken ≡ n
    → GoesOn A t ⊎ AllAnswered t
blocked_step A t (suc n) idle e w = inl (
  record t { unwoken = n; m_pending_cnt = (t.m_pending_cnt + 1) % 2 ^ 64 },
  wakes t n w,
  refl,
  inr (inl (omega (arith, w))),
)
blocked_step A t zero idle e w = elim (Bool-cases (t.m_pending_cnt == 0)) [
  | inl z ↦ inr (idle ((==_iff t.m_pending_cnt 0).0 z) w)
  | inr z ↦ inl (
      moves_to A t blocked looping e (λ x. cc (x))
        (awakens t e (λ c. cc (z, (==_iff t.m_pending_cnt 0).1 c))))
]

by_place :
    (A : Ares) (t : AsyncResolver) (p : Poll)
    → (t.poll ≡ blocked → t.m_pending_cnt ≡ 0 → t.unwoken ≡ 0 → AllAnswered t)
    → t.poll ≡ p
    → (t.poll ≡ ended) ⊎ (GoesOn A t ⊎ AllAnswered t)
by_place A t looping idle e = inr (inl (loop_step A t t.stop_requested e refl))
by_place A t taking idle e = inr (
    inl (
      record t {
        qlist = (swapped t.qlist t.m_query_list).0;
        m_query_list = (swapped t.qlist t.m_query_list).1;
        poll = submitting;
      },
      swaps t e,
      refl,
      inl (λ x. let z : submitting ≡ taking = x ∙ e in cc (z)),
    ))
by_place A t submitting idle e = inr (inl (submit_step A t t.qlist e refl))
by_place A t polling idle e = inr (inl (fds_step A t e))
by_place A t processing idle e =
    inr (inl (moves_to A t processing deciding e (λ x. cc (x)) (processed t e)))
by_place A t deciding idle e = inr (inl (load_step A t e))
by_place A t blocked idle e = inr (blocked_step A t t.unwoken (idle e) e refl)
by_place A t ended idle e = inl e

-- After any steps, with fewer than 2^64 - 1 queries asked: unless the poll thread has ended or all that was
-- asked is answered, a step is possible that asks nothing new, and with it the poll thread moves on, hands
-- a query to c-ares or a wakeup comes. No interleaving leaves the thread asleep over an open query.
pub reached-GoesOn :
    (A : Ares) (w : ℕ → AsyncQueryAwaiter) (t : AsyncResolver)
    → Steps A (init w) t
    → length t.asked + 1 < 2 ^ 64
    → (t.poll ≡ ended) ⊎ (GoesOn A t ⊎ AllAnswered t)
reached-GoesOn A w t xs small =
    by_place A t t.poll (λ b c n a. (sleeps-answered A w t xs b c n small a).1) refl
