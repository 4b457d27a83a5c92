-- ===== src/Future/Race.antt =====
-- The hand-over of include/future.hpp under every interleaving of the two sides.
use libcoio.Base.{ℕ, ◌+◌, ◌≤◌, ◌≡◌, refl, ◌≢◌, Bool, true, false, not, Option, some, arith}
use libcoio.Outcome.{Outcome, returned, threw}
use libcoio.Future.{
  Variant, monostate, value, exception, FuturePromise, fresh, result, Awaiter, resuming, storing,
  exchanging, suspended, going_on, Body, running, finishing, waking, ended, State, started, Step,
  body_returns, body_throws, final_exchange, final_resume, resume_returns, stores, exchanges, Steps,
  stay, more, after_suspend, after_final, wake,
}

-- Before the exchange of the one who waits.
abbrev pub Early : Body → Bool → ℕ → Type 0
Early running b n = (b ≡ false) × (n ≡ 0)
Early finishing b n = (b ≡ false) × (n ≡ 0)
Early waking b n = true ≡ false
Early ended b n = (b ≡ true) × (n ≡ 0)

-- While it is suspended.
abbrev pub Asleep : Body → Bool → ℕ → Type 0
Asleep ended b n = true ≡ false
Asleep _ b n = (b ≡ true) × (n ≡ 0)

abbrev pub Together : ℕ → Awaiter → Body → Bool → Option ℕ → ℕ → Type 0
Together k resuming body b c n = Early body b n
Together k storing body b c n = Early body b n
Together k exchanging body b c n = Early body b n × (c ≡ some k)
Together k suspended body b c n = Asleep body b n × (c ≡ some k)
Together k going_on body b c n = (body ≡ ended) × (n ≤ 1)

-- The result is there once the body has been left.
abbrev pub HasResult : {T : Type 0} → Body → Variant T → Type 0
HasResult running r = Unit
HasResult _ r = r ≢ monostate

-- What holds between two steps.
pub record IsValid {T : Type 0} (k : ℕ) (s : State T) : Type 0 where
  pub together : Together k s.awaiter s.body s.promise.m_state s.promise.m_continuation s.resumed
  pub has_result : HasResult s.body s.promise.m_result

leave_body :
    (k : ℕ) (a : Awaiter) (b : Bool) (c : Option ℕ) (n : ℕ)
    → Together k a running b c n
    → Together k a finishing b c n
leave_body k resuming b c n h = h
leave_body k storing b c n h = h
leave_body k exchanging b c n h = h
leave_body k suspended b c n h = h
leave_body k going_on b c n h = cc (h.0)

final_step :
    (k : ℕ) (a : Awaiter) (b : Bool) (c : Option ℕ) (n : ℕ)
    → Together k a finishing b c n
    → Together k a (after_final b) true c n
final_step k resuming b c n h = rw h.0 (refl, h.1)
final_step k storing b c n h = rw h.0 (refl, h.1)
final_step k exchanging b c n h = rw h.0.0 ((refl, h.0.1), h.1)
final_step k suspended b c n h = rw h.0.0 ((refl, h.0.1), h.1)
final_step k going_on b c n h = cc (h.0)

wake_step :
    (k : ℕ) (a : Awaiter) (b : Bool) (c : Option ℕ) (n : ℕ)
    → Together k a waking b c n
    → Together k (wake a) ended b c (n + 1)
wake_step k resuming b c n h = cc (h)
wake_step k storing b c n h = cc (h)
wake_step k exchanging b c n h = cc (h.0)
wake_step k suspended b c n h = (refl, omega (arith, h.0.1))
wake_step k going_on b c n h = cc (h.0)

exchange_step :
    (k : ℕ) (body : Body) (b : Bool) (c : Option ℕ) (n : ℕ)
    → Together k exchanging body b c n
    → Together k (after_suspend (not b)) body true c n
exchange_step k running b c n h = rw h.0.0 ((refl, h.0.1), h.1)
exchange_step k finishing b c n h = rw h.0.0 ((refl, h.0.1), h.1)
exchange_step k waking b c n h = cc (h.0)
exchange_step k ended b c n h = rw h.0.0 (refl, omega (arith, h.0.1))

after_final-HasResult :
    {T : Type 0} (b : Bool) (r : Variant T) → HasResult finishing r → HasResult (after_final b) r
after_final-HasResult true r h = h
after_final-HasResult false r h = h

Step-IsValid : {T : Type 0} (k : ℕ) (s t : State T) → Step k s t → IsValid k s → IsValid k t
Step-IsValid k _ _ (body_returns s v e) h = record {
  together =
      leave_body k s.awaiter s.promise.m_state s.promise.m_continuation s.resumed
        (rw e at h.together);
  has_result = λ q. cc (q);
}
Step-IsValid k _ _ (body_throws s x e) h = record {
  together =
      leave_body k s.awaiter s.promise.m_state s.promise.m_continuation s.resumed
        (rw e at h.together);
  has_result = λ q. cc (q);
}
Step-IsValid k _ _ (final_exchange s e) h = record {
  together =
      final_step k s.awaiter s.promise.m_state s.promise.m_continuation s.resumed
        (rw e at h.together);
  has_result = after_final-HasResult s.promise.m_state s.promise.m_result (rw e at h.has_result);
}
Step-IsValid k _ _ (final_resume s x e q) h = record {
  together =
      wake_step k s.awaiter s.promise.m_state s.promise.m_continuation s.resumed
        (rw e at h.together);
  has_result = rw e at h.has_result;
}
Step-IsValid k _ _ (resume_returns s e) h = record {
  together = rw e at h.together;
  has_result = h.has_result;
}
Step-IsValid k _ _ (stores s e) h = record {
  together = (rw e at h.together, refl);
  has_result = h.has_result;
}
Step-IsValid k _ _ (exchanges s e) h = record {
  together =
      exchange_step k s.body s.promise.m_state s.promise.m_continuation s.resumed
        (rw e at h.together);
  has_result = h.has_result;
}

pub Steps-IsValid : {T : Type 0} (k : ℕ) (s t : State T) → Steps k s t → IsValid k s → IsValid k t
Steps-IsValid k _ _ (stay s) h = h
Steps-IsValid k _ _ (more s u t l m) h = Step-IsValid k u t m (Steps-IsValid k s u l h)

pub started-IsValid : (T : Type 0) (k : ℕ) → IsValid k (started T)
unfolding fresh
started-IsValid T k = record { together = (refl, refl); has_result = tt }

-- A waiting coroutine goes on once: whatever the order of the steps, `resume` is called at most once on
-- its handle, never on a null handle and never on a coroutine that is not suspended, and when it goes
-- on the awaited coroutine has ended, with a result that `get` gives.
abbrev pub HandsOver : {T : Type 0} → ℕ → State T → Type 0
HandsOver {T} k s =
    (s.resumed ≤ 1)
    × (s.body ≡ waking → (s.promise.m_continuation ≡ some k) × (s.awaiter ≡ suspended))
    × (s.awaiter ≡ going_on → (s.body ≡ ended) × ((o : Outcome T) × (result s.promise ≡ some o)))

result_of :
    {T : Type 0} (p : FuturePromise T) (r : Variant T)
    → p.m_result ≡ r
    → r ≢ monostate
    → (o : Outcome T) × (result p ≡ some o)
unfolding result
result_of p monostate e h = absurd (h refl)
result_of p (value v) e h = (returned v, rw e refl)
result_of p (exception x) e h = (threw x, rw e refl)

once :
    (k : ℕ) (a : Awaiter) (body : Body) (b : Bool) (c : Option ℕ) (n : ℕ)
    → Together k a body b c n
    → n ≤ 1
once k resuming running b c n h = omega (arith, h.1)
once k resuming finishing b c n h = omega (arith, h.1)
once k resuming waking b c n h = cc (h)
once k resuming ended b c n h = omega (arith, h.1)
once k storing running b c n h = omega (arith, h.1)
once k storing finishing b c n h = omega (arith, h.1)
once k storing waking b c n h = cc (h)
once k storing ended b c n h = omega (arith, h.1)
once k exchanging running b c n h = omega (arith, h.0.1)
once k exchanging finishing b c n h = omega (arith, h.0.1)
once k exchanging waking b c n h = cc (h.0)
once k exchanging ended b c n h = omega (arith, h.0.1)
once k suspended running b c n h = omega (arith, h.0.1)
once k suspended finishing b c n h = omega (arith, h.0.1)
once k suspended waking b c n h = omega (arith, h.0.1)
once k suspended ended b c n h = cc (h.0)
once k going_on body b c n h = h.1

waking_knows :
    (k : ℕ) (a : Awaiter) (b : Bool) (c : Option ℕ) (n : ℕ)
    → Together k a waking b c n
    → (c ≡ some k) × (a ≡ suspended)
waking_knows k resuming b c n h = cc (h)
waking_knows k storing b c n h = cc (h)
waking_knows k exchanging b c n h = cc (h.0)
waking_knows k suspended b c n h = (h.1, refl)
waking_knows k going_on b c n h = cc (h.0)

-- In every state that the steps reach from the start of the awaited coroutine, `resume` has been called
-- at most once on the waiting coroutine; when it is about to be called, the handle is that of the
-- coroutine and the coroutine is suspended; and when the coroutine goes on, the awaited one has ended
-- and `get` gives its value or its exception.
pub Steps-HandsOver : {T : Type 0} (k : ℕ) (s : State T) → Steps k (started T) s → HandsOver k s
Steps-HandsOver {T} k s l =
    let v = Steps-IsValid k (started T) s l (started-IsValid T k) in
    (
      once k s.awaiter s.body s.promise.m_state s.promise.m_continuation s.resumed v.together,
      (λ e.
          waking_knows k s.awaiter s.promise.m_state s.promise.m_continuation s.resumed
            (rw e at v.together)),
      (λ e.
          let t : Together k going_on s.body s.promise.m_state s.promise.m_continuation s.resumed =
            rw e at v.together in
          (t.0, result_of s.promise s.promise.m_result refl (rw t.0 at v.has_result))),
    )
