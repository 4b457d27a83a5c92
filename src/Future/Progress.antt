-- ===== src/Future/Progress.antt =====
-- The hand-over of include/future.hpp ends, and wakes the one who waits.
use libcoio.Base.{
  ℕ, suc, ◌+◌, ◌≤◌, ◌<◌, ◌≡◌, refl, ap, ◌⊎◌, inl, inr, Bool, true, false, not, arith,
}
use libcoio.Outcome.{logic_error}
use libcoio.Future.{
  Awaiter, resuming, storing, exchanging, suspended, going_on, Body, running, finishing, waking,
  ended, State, started, Step, body_returns, body_throws, final_exchange, final_resume,
  resume_returns, stores, exchanges, Steps, stay, more, after_suspend, after_final, wake,
}
use libcoio.Future.Race.{IsValid, Together, Steps-IsValid, started-IsValid}

abbrev awaiter_left : Awaiter → ℕ
awaiter_left resuming = 3
awaiter_left storing = 2
awaiter_left exchanging = 1
awaiter_left suspended = 0
awaiter_left going_on = 0

abbrev body_left : Body → ℕ
body_left running = 3
body_left finishing = 2
body_left waking = 1
body_left ended = 0

-- The steps that are left at most.
abbrev left : {T : Type 0} → State T → ℕ
left s = awaiter_left s.awaiter + body_left s.body

abbrev pub count : {T : Type 0} {k : ℕ} {s t : State T} → Steps k s t → ℕ
count (stay s) = 0
count (more s t u l m) = suc (count l)

after_final_left : (b : Bool) → body_left (after_final b) ≤ 1
after_final_left true = omega arith
after_final_left false = omega arith

after_suspend_left : (b : Bool) → awaiter_left (after_suspend b) ≡ 0
after_suspend_left true = refl
after_suspend_left false = refl

wake_left : (a : Awaiter) → awaiter_left (wake a) ≤ awaiter_left a
wake_left resuming = omega arith
wake_left storing = omega arith
wake_left exchanging = omega arith
wake_left suspended = omega arith
wake_left going_on = omega arith

Step-left : {T : Type 0} (k : ℕ) (s t : State T) → Step k s t → left t < left s
Step-left k _ _ (body_returns s v e) = omega (arith, ap body_left e)
Step-left k _ _ (body_throws s x e) = omega (arith, ap body_left e)
Step-left k _ _ (final_exchange s e) =
    omega (arith, ap body_left e, after_final_left s.promise.m_state)
Step-left k _ _ (final_resume s x e q) = omega (arith, ap body_left e, wake_left s.awaiter)
Step-left k _ _ (resume_returns s e) = omega (arith, ap awaiter_left e)
Step-left k _ _ (stores s e) = omega (arith, ap awaiter_left e)
Step-left k _ _ (exchanges s e) =
    omega (arith, ap awaiter_left e, after_suspend_left (not s.promise.m_state))

count-left : {T : Type 0} (k : ℕ) (s t : State T) (l : Steps k s t) → count l + left t ≤ left s
count-left k _ _ (stay s) = omega arith
count-left k _ _ (more s t u l m) = omega (arith, count-left k s t l, Step-left k t u m)

abbrev Moves : {T : Type 0} → ℕ → State T → Type 0
Moves {T} k s = (t : State T) × Step k s t

body-Moves :
    {T : Type 0} (k : ℕ) (s : State T) (b : Body)
    → s.body ≡ b
    → s.awaiter ≡ suspended
    → IsValid k s
    → Moves k s
body-Moves k s running e a v = (_, body_throws s logic_error e)
body-Moves k s finishing e a v = (_, final_exchange s e)
body-Moves k s waking e a v =
    let t : Together k suspended waking s.promise.m_state s.promise.m_continuation s.resumed =
      rw (a, e) at v.together in
    (_, final_resume s k e t.1)
body-Moves k s ended e a v =
    let t : Together k suspended ended s.promise.m_state s.promise.m_continuation s.resumed =
      rw (a, e) at v.together in
    cc (t.0)

moves :
    {T : Type 0} (k : ℕ) (s : State T) (a : Awaiter)
    → s.awaiter ≡ a
    → IsValid k s
    → (s.awaiter ≡ going_on) ⊎ Moves k s
moves k s resuming e v = inr (_, resume_returns s e)
moves k s storing e v = inr (_, stores s e)
moves k s exchanging e v = inr (_, exchanges s e)
moves k s suspended e v = inr (body-Moves k s s.body refl e v)
moves k s going_on e v = inl e

-- No wakeup is lost: a run from the start of the awaited coroutine has six steps at most, and in the
-- state that it reaches the waiting coroutine goes on or a further step is possible.
pub Steps-progress :
    {T : Type 0} (k : ℕ) (s : State T) (l : Steps k (started T) s)
    → (count l ≤ 6) × ((s.awaiter ≡ going_on) ⊎ ((t : State T) × Step k s t))
Steps-progress {T} k s l = (
  omega (arith, count-left k (started T) s l),
  moves k s s.awaiter refl (Steps-IsValid k (started T) s l (started-IsValid T k)),
)
