-- ===== src/IoAwaiter/Delivery.antt =====
-- A result of io_uring reaches the coroutine that waits for it: include/io_context.hpp.
use libcoio.Base.{
  put, ℕ, ◌+◌, ◌-◌, ◌*◌, ◌/◌, ◌<◌, ◌≡◌, refl, sym, ap, ◌∙◌, inl, inr, true, false, Option, none,
  some, List, [], ◌∷◌, ◌++◌, arith, ltb, ◌==◌, ==_iff, Bool-cases, length, ℤ, pos, negsuc,
}
use libcoio.IoAwaiter.Operations.{Operation, IoTask, to_kernel_timespec}
use libcoio.IoAwaiter.{
  set_continuation, Sqe, Ring, await_suspend, nonpoll_submit, complete, await_resume, Action,
  suspends, submits, completes, act, act_all,
}

-- The action has to do with other awaiters only.
abbrev pub Elsewhere : ℕ → Action → Type 0
Elsewhere a (suspends b op h) = (a == b) ≡ false
Elsewhere a submits = Unit
Elsewhere a (completes none res flags) = Unit
Elsewhere a (completes (some b) res flags) = (a == b) ≡ false

unfoldable pub AllElsewhere : ℕ → List Action → Type 0
AllElsewhere a [] = Unit
AllElsewhere a (x ∷ xs) = Elsewhere a x × AllElsewhere a xs

some-same : (x y : Ring) → some x ≡ some y → x ≡ y
some-same x y h = cc (h)

elsewhere :
    (a : ℕ) (x : Action) (r r' : Ring)
    → Elsewhere a x
    → act x r ≡ some r'
    → r'.awaiters a ≡ r.awaiters a
unfolding act await_suspend nonpoll_submit complete
elsewhere a (suspends b op h) r r' e ran = elim (Bool-cases (ltb (length r.sq) r.entries)) [
  | inl room ↦
      let q =
        some-same
          (record r {
            sq = r.sq ++ (record { operation = op; user_data = some b } ∷ []);
            awaiters = put r.awaiters b (set_continuation h (r.awaiters b));
          })
          r' (rw room at ran) in
      sym (ap (λ x. x.awaiters a) q) ∙ rw e refl
  | inr full ↦ cc (rw full at ran)
]
elsewhere a submits r r' e ran = elim (Bool-cases (ltb (length r.sq) r.entries)) [
  | inl room ↦ sym (ap (λ x. x.awaiters a) (some-same _ r' (rw room at ran)))
  | inr full ↦ cc (rw full at ran)
]
elsewhere a (completes none res flags) r r' e ran =
    sym (ap (λ x. x.awaiters a) (some-same _ r' ran))
elsewhere a (completes (some b) res flags) r r' e ran =
    sym (ap (λ x. x.awaiters a) (some-same _ r' ran)) ∙ rw e refl

first_elsewhere :
    (a : ℕ) (x : Action) (xs : List Action) (r r' : Ring) (m : Option Ring)
    → AllElsewhere a (x ∷ xs)
    → act x r ≡ m
    → act_all (x ∷ xs) r ≡ some r'
    → ((m' : Ring) → act_all xs m' ≡ some r' → r'.awaiters a ≡ m'.awaiters a)
    → r'.awaiters a ≡ r.awaiters a
unfolding act_all AllElsewhere
first_elsewhere a x xs r r' none e q ran ih = cc (rw (q, act_all) at ran)
first_elsewhere a x xs r r' (some m) e q ran ih =
    ih m (rw (q, act_all) at ran) ∙ elsewhere a x r m e.0 q

all_elsewhere :
    (a : ℕ) (xs : List Action) (r r' : Ring)
    → AllElsewhere a xs
    → act_all xs r ≡ some r'
    → r'.awaiters a ≡ r.awaiters a
unfolding act_all AllElsewhere
all_elsewhere a [] r r' e ran = sym (ap (λ x. x.awaiters a) (some-same r r' ran))
all_elsewhere a (x ∷ xs) r r' e ran =
    first_elsewhere a x xs r r' (act x r) e refl ran (λ m q. all_elsewhere a xs m r' e.1 q)

suspended :
    (a : ℕ) (op : Operation) (h : ℕ) (r r' : Ring)
    → await_suspend a op h r ≡ some r'
    → (r'.awaiters a).continuation ≡ some h
unfolding await_suspend
suspended a op h r r' ran = elim (Bool-cases (ltb (length r.sq) r.entries)) [
  | inl room ↦
      let same : (a == a) ≡ true = (==_iff a a).1 refl in
      sym (ap (λ x. (x.awaiters a).continuation) (some-same _ r' (rw room at ran))) ∙ rw same refl
  | inr full ↦ cc (rw full at ran)
]

queued :
    (a : ℕ) (op : Operation) (h : ℕ) (r r' : Ring)
    → await_suspend a op h r ≡ some r'
    → r'.sq ≡ r.sq ++ (record { operation = op; user_data = some a } ∷ [])
unfolding await_suspend
queued a op h r r' ran = elim (Bool-cases (ltb (length r.sq) r.entries)) [
  | inl room ↦ sym (ap (λ x. x.sq) (some-same _ r' (rw room at ran)))
  | inr full ↦ cc (rw full at ran)
]

-- The result of an operation reaches the coroutine that waits for it: `await_suspend` for the awaiter at
-- `a` and the coroutine `h` puts one entry behind the queue, with the operation of the awaiter. After any
-- submissions, suspensions and completions that concern other awaiters, a completion that carries the
-- user data of this entry resumes `h`, and `await_resume` gives what the operation makes of its result.
pub complete-await_suspend :
    {R : Type 0} (t : IoTask R) (a h : ℕ) (r r' r'' : Ring) (xs : List Action) (res : ℤ) (flags : ℕ)
    → await_suspend a t.io_operation h r ≡ some r'
    → AllElsewhere a xs
    → act_all xs r' ≡ some r''
    → (e : Sqe) × (r'.sq ≡ r.sq ++ (e ∷ []))
      × (e.operation ≡ t.io_operation)
      × ((complete e.user_data res flags r'').0 ≡ some h)
      × (await_resume t a (complete e.user_data res flags r'').1 ≡ t.get_result res)
unfolding complete
complete-await_suspend t a h r r' r'' xs res flags put e ran =
    let same : (a == a) ≡ true = (==_iff a a).1 refl in
    (
      record { operation = t.io_operation; user_data = some a },
      queued a t.io_operation h r r' put,
      refl,
      ap (λ x. x.continuation) (all_elsewhere a xs r' r'' e ran)
          ∙ suspended a t.io_operation h r r' put,
      rw (same, await_resume) refl,
    )

-- A delay that is not negative becomes seconds and nanoseconds of a `timespec`: their sum is the delay,
-- and there are fewer nanoseconds than a second has. A negative delay, also one of whole seconds, has a
-- negative number of nanoseconds.
pub to_kernel_timespec_lem :
    (d : ℕ)
    → ((sec : ℕ) × (ns : ℕ) × (to_kernel_timespec (pos d) ≡ (pos sec, pos ns))
        × (sec * 1000000000 + ns ≡ d)
        × (ns < 1000000000))
      × ((n : ℕ) × ((to_kernel_timespec (negsuc d)).1 ≡ negsuc n))
unfolding to_kernel_timespec
to_kernel_timespec_lem d = elim (Bool-cases (ltb d 1000000000)) [
  | inl e ↦ rw e ((d / 1000000000, d, refl, ground (arith, e), ground (arith, e)), (d, refl))
  | inr e ↦
      rw e (
        (d / 1000000000, d - d / 1000000000 * 1000000000, refl, omega arith, omega arith),
        (d, refl),
      )
]
