-- ===== src/IoAwaiter/Room.antt =====
-- How many operations the submission queue of include/io_context.hpp takes in a round.
use libcoio.Base.{
  put, ℕ, ◌+◌, ◌<◌, ◌≡◌, refl, sym, ◌∙◌, ◌≢◌, ◌↔◌, inl, inr, Bool, true, false, Option, none, some,
  List, [], ◌∷◌, ◌++◌, arith, ltb, ltb_iff, if◌then◌else◌, Bool-cases, length, length-append,
}
use mathlib.Core.List.{map}
use libcoio.IoAwaiter.Operations.{Operation}
use libcoio.IoAwaiter.{
  Ring, set_continuation, await_suspend, nonpoll_submit, Action, suspends, submits, act, act_all,
}

-- The `co_await`s of operations in a round: the awaiter, what it does, and the coroutine.
abbrev pub awaits : List (ℕ × Operation × ℕ) → List Action
awaits ops = map (λ x. suspends x.0 x.1 x.2) ops

-- `run_once` starts the operations, and `nonpoll_submit` follows.
abbrev pub round_of : List (ℕ × Operation × ℕ) → List Action
round_of ops = awaits ops ++ (submits ∷ [])

abbrev has_room : Ring → Bool
has_room r = ltb (length r.sq) r.entries

suspended_ring : ℕ → Operation → ℕ → Ring → Ring
suspended_ring a op h r = record r {
  sq = r.sq ++ (record { operation = op; user_data = some a } ∷ []);
  awaiters = put r.awaiters a (set_continuation h (r.awaiters a));
}

grown :
    (a : ℕ) (op : Operation) (h : ℕ) (r : Ring)
    → (length (suspended_ring a op h r).sq ≡ length r.sq + 1)
      × ((suspended_ring a op h r).entries ≡ r.entries)
unfolding suspended_ring
grown a op h r = (length-append r.sq (record { operation = op; user_data = some a } ∷ []), refl)

act-suspends :
    (a : ℕ) (op : Operation) (h : ℕ) (r : Ring)
    → act (suspends a op h) r ≡ (if has_room r then some (suspended_ring a op h r) else none)
unfolding act await_suspend suspended_ring
act-suspends a op h r = refl

act_all-cons :
    (x : Action) (xs : List Action) (r : Ring) (m : Option Ring)
    → act x r ≡ m
    → act_all (x ∷ xs) r ≡ (elim m [ none ↦ none | some r' ↦ act_all xs r' ])
unfolding act_all
act_all-cons x xs r m e = rw (e, act_all) refl

submitted :
    (r : Ring) (b : Bool) (m : Option Ring)
    → has_room r ≡ b
    → act submits r ≡ m
    → (m ≢ none) ↔ (length r.sq < r.entries)
unfolding act nonpoll_submit
submitted r true m e q = ((λ h. (ltb_iff (length r.sq) r.entries).0 e), (λ h x. cc (rw e at q, x)))
submitted r false m e q =
    ((λ h. absurd (h (sym q ∙ rw e refl))), (λ h x. cc (e, (ltb_iff (length r.sq) r.entries).1 h)))

alone_submitted :
    (r : Ring) (m : Option Ring)
    → act submits r ≡ m
    → (act_all (submits ∷ []) r ≢ none) ↔ (length r.sq < r.entries)
unfolding act_all
alone_submitted r none e =
    let both = submitted r (has_room r) none refl e in
    ((λ h. absurd (h (act_all-cons submits [] r none e))), (λ h. absurd (both.1 h refl)))
alone_submitted r (some r') e =
    let both = submitted r (has_room r) (some r') refl e in
    let ran : act_all (submits ∷ []) r ≡ some r' = act_all-cons submits [] r (some r') e in
    ((λ h. both.0 (λ x. cc (x))), (λ h x. cc (ran, x)))

suspended_first :
    (a : ℕ) (op : Operation) (h : ℕ) (xs : List Action) (r : Ring) (b : Bool)
    → has_room r ≡ b
    → act_all (suspends a op h ∷ xs) r ≡ (if b then act_all xs (suspended_ring a op h r) else none)
suspended_first a op h xs r true e =
    act_all-cons (suspends a op h) xs r (some (suspended_ring a op h r))
      (act-suspends a op h r ∙ rw e refl)
suspended_first a op h xs r false e =
    act_all-cons (suspends a op h) xs r none (act-suspends a op h r ∙ rw e refl)

-- The operations that the coroutines of a round start can be submitted exactly when they leave an entry of
-- the submission queue free for the timeout of `nonpoll_submit`; otherwise the entry that one of the calls
-- gets is null.
pub round_of_iff :
    (ops : List (ℕ × Operation × ℕ)) (r : Ring)
    → (act_all (round_of ops) r ≢ none) ↔ (length r.sq + length ops < r.entries)
round_of_iff [] r =
    let both = alone_submitted r (act submits r) refl in
    ((λ h. omega (arith, both.0 h)), (λ h. both.1 (omega (arith, h))))
round_of_iff ((a, op, h) ∷ ops) r = elim (Bool-cases (has_room r)) [
  | inl room ↦
      let ran = suspended_first a op h (round_of ops) r true room in
      let ih = round_of_iff ops (suspended_ring a op h r) in
      let (more, same) = grown a op h r in
      (
        (λ x. omega (arith, ih.0 (λ y. x (ran ∙ y)), more, same)),
        (λ x y. ih.1 (omega (arith, x, more, same)) (sym ran ∙ y)),
      )
  | inr full ↦
      let ran = suspended_first a op h (round_of ops) r false full in
      (
        (λ x. absurd (x ran)),
        (λ x. cc (full, (ltb_iff (length r.sq) r.entries).1 (omega (arith, x)))),
      )
]
