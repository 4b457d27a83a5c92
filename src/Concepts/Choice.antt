-- ===== src/Concepts/Choice.antt =====
-- The concepts of include/ against the rules of the language for `co_await`.
use libcoio.Base.{
  ℕ, ◌+◌, ◌≡◌, refl, ◌≢◌, ◌↔◌, ◌⊎◌, inl, inr, Bool, true, false, ◌&&◌, ◌||◌, Option, none, some,
  arith,
}
use libcoio.Concepts.{
  object, function, CppType, void, plain, lvalue, rvalue, value_type, void_type, reference_type,
  function_type, SuspendType, gives_void, gives_bool, gives_handle, gives_other, Operations, meets,
  awaiter, Class, awaitable, Overload, itself, member, free, ambiguous, choose, get_awaiter,
}

-- The language: `await_suspend` gives nothing, a Boolean or a coroutine to go on with.
abbrev pub may_suspend : SuspendType → Bool
may_suspend gives_other = false
may_suspend s = true

abbrev pub usable : Operations → Bool
usable o =
    meets (λ b. b) o.await_ready
    && (meets may_suspend o.await_suspend && meets (λ t. true) o.await_resume)

-- The language: an operator is used where there is one, the expression itself where there is none.
abbrev pub by_operators : Bool → Bool → Overload
by_operators true true = ambiguous
by_operators true false = member
by_operators false true = free
by_operators false false = itself

abbrev pub present : Option Operations → Bool
present o = meets (λ x. true) o

abbrev pub co_await_choice : Class → Overload
co_await_choice t = by_operators (present t.member_co_await) (present t.free_co_await)

abbrev one : Bool → ℕ
one true = 1
one false = 0

-- In how many ways a type says how it is awaited.
abbrev pub ways : Class → ℕ
ways t = one (awaiter t.own) + one (present t.member_co_await) + one (present t.free_co_await)

two : {C : Type 0} → (◌≡◌ {A = ℕ} 2 1) ⊎ (◌≡◌ {A = ℕ} 2 3) → C
two (inl x) = absurd (omega (arith, x))
two (inr x) = absurd (omega (arith, x))

-- The choices agree by what is there, for a type that is awaitable.
agree :
    (a d f w : Bool)
    → w ≡ true
    → (a ≡ false → d ≡ false → f ≡ false → ⊥)
    → (choose a d w ≡ by_operators d f)
      ↔ ((one a + one d + one f ≡ 1) ⊎ (one a + one d + one f ≡ 3))
agree true true true w m k = ((λ e. inr refl), (λ e. refl))
agree true true false w m k = ((λ e. cc (e)), (λ e. two e))
agree true false true w m k = ((λ e. cc (e)), (λ e. two e))
agree true false false w m k = ((λ e. inl refl), (λ e. refl))
agree false true true w m k = rw m ((λ e. cc (e)), (λ e. two e))
agree false true false w m k = rw m ((λ e. inl refl), (λ e. refl))
agree false false true w m k = rw m ((λ e. inl refl), (λ e. refl))
agree false false false w m k = absurd (k refl refl refl)

some_way :
    (a : Bool) (m f : Option Operations)
    → (a || (meets awaiter f || meets awaiter m)) ≡ true
    → a ≡ false
    → present m ≡ false
    → present f ≡ false
    → ⊥
some_way true m f w x y z = cc (x)
some_way false none none w x y z = cc (w)
some_way false (some o) f w x y z = cc (y)
some_way false none (some o) w x y z = cc (z)

-- For a type that the library takes for awaitable: `get_awaiter` chooses what the language does for `co_await`
-- exactly when the type says in one way how it is awaited, as an awaiter or by one of the two operators, or
-- in all three, where neither can choose. An awaiter with an operator of its own, and a type with both
-- operators, are awaited otherwise than the library says.
pub get_awaiter_iff :
    (t : Class)
    → awaitable t ≡ true
    → (get_awaiter t ≡ co_await_choice t) ↔ ((ways t ≡ 1) ⊎ (ways t ≡ 3))
unfolding get_awaiter
get_awaiter_iff t w =
    agree (awaiter t.own) (present t.member_co_await) (present t.free_co_await) (awaitable t) w
      (some_way (awaiter t.own) t.member_co_await t.free_co_await w)

-- The class of an awaiter without operators.
abbrev pub only : SuspendType → CppType → Class
only s r = record {
  own = record { await_ready = some true; await_suspend = some s; await_resume = some r };
  member_co_await = none;
  free_co_await = none;
}

-- A class that has the three functions of an awaiter, by what its `await_suspend` gives: the library and the
-- language agree that it is one exactly for nothing and for a Boolean. One that gives a coroutine handle,
-- which the language resumes, is no awaitable for the library and `get_awaiter` does not take it, with any
-- result; one that gives anything else is an awaitable, which the language refuses.
pub awaiter_iff :
    (s : SuspendType) (r : CppType)
    → ((awaiter (only s r).own ≡ usable (only s r).own) ↔ ((s ≡ gives_void) ⊎ (s ≡ gives_bool)))
      × ((get_awaiter (only s r) ≡ itself) ↔ (s ≢ gives_handle))
      × ((usable (only s r).own ≡ true) ↔ (s ≢ gives_other))
unfolding get_awaiter
awaiter_iff gives_void r =
    (((λ e. inl refl), (λ e. refl)), ((λ e x. cc (x)), (λ e. refl)), ((λ e x. cc (x)), (λ e. refl)))
awaiter_iff gives_bool r =
    (((λ e. inr refl), (λ e. refl)), ((λ e x. cc (x)), (λ e. refl)), ((λ e x. cc (x)), (λ e. refl)))
awaiter_iff gives_handle r = (
  ((λ e. cc (e)), (λ e. elim e [ inl x ↦ cc (x) | inr x ↦ cc (x) ])),
  ((λ e. cc (e)), (λ e. absurd (e refl))),
  ((λ e x. cc (x)), (λ e. refl)),
)
awaiter_iff gives_other r = (
  ((λ e. cc (e)), (λ e. elim e [ inl x ↦ cc (x) | inr x ↦ cc (x) ])),
  ((λ e x. cc (x)), (λ e. refl)),
  ((λ e. cc (e)), (λ e. absurd (e refl))),
)

-- Every type has one category of the concepts: nothing, a reference, a function or a value.
categories :
    (t : CppType)
    → one (void_type t) + one (reference_type t) + one (function_type t) + one (value_type t) ≡ 1
categories void = refl
categories (plain (object n)) = refl
categories (plain (function n)) = refl
categories (lvalue r) = refl
categories (rvalue r) = refl
