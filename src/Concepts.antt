-- ===== src/Concepts.antt =====
-- include/common/type_concepts.hpp and include/awaitable.hpp: which types the library takes for awaitable, and
-- which awaiter `get_awaiter` chooses. A type is given by its category and by the operations it has.
pub mod Choice
mod Tests
use libcoio.Base.{◌&&◌, ◌||◌, Bool, true, false, not, Option, none, some, ℕ}
use mathlib.Core.Option

-- Types by category; the numbers tell types of one category apart.
pub data Referable : Type 0 where
  object : ℕ → Referable
  function : ℕ → Referable

pub data CppType : Type 0 where
  void : CppType
  plain : Referable → CppType
  lvalue : Referable → CppType
  rvalue : Referable → CppType

-- The traits of the language that the concepts name.
abbrev pub is_void : CppType → Bool
is_void void = true
is_void t = false

abbrev pub is_reference : CppType → Bool
is_reference (lvalue r) = true
is_reference (rvalue r) = true
is_reference t = false

abbrev pub is_function : CppType → Bool
is_function (plain (function n)) = true
is_function t = false

abbrev pub is_rvalue_reference : CppType → Bool
is_rvalue_reference (rvalue r) = true
is_rvalue_reference t = false

abbrev pub remove_reference : CppType → CppType
remove_reference void = void
remove_reference (plain r) = plain r
remove_reference (lvalue r) = plain r
remove_reference (rvalue r) = plain r

-- The concepts of type_concepts.hpp.
abbrev pub void_type : CppType → Bool
void_type t = is_void t

abbrev pub reference_type : CppType → Bool
reference_type t = is_reference t

abbrev pub function_type : CppType → Bool
function_type t = is_function t

abbrev pub rvalue_reference : CppType → Bool
rvalue_reference t = reference_type t && is_rvalue_reference t

abbrev pub lvalue_reference : CppType → Bool
lvalue_reference t = reference_type t && not (rvalue_reference t)

abbrev pub value_type : CppType → Bool
value_type t = not (is_void t) && (not (reference_type t) && not (function_type t))

-- What a `future` may give.
abbrev pub future_value : CppType → Bool
future_value t = value_type t || void_type t

-- `non_void_result_t`; the number of `void_t` is given.
abbrev pub non_void_result : ℕ → CppType → CppType
non_void_result void_t void = plain (object void_t)
non_void_result void_t (plain r) = plain r
non_void_result void_t (lvalue r) = lvalue r
non_void_result void_t (rvalue r) = rvalue r

-- What `await_suspend` gives.
pub data SuspendType : Type 0 where
  gives_void : SuspendType
  gives_bool : SuspendType
  gives_handle : SuspendType
  gives_other : SuspendType

-- As written: the template is true, the specialisation for `std::coroutine_handle` false.
abbrev pub is_coroutine_handle : SuspendType → Bool
is_coroutine_handle gives_handle = false
is_coroutine_handle s = true

abbrev pub suspend_result : SuspendType → Bool
suspend_result gives_bool = true
suspend_result gives_void = true
suspend_result s = is_coroutine_handle s

-- The operations of a class: whether the result of `await_ready` converts to `bool`, if it has one, and the
-- types that the others give.
pub record Operations : Type 0 where
  pub await_ready : Option Bool
  pub await_suspend : Option SuspendType
  pub await_resume : Option CppType

-- `requires` on an expression: that it is there, and that its type meets a concept.
abbrev pub meets {ℓ} : {A : Type ℓ} → (A → Bool) → Option A → Bool
meets p none = false
meets p (some x) = p x

abbrev pub awaiter : Operations → Bool
awaiter o =
    meets (λ b. b) o.await_ready
    && (meets suspend_result o.await_suspend && meets (λ t. true) o.await_resume)

-- A type with its own operations and those of what `t.operator co_await()` and `operator co_await(t)` give.
pub record Class : Type 0 where
  pub own : Operations
  pub member_co_await : Option Operations
  pub free_co_await : Option Operations

abbrev pub awaitable : Class → Bool
awaitable t = awaiter t.own || (meets awaiter t.free_co_await || meets awaiter t.member_co_await)

-- `awaiter_of<A, T>`, with the equality of types that `same_as` tests.
abbrev pub awaiter_of : (CppType → CppType → Bool) → CppType → Operations → Bool
awaiter_of same_as t o = awaiter o && meets (same_as t) o.await_resume

-- The function of `get_awaiter` that a call takes, or why there is none.
pub data Overload : Type 0 where
  itself : Overload
  member : Overload
  free : Overload
  ambiguous : Overload
  no_match : Overload

-- The choice, by whether the type is an awaiter, has a member operator, and is awaitable.
abbrev pub choose : Bool → Bool → Bool → Overload
choose true true w = ambiguous
choose true false w = itself
choose false true true = member
choose false false true = free
choose false d false = no_match

-- The three functions by what they require: the first an awaiter, the second an awaitable with a member
-- operator, the third an awaitable. `awaiter` is a part of `awaitable`, so the third is the least
-- constrained; neither of the first two has all that the other requires.
unfoldable pub get_awaiter : Class → Overload
get_awaiter t = choose (awaiter t.own) (meets (λ o. true) t.member_co_await) (awaitable t)

-- The operations of the awaiter that `get_awaiter` gives.
abbrev pub chosen : Overload → Class → Option Operations
chosen itself t = some t.own
chosen member t = t.member_co_await
chosen free t = t.free_co_await
chosen ambiguous t = none
chosen no_match t = none

-- `awaitable_traits`: `await_resume_t` and `await_result_t`.
abbrev pub await_resume_type : Class → Option CppType
unfolding get_awaiter
await_resume_type t = Option.bind (chosen (get_awaiter t) t) (λ o. o.await_resume)

abbrev pub await_result_type : Class → Option CppType
unfolding get_awaiter
await_result_type t = Option.map remove_reference (await_resume_type t)
