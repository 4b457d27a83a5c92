-- ===== src/Awaitable/Laws.antt =====
-- The laws of `just`, `fmap`, `flat_map` and `sync_wait` of include/.
use libcoio.Base.{
  or_assoc, or_false, ◌≡◌, refl, sym, ap, ◌∙◌, inl, inr, Bool, true, false, ◌||◌, none, some,
  if◌then◌else◌, Bool-cases,
}
use libcoio.Outcome.{Outcome, returned, threw}
use libcoio.Task.{new_task, set_callback, finish, result}
use libcoio.Awaitable.{
  Awaiter, woken, co_await, just, future, invoke, fmap, and_then, flat_map, sync_wait,
}

invoke-woken :
    {R Q : Type 0} (A : Awaiter R) (fn : R → Outcome Q) (x : Bool × A.Memory)
    → woken (fmap A fn) x ≡ ((woken A x).0, invoke fn (woken A x).1)
invoke-woken A fn (true, s) = refl
invoke-woken A fn (false, s) = refl

-- `fmap` suspends exactly when its awaitable does, and gives the function at its value; an exception of
-- the awaitable passes the function by.
pub co_await-fmap :
    {R Q : Type 0} (A : Awaiter R) (fn : R → Outcome Q)
    → co_await (fmap A fn) ≡ ((co_await A).0, invoke fn (co_await A).1)
unfolding co_await
co_await-fmap A fn = elim (Bool-cases (A.await_ready A.memory)) [
  | inl ready ↦ rw ready refl
  | inr waits ↦ rw waits (invoke-woken A fn (A.await_suspend A.memory))
]

co_await-future : {R : Type 0} (x : Bool × Outcome R) → co_await (future x) ≡ x
unfolding co_await future
co_await-future (true, o) = refl
co_await-future (false, o) = refl

pub co_await-flat_map :
    {R Q : Type 0} (A : Awaiter R) (f : R → Awaiter Q)
    → co_await (flat_map A f) ≡ and_then f (co_await A)
unfolding flat_map
co_await-flat_map A f = co_await-future (and_then f (co_await A))

-- A suspension before is a suspension of the whole.
and_then-or :
    {Q P : Type 0} (g : Q → Awaiter P) (b : Bool) (x : Bool × Outcome Q)
    → and_then g (b || x.0, x.1) ≡ (b || (and_then g x).0, (and_then g x).1)
and_then-or g b (c, threw e) = refl
and_then-or g b (c, returned w) =
    ap (λ t. (t, (co_await (g w)).1)) (or_assoc b c (co_await (g w)).0)

and_then-and_then :
    {R Q P : Type 0} (f : R → Awaiter Q) (g : Q → Awaiter P) (x : Bool × Outcome R)
    → and_then g (and_then f x) ≡ and_then (λ v. flat_map (f v) g) x
and_then-and_then f g (b, threw e) = refl
and_then-and_then f g (b, returned v) =
    and_then-or g b (co_await (f v)) ∙ ap (λ y. (b || y.0, y.1)) (sym (co_await-flat_map (f v) g))

and_then-just : {R : Type 0} (x : Bool × Outcome R) → and_then just x ≡ x
unfolding just co_await
and_then-just (b, threw e) = refl
and_then-just (b, returned v) = ap (λ t. (t, returned v)) (or_false b)

co_await-just : {R : Type 0} (v : R) → co_await (just v) ≡ (false, returned v)
unfolding just co_await
co_await-just v = refl

-- `flat_map` is sequencing: `just` is its unit on both sides, and it is associative. Values, exceptions
-- and whether the coroutine was suspended are the same.
pub flat_map_lem :
    {R Q P : Type 0} (A : Awaiter R) (v : R) (f : R → Awaiter Q) (g : Q → Awaiter P)
    → (co_await (flat_map (just v) f) ≡ co_await (f v))
      × (co_await (flat_map A just) ≡ co_await A)
      × (co_await (flat_map (flat_map A f) g) ≡ co_await (flat_map A (λ w. flat_map (f w) g)))
flat_map_lem A v f g = (
  co_await-flat_map (just v) f ∙ ap (and_then f) (co_await-just v),
  co_await-flat_map A just ∙ and_then-just (co_await A),
  co_await-flat_map (flat_map A f) g
      ∙ ap (and_then g) (co_await-flat_map A f)
      ∙ and_then-and_then f g (co_await A)
      ∙ sym (co_await-flat_map A (λ w. flat_map (f w) g)),
)

finished :
    {R : Type 0} (o : Outcome R)
    → (if (finish o (set_callback new_task)).0
        then result (finish o (set_callback new_task)).1
        else none)
      ≡ some o
unfolding finish result
finished (returned v) = refl
finished (threw e) = refl

-- `sync_wait` gives the value or the exception of what it waits for: its callback is set before the
-- task is started, so the flag that it waits on is always set.
pub sync_wait_lem : {R : Type 0} (A : Awaiter R) → sync_wait A ≡ some (co_await A).1
unfolding sync_wait
sync_wait_lem A = finished (co_await A).1
