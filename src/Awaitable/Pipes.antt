-- ===== src/Awaitable/Pipes.antt =====
-- The pipe operators of include/fmap.hpp and include/flat_map.hpp: where the function lies that they pass on,
-- and whether it is still alive when the result is awaited.
use libcoio.Base.{put, put-here, put-there, ℕ, ◌≡◌, ◌≢◌, ap, ◌∙◌, Bool, Option, none, some}
use libcoio.Outcome.{Outcome}
use libcoio.Awaitable.{Awaiter, co_await, fmap, flat_map, invoke, and_then}
use libcoio.Awaitable.Laws.{co_await-fmap, co_await-flat_map}
use mathlib.Core.Option

-- A member of type `Fn`: a function of its own, or, where `Fn` is a reference, the address of another.
pub data Held {ℓ} (F : Type ℓ) : Type ℓ where
  owned : F → Held F
  borrowed : ℕ → Held F

-- The functions that are alive, by address.
abbrev pub Objects {ℓ} : Type ℓ → Type ℓ
Objects F = ℕ → Option F

module _ {ℓ} {F : Type ℓ} where
  -- The function that is called; `none` is a call through a reference to a destroyed one.
  abbrev pub call : Objects F → Held F → Option F
  call objects (owned f) = some f
  call objects (borrowed a) = objects a

  -- What `transform.fn` names, for a transform at `t`.
  abbrev pub address : ℕ → Held F → ℕ
  address t (owned f) = t
  address t (borrowed a) = a

  -- `fmap(fn)` and `flat_map(fn)` make a transform, of a temporary or of a function at `a`.
  abbrev pub transform_of_temporary : F → Held F
  transform_of_temporary f = owned f

  abbrev pub transform_of : ℕ → Held F
  transform_of a = borrowed a

  -- `awaitable | then`: a temporary transform gives its function away, another is referred to.
  unfoldable pub fmap_pipe : Held F → Held F
  fmap_pipe fn = fn

  unfoldable pub fmap_pipe_lvalue : ℕ → Held F → Held F
  fmap_pipe_lvalue t fn = borrowed (address t fn)

  -- `flat_map_impl` is a coroutine that takes `Fn &&fn`: its frame has the reference, from either operator.
  unfoldable pub flat_map_pipe : ℕ → Held F → Held F
  flat_map_pipe t fn = borrowed (address t fn)

module _ {R Q : Type 0} where
  -- `co_await` of what a pipe has made, with the functions that are alive at that time.
  unfoldable pub await_fmap :
      Objects (R → Outcome Q) → Awaiter R → Held (R → Outcome Q) → Option (Bool × Outcome Q)
  await_fmap objects A fn = Option.map (λ f. co_await (fmap A f)) (call objects fn)

  unfoldable pub await_flat_map :
      Objects (R → Awaiter Q) → Awaiter R → Held (R → Awaiter Q) → Option (Bool × Outcome Q)
  await_flat_map objects A fn = Option.map (λ f. co_await (flat_map A f)) (call objects fn)

  -- `a | fmap(f)` and `a | flat_map(g)` with temporaries `f` and `g`, the transform at `t`. The first may be
  -- awaited at any time. The second works in the same expression; when the transform has been destroyed
  -- before it is awaited, it calls a destroyed function, unless `g` was given as a function that lies
  -- elsewhere and is still alive. With a transform that has a name, `fmap` refers to its function too.
  pub pipes_lem :
      (A : Awaiter R) (f : R → Outcome Q) (g : R → Awaiter Q) (t a : ℕ)
      (fs : Objects (R → Outcome Q)) (gs : Objects (R → Awaiter Q))
      → a ≢ t
      → gs a ≡ some g
      → (await_fmap (put fs t none) A (fmap_pipe (transform_of_temporary f))
          ≡ some ((co_await A).0, invoke f (co_await A).1))
        × (await_flat_map (put gs t (some g)) A (flat_map_pipe t (transform_of_temporary g))
            ≡ some (and_then g (co_await A)))
        × (await_flat_map (put gs t none) A (flat_map_pipe t (transform_of_temporary g)) ≡ none)
        × (await_flat_map (put gs t none) A (flat_map_pipe t (transform_of a))
            ≡ some (and_then g (co_await A)))
        × (await_fmap (put fs t none) A (fmap_pipe_lvalue t (transform_of_temporary f)) ≡ none)
  unfolding await_fmap await_flat_map fmap_pipe fmap_pipe_lvalue flat_map_pipe
  pipes_lem A f g t a fs gs apart alive = (
    ap some (co_await-fmap A f),
    ap (Option.map (λ h. co_await (flat_map A h))) (put-here gs t (some g))
        ∙ ap some (co_await-flat_map A g),
    ap (Option.map (λ h. co_await (flat_map A h))) (put-here gs t none),
    ap (Option.map (λ h. co_await (flat_map A h))) (put-there gs t a none apart ∙ alive)
        ∙ ap some (co_await-flat_map A g),
    ap (Option.map (λ h. co_await (fmap A h))) (put-here fs t none),
  )
