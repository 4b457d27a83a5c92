-- ===== src/Generator/Iteration.antt =====
-- A loop over a generator of include/generator.hpp sees what the body yields.
use libcoio.Base.{ℕ, zero, suc, ◌≡◌, refl, true, Option, none, some, List, [], ◌∷◌, arith}
use mathlib.Core.Path.{subst}
use libcoio.Outcome.{Exception}
use libcoio.Generator.{
  Next, yields, returns, throws, Generator, make, resume, begin, increment, Ending, finished,
  broken, thrown, Run, see, loop, for_each,
}

module _ {S T : Type 0} (next : S → Next S T) where
  -- The first `n` values that the body yields from a point, and what comes then.
  unfoldable pub values : ℕ → S → List T × Ending
  values zero s = elim (next s) [
    | yields v s' ↦ ([], broken)
    | returns ↦ ([], finished)
    | throws e ↦ ([], thrown e)
  ]
  values (suc n) s = elim (next s) [
    | yields v s' ↦ (v ∷ (values n s').0, (values n s').1)
    | returns ↦ ([], finished)
    | throws e ↦ ([], thrown e)
  ]

  -- The run sees these values and ends like this.
  abbrev pub Sees : List T × Ending → Run next → Type 0
  Sees x run = (g : Generator S T) × (run ≡ some (x.0, x.1, g))

  -- A generator that stands at a point behind a value.
  abbrev standing : Option T → Option Exception → S → Generator S T
  standing v x s = record {
    m_init_begin = true;
    m_handle = some (record { point = some s; m_value_ptr = v; m_exception = x });
  }

  -- What is seen from a point on, behind the value `v`.
  abbrev Goes : ℕ → T → S → Type 0
  Goes n v s =
      Sees (v ∷ (values n s).0, (values n s).1) (loop next (suc n) (standing (some v) none s))

  see-Sees :
      (v : T) (x : List T × Ending) (run : Run next)
      → Sees x run
      → Sees (v ∷ x.0, x.1) (see next v run)
  see-Sees v x run (g, e) = (g, rw e refl)

  loop_step :
      (n : ℕ) (v : T) (s : S) (x : Next S T)
      → next s ≡ x
      → ((m : ℕ) → n ≡ suc m → (w : T) (s' : S) → Goes m w s')
      → Goes n v s
  unfolding loop increment resume values
  loop_step zero v s (yields w s') e ih = rw (e, values) (_, refl)
  loop_step (suc m) v s (yields w s') e ih =
      rw (e, values)
        (see-Sees v (w ∷ (values m s').0, (values m s').1)
          (loop next (suc m) (standing (some w) none s')) (ih m refl w s'))
  loop_step zero v s returns e ih = rw (e, values) (_, refl)
  loop_step (suc m) v s returns e ih = rw (e, values) (_, refl)
  loop_step zero v s (throws x) e ih = rw (e, values) (_, refl)
  loop_step (suc m) v s (throws x) e ih = rw (e, values) (_, refl)

  loop_lem : (n : ℕ) (v : T) (s : S) → Goes n v s
  loop_lem zero v s = loop_step zero v s (next s) refl (λ m e. absurd (omega (arith, e)))
  loop_lem (suc n) v s = loop_step (suc n) v s (next s) refl (λ m e w s'.
      subst (λ k. Goes k w s') (let f : n ≡ m = omega (arith, e) in f) (loop_lem n w s'))

  for_each_step :
      (n : ℕ) (s : S) (x : Next S T)
      → next s ≡ x
      → Sees (values n s) (for_each next n (make next s))
  unfolding for_each begin loop resume values
  for_each_step zero s (yields v s') e = rw (e, values, for_each) (_, refl)
  for_each_step (suc n) s (yields v s') e = rw (e, values, for_each) (loop_lem n v s')
  for_each_step zero s returns e = rw (e, values, for_each) (_, refl)
  for_each_step (suc n) s returns e = rw (e, values, for_each) (_, refl)
  for_each_step zero s (throws x) e = rw (e, values, for_each) (_, refl)
  for_each_step (suc n) s (throws x) e = rw (e, values, for_each) (_, refl)

  -- A `for` over a new generator sees the values that the body yields, in order, up to the body's end or
  -- a `break` after `n` values; an exception of the body comes out of the loop, behind the values that
  -- were yielded before it. No call is made on a coroutine that has ended.
  pub for_each_lem : (n : ℕ) (s : S) → Sees (values n s) (for_each next n (make next s))
  for_each_lem n s = for_each_step n s (next s) refl
