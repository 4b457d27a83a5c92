-- ===== src/Generator/Tests.antt =====
-- A generator of include/generator.hpp that throws behind its third value.
use libcoio.Base.{ℕ, ◌+◌, ◌*◌, ◌≡◌, refl, [], ◌∷◌, ◌==◌, if◌then◌else◌}
use libcoio.Outcome.{logic_error}
use libcoio.Generator.{Next, yields, throws, make, broken, thrown, for_each}
use libcoio.Generator.Iteration.{values, Sees, for_each_lem}

abbrev tens : ℕ → Next ℕ ℕ
tens k = if k == 3 then throws logic_error else yields (k * 10) (k + 1)

up_to_throw : values tens 9 0 ≡ (0 ∷ 10 ∷ 20 ∷ [], thrown logic_error)
unfolding values
up_to_throw = refl

up_to_break : values tens 2 0 ≡ (0 ∷ 10 ∷ [], broken)
unfolding values
up_to_break = refl

for_each_lem_example : Sees tens (values tens 9 0) (for_each tens 9 (make tens 0))
for_each_lem_example = for_each_lem tens 9 0
