-- ===== src/Base/Bools.antt =====
-- Laws of the disjunction of Booleans.
use mathlib.Core.Bool.{Bool, true, false, ◌||◌}
use mathlib.Core.Path.{◌≡◌, refl}

pub or_assoc : (a b c : Bool) → (a || b) || c ≡ a || (b || c)
or_assoc true b c = refl
or_assoc false b c = refl

pub or_false : (a : Bool) → a || false ≡ a
or_false true = refl
or_false false = refl

pub or_true : (a : Bool) → a || true ≡ true
or_true true = refl
or_true false = refl
