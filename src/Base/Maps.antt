-- ===== src/Base/Maps.antt =====
-- A function that stands for a table: one entry of it written.
use Prim.Native.Nat.{ℕ}
use mathlib.Core.Path.{◌≡◌, refl}
use mathlib.Core.Logic.{◌≢◌, inl, inr}
use libcoio.Base.Tests.{◌==◌, if◌then◌else◌, ==_iff, Bool-cases}

abbrev pub put {ℓ} : {A : Type ℓ} → (ℕ → A) → ℕ → A → ℕ → A
put f i v k = if k == i then v else f k

pub put-here {ℓ} : {A : Type ℓ} (f : ℕ → A) (i : ℕ) (v : A) → put f i v i ≡ v
put-here f i v = rw ((==_iff i i).1 refl) refl

pub put-there {ℓ} : {A : Type ℓ} (f : ℕ → A) (i k : ℕ) (v : A) → k ≢ i → put f i v k ≡ f k
put-there f i k v h = elim (Bool-cases (k == i)) [
  | inl e ↦ absurd (h ((==_iff k i).0 e))
  | inr e ↦ rw e refl
]
