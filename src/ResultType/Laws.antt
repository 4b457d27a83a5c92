-- ===== src/ResultType/Laws.antt =====
-- What holds of `result` while its flag tells the union's live member, and what breaks the flag.
use libcoio.Base.{◌≡◌, refl, sym, ◌∙◌, inl, inr, Bool, true, false, none, some, ◌⊎◌, ◌↔◌, arith}
use libcoio.ResultType.{
  Storage, val, err, Result, from_value, from_error, is_error, value, get_error, destroy, move,
  assign, set_error, set_value, map, map_void,
}

module _ {ℓ κ} {V : Type ℓ} {E : Type κ} where
  abbrev is_err : Storage V E → Bool
  is_err (val v) = false
  is_err (err e) = true

  -- The flag names the live member.
  abbrev pub IsValid : Result V E → Type 0
  IsValid r = r.iserr ≡ is_err r.storage

  -- What a valid result holds.
  abbrev pub Holds : Result V E → Type (ℓ ⊔ κ)
  Holds r = ((e : E) × (r ≡ from_error e)) ⊎ ((v : V) × (r ≡ from_value v))

  cases_of : (s : Storage V E) (b : Bool) → b ≡ is_err s → Holds (record { storage = s; iserr = b })
  cases_of (val v) b h = rw h (inr (v, refl))
  cases_of (err e) b h = rw h (inl (e, refl))

  pub IsValid-Holds : (r : Result V E) → IsValid r → Holds r
  IsValid-Holds r h = cases_of r.storage r.iserr h

  destroy_of :
      (s : Storage V E) (b : Bool)
      → (destroy (record { storage = s; iserr = b }) ≡ some tt) ↔ (b ≡ is_err s)
  unfolding destroy
  destroy_of (val v) b = ground arith
  destroy_of (err e) b = ground arith

  -- The destructor is defined exactly where the flag names the live member.
  pub destroy_iff : (r : Result V E) → (destroy r ≡ some tt) ↔ IsValid r
  destroy_iff r = destroy_of r.storage r.iserr

  move_of :
      (s : Storage V E) (b : Bool)
      → b ≡ is_err s
      → move (record { storage = s; iserr = b }) ≡ some (record { storage = s; iserr = b })
  unfolding move
  move_of (val v) b h = ground arith
  move_of (err e) b h = ground arith

  -- Moving between valid results keeps the value or the error, whatever the target held.
  pub assign_lem :
      (self other : Result V E) → IsValid self → IsValid other → assign self other ≡ some other
  unfolding assign mathlib.Core.Option.bind
  assign_lem self other hs ho = rw ((destroy_iff self).1 hs) (move_of other.storage other.iserr ho)

  set_error_of :
      (s : Storage V E) (b : Bool) (e : E)
      → b ≡ is_err s
      → let r : Result V E = record { storage = s; iserr = b } in
        (set_error r e ≡ some (record { storage = err e; iserr = b }))
  unfolding set_error
  set_error_of (val v) b e h = ground arith
  set_error_of (err w) b e h = ground arith

  set_value_of :
      (s : Storage V E) (b : Bool) (v : V)
      → b ≡ is_err s
      → let r : Result V E = record { storage = s; iserr = b } in
        (set_value r v ≡ some (record { storage = val v; iserr = b }))
  unfolding set_value
  set_value_of (val v) b w h = ground arith
  set_value_of (err e) b w h = ground arith

  -- On an error, `set_error` replaces the error; on a value it leaves a result that says it has
  -- no error, has no value to read, and cannot be destroyed.
  pub set_error_lem :
      (r : Result V E) (e : E)
      → IsValid r
      → (r' : Result V E) × (set_error r e ≡ some r')
        × (is_error r ≡ true → r' ≡ from_error e)
        × (is_error r ≡ false → (is_error r' ≡ false) × (value r' ≡ none) × (destroy r' ≡ none))
  unfolding value destroy
  set_error_lem r e h = (
    record { storage = err e; iserr = r.iserr },
    set_error_of r.storage r.iserr e h,
    λ p. ground arith,
    λ p. ground arith,
  )

  -- The same of `set_value` on an error.
  pub set_value_lem :
      (r : Result V E) (v : V)
      → IsValid r
      → (r' : Result V E) × (set_value r v ≡ some r')
        × (is_error r ≡ false → r' ≡ from_value v)
        × (is_error r ≡ true → (is_error r' ≡ true) × (get_error r' ≡ none) × (destroy r' ≡ none))
  unfolding get_error destroy
  set_value_lem r v h = (
    record { storage = val v; iserr = r.iserr },
    set_value_of r.storage r.iserr v h,
    λ p. ground arith,
    λ p. ground arith,
  )

module _ {ℓ κ ι} {V : Type ℓ} {E : Type κ} {R : Type ι} where
  pub map-error : (f : V → R) (e : E) → map f (from_error e) ≡ some (from_error e)
  unfolding map
  map-error f e = ground arith

  pub map-value : (f : V → R) (v : V) → map {E = E} f (from_value v) ≡ some (from_value (f v))
  unfolding map
  map-value f v = ground arith

-- `map` is the functor of a result: on every valid result it succeeds, its result is valid, and
-- mapping twice is mapping the composition.
pub map-map {ℓ κ ι μ} :
    {V : Type ℓ} {E : Type κ} {R : Type ι} {S : Type μ} (g : R → S) (f : V → R) (r : Result V E)
    → IsValid r
    → (m : Result R E) × (map f r ≡ some m) × IsValid m × (map g m ≡ map (λ v. g (f v)) r)
map-map g f r h = elim (IsValid-Holds r h) [
  | inl (e, q) ↦ rw q (from_error e, map-error f e, refl, map-error g e ∙ sym (map-error _ e))
  | inr (v, q) ↦
      rw q (from_value (f v), map-value f v, refl, map-value g (f v) ∙ sym (map-value _ v))
]

module _ {ℓ κ ι} {V : Type ℓ} {E : Type κ} {S : Type ι} where
  -- The function is called once on a value, and not at all on an error, which is passed on.
  pub map_void_lem :
      (f : V → S → S) (v : V) (e : E) (s : S)
      → (map_void {E = E} f (from_value v) s ≡ some (from_value tt, f v s))
        × (map_void f (from_error e) s ≡ some (from_error e, s))
  unfolding map_void
  map_void_lem f v e s = (refl, refl)
