-- ===== src/ResultType.antt =====
-- include/common/result_type.hpp: the union of a value and an error, with its `m_iserr` flag.
-- Reading or destroying the union's member that is not alive is undefined behaviour: `none`.
pub mod Laws
mod Tests
use libcoio.Base.{◌≡◌, Bool, true, false, Option, none, some, if◌then◌else◌}
use mathlib.Core.Option

-- The live member of the anonymous union.
pub data Storage {ℓ κ} (V : Type ℓ) (E : Type κ) : Type (ℓ ⊔ κ) where
  val : V → Storage V E
  err : E → Storage V E

pub record Result {ℓ κ} (V : Type ℓ) (E : Type κ) : Type (ℓ ⊔ κ) where
  pub storage : Storage V E
  pub iserr : Bool

module _ {ℓ κ} {V : Type ℓ} {E : Type κ} where
  -- The constructors from a value and from an `error<E>`.
  abbrev pub from_value : V → Result V E
  from_value v = record { storage = val v; iserr = false }

  abbrev pub from_error : E → Result V E
  from_error e = record { storage = err e; iserr = true }

  abbrev pub is_error : Result V E → Bool
  is_error r = r.iserr

  read_val : Storage V E → Option V
  read_val (val v) = some v
  read_val (err e) = none

  read_err : Storage V E → Option E
  read_err (val v) = none
  read_err (err e) = some e

  unfoldable pub value : Result V E → Option V
  unfolding read_val
  value r = read_val r.storage

  pub get_error : Result V E → Option E
  unfolding read_err
  get_error r = read_err r.storage

  -- `~result()` destroys the member that the flag names.
  pub destroy : Result V E → Option (Unit {0})
  unfolding get_error value
  destroy r =
      if is_error r then Option.map (λ _. tt) (get_error r) else Option.map (λ _. tt) (value r)

  -- The move constructor.
  pub move : Result V E → Option (Result V E)
  unfolding get_error value
  move other =
      if is_error other
      then Option.map (λ e. record { storage = err e; iserr = other.iserr }) (get_error other)
      else Option.map (λ v. record { storage = val v; iserr = other.iserr }) (value other)

  -- The move assignment between two objects: destroy, then construct from the other.
  pub assign : Result V E → Result V E → Option (Result V E)
  assign self other = Option.bind (destroy self) (λ _. move other)

  pub set_error : Result V E → E → Option (Result V E)
  unfolding destroy
  set_error r e = Option.map (λ _. record r { storage = err e }) (destroy r)

  pub set_value : Result V E → V → Option (Result V E)
  unfolding destroy
  set_value r v = Option.map (λ _. record r { storage = val v }) (destroy r)

module _ {ℓ κ ι} {V : Type ℓ} {E : Type κ} {R : Type ι} where
  pub map : (V → R) → Result V E → Option (Result R E)
  unfolding get_error value
  map f r =
      if is_error r
      then Option.map from_error (get_error r)
      else Option.map (λ v. from_value (f v)) (value r)

module _ {ℓ κ ι} {V : Type ℓ} {E : Type κ} {S : Type ι} where
  -- `map` with a function that gives nothing: what it does to the state is all that is left of it.
  pub map_void : (V → S → S) → Result V E → S → Option (Result (Unit {0}) E × S)
  unfolding get_error value
  map_void f r s =
      if is_error r
      then Option.map (λ e. (from_error e, s)) (get_error r)
      else Option.map (λ v. (from_value tt, f v s)) (value r)
