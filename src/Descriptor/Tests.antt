-- ===== src/Descriptor/Tests.antt =====
-- A few objects of include/ioutils/file_descriptor_base.hpp, and the theorems at them.
use libcoio.Base.{◌≡◌, refl, false, List, [], ◌∷◌, arith}
use libcoio.Descriptor.{
  Process, invalid, Call, constructs_from, moves, assigns, closes, destroys, apply, run,
}
use libcoio.Descriptor.Owners.{IsOwned}
use libcoio.Descriptor.Session.{AllAllowed, run-IsOwned}

abbrev empty : Process
empty = record { fd = λ i. invalid; alive = λ i. false; is_open = λ n. false }

empty-IsOwned : IsOwned empty
empty-IsOwned = record {
  opens = λ i n x. cc (x.0);
  unique = λ i j n x y. cc (x.0);
  owned = λ n x. cc (x);
}

abbrev session : List Call
session =
    constructs_from 0 3
    ∷ constructs_from 1 4
    ∷ moves 2 0
    ∷ assigns 2 1
    ∷ closes 2
    ∷ destroys 1
    ∷ destroys 0
    ∷ []

session-AllAllowed : AllAllowed session empty
unfolding AllAllowed
session-AllAllowed = (
  (refl, refl),
  (
    (refl, refl),
    ((refl, refl), (((λ e. omega (arith, e)), refl, refl), (refl, (refl, (refl, tt))))),
  ),
)

all_closed : ((run session empty).is_open 3 ≡ false) × ((run session empty).is_open 4 ≡ false)
unfolding run
all_closed = (refl, refl)

run-IsOwned_example : IsOwned (run session empty)
run-IsOwned_example = run-IsOwned session empty session-AllAllowed empty-IsOwned

abbrev one : Process
one = apply (constructs_from 0 3) empty

one-IsOwned : IsOwned one
unfolding run AllAllowed
one-IsOwned = run-IsOwned (constructs_from 0 3 ∷ []) empty ((refl, refl), tt) empty-IsOwned
