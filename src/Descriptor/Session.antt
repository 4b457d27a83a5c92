-- ===== src/Descriptor/Session.antt =====
-- Any session of calls on the objects of include/ioutils/file_descriptor_base.hpp keeps one owner for
-- each open descriptor.
use libcoio.Base.{
  put, put-here, put-there, ℕ, ◌≡◌, refl, sym, ap, ◌∙◌, ◌≢◌, ◌⊎◌, inl, inr, true, false, List, [],
  ◌∷◌, ◌==◌, ==_iff, Bool-cases, ℤ, pos, negsuc,
}
use mathlib.Core.Path.{subst}
use libcoio.Descriptor.{
  Process, invalid, same_fd, move_assign, construct_from, Call, constructs, constructs_from, moves,
  assigns, closes, destroys, async_closes, apply, run,
}
use libcoio.Descriptor.Owners.{
  Holds, IsOwned, construct-IsOwned, move_construct-IsOwned, move_assign-IsOwned, close-IsOwned,
  destroy-IsOwned,
}

-- What a program may do: an object is constructed once and used while it lives, the kernel opens a
-- descriptor that was not open, and an object is not assigned to itself.
abbrev pub Allowed : Call → Process → Type 0
Allowed (constructs i) p = p.alive i ≡ false
Allowed (constructs_from i n) p = (p.alive i ≡ false) × (p.is_open n ≡ false)
Allowed (moves i j) p = (p.alive i ≡ false) × (p.alive j ≡ true)
Allowed (assigns i j) p = (i ≢ j) × (p.alive i ≡ true) × (p.alive j ≡ true)
Allowed (closes i) p = p.alive i ≡ true
Allowed (destroys i) p = p.alive i ≡ true
Allowed (async_closes res i) p = p.alive i ≡ true

unfoldable pub AllAllowed : List Call → Process → Type 0
AllAllowed [] p = Unit
AllAllowed (c ∷ cs) p = Allowed c p × AllAllowed cs (apply c p)

-- What an object holds after `construct_from`.
from_before :
    (i m : ℕ) (p : Process) (k n : ℕ)
    → Holds (construct_from i m p) k n
    → ((k ≡ i) × (n ≡ m)) ⊎ ((k ≢ i) × Holds p k n)
from_before i m p k n x = elim (Bool-cases (k == i)) [
  | inl e ↦
      let here = (==_iff k i).0 e in
      inl (
        here,
        let q : pos n ≡ pos m = sym x.1 ∙ ap (put p.fd i (pos m)) here ∙ put-here p.fd i (pos m) in
            cc (q),
      )
  | inr e ↦
      let away : k ≢ i = λ f. cc (e, (==_iff k i).1 f) in
      inr (
        away,
        (sym (put-there p.alive i k true away) ∙ x.0, sym (put-there p.fd i k (pos m) away) ∙ x.1),
      )
]

from_after :
    (i m : ℕ) (p : Process) (k n : ℕ) → k ≢ i → Holds p k n → Holds (construct_from i m p) k n
from_after i m p k n away x =
    (put-there p.alive i k true away ∙ x.0, put-there p.fd i k (pos m) away ∙ x.1)

pub construct_from-IsOwned :
    (i m : ℕ) (p : Process)
    → ((n : ℕ) → ¬ Holds p i n)
    → p.is_open m ≡ false
    → IsOwned p
    → IsOwned (construct_from i m p)
construct_from-IsOwned i m p empty free h = record {
  opens = λ k n x. elim (from_before i m p k n x) [
    | inl e ↦ ap (put p.is_open m true) e.1 ∙ put-here p.is_open m true
    | inr y ↦ put-there p.is_open m n true (not_new k n y.1) ∙ h.opens k n y.1
  ];
  unique = λ k l n x y. elim (from_before i m p k n x) [
    | inl e ↦ elim (from_before i m p l n y) [
      | inl f ↦ e.0 ∙ sym f.0
      | inr f ↦ absurd (not_new l n f.1 e.1)
    ]
    | inr e ↦ elim (from_before i m p l n y) [
      | inl f ↦ absurd (not_new k n e.1 f.1)
      | inr f ↦ h.unique k l n e.1 f.1
    ]
  ];
  owned = λ n x. elim (Bool-cases (n == m)) [
    | inl e ↦
        (i, (put-here p.alive i true, put-here p.fd i (pos m) ∙ ap pos (sym ((==_iff n m).0 e))))
    | inr e ↦
        let old =
          h.owned n (sym (put-there p.is_open m n true (λ f. cc (e, (==_iff n m).1 f))) ∙ x) in
        (old.0, from_after i m p old.0 n (λ f. empty n (subst (λ k. Holds p k n) f old.1)) old.1)
  ];
}
  where
    not_new : (k n : ℕ) → Holds p k n → n ≢ m
    not_new k n x e = cc (h.opens k n x, ap p.is_open e, free)

apply-IsOwned : (c : Call) (p : Process) → Allowed c p → IsOwned p → IsOwned (apply c p)
apply-IsOwned (constructs i) p a h = construct-IsOwned i p a h
apply-IsOwned (constructs_from i n) p a h =
    construct_from-IsOwned i n p (λ m x. cc (x.0, a.0)) a.1 h
apply-IsOwned (moves i j) p a h = move_construct-IsOwned i j p a.0 a.1 h
apply-IsOwned (assigns i j) p a h = move_assign-IsOwned i j p a.0 a.1 a.2 h
apply-IsOwned (closes i) p a h = close-IsOwned i p a h
apply-IsOwned (destroys i) p a h = destroy-IsOwned i p a h
apply-IsOwned (async_closes (pos n) i) p a h = close-IsOwned i p a h
apply-IsOwned (async_closes (negsuc n) i) p a h = h

-- Over any session of constructions, moves, assignments between two objects, closes, asynchronous
-- closes that succeed or fail, and destructions, every descriptor that is open has an object that holds
-- it, every descriptor that a living object holds is open, and no two objects hold the same: none is
-- leaked, and none is closed under another's hands or twice.
pub run-IsOwned : (cs : List Call) (p : Process) → AllAllowed cs p → IsOwned p → IsOwned (run cs p)
unfolding run AllAllowed
run-IsOwned [] p a h = h
run-IsOwned (c ∷ cs) p a h = run-IsOwned cs (apply c p) a.1 (apply-IsOwned c p a.0 h)

same_fd_refl : (x : ℤ) → same_fd x x ≡ true
same_fd_refl (pos n) = (==_iff n n).1 refl
same_fd_refl (negsuc n) = (==_iff n n).1 refl

-- An object that is assigned to itself loses its descriptor: it stays open, and no object holds it.
pub move_assign_self :
    (i n : ℕ) (p : Process)
    → IsOwned p
    → Holds p i n
    → ((move_assign i i p).is_open n ≡ true) × ((k : ℕ) → ¬ Holds (move_assign i i p) k n)
move_assign_self i n p h x = rw (same_fd_refl (p.fd i)) (
  h.opens i n x,
  (λ k y. elim (Bool-cases (k == i)) [
    | inl e ↦
        let here = (==_iff k i).0 e in
        cc (
          y.1,
          ap (put (put p.fd i (p.fd i)) i invalid) here,
          put-here (put p.fd i (p.fd i)) i invalid,
        )
    | inr e ↦
        let away : k ≢ i = λ f. cc (e, (==_iff k i).1 f) in
        away (
          h.unique k i n
            (
              y.0,
              sym (
                    put-there (put p.fd i (p.fd i)) i k invalid away
                    ∙ put-there p.fd i k (p.fd i) away)
                  ∙ y.1,
            )
            x)
  ]),
)
