-- ===== src/Resolver/Weights.antt =====
-- The sum of a weight over the lists of include/http/resolver.hpp.
use libcoio.Base.{
  ℕ, ◌+◌, ◌≡◌, refl, List, [], ◌∷◌, ◌++◌, arith, ◌==◌, if◌then◌else◌, ==_iff, length,
}
use libcoio.Resolver.{Answer, swapped}

-- With 1 for one number and 0 for the others it counts that one.
unfoldable pub weigh : (ℕ → ℕ) → List ℕ → ℕ
weigh f [] = 0
weigh f (x ∷ xs) = f x + weigh f xs

abbrev pub indicator : ℕ → ℕ → ℕ
indicator a b = if a == b then 1 else 0

abbrev pub count : ℕ → List ℕ → ℕ
count a xs = weigh (indicator a) xs

pub indicator_self : (a : ℕ) → indicator a a ≡ 1
indicator_self a = rw ((==_iff a a).1 refl) refl

pub weigh_nil : (f : ℕ → ℕ) → weigh f [] ≡ 0
unfolding weigh
weigh_nil f = refl

pub weigh_cons : (f : ℕ → ℕ) (a : ℕ) (xs : List ℕ) → weigh f (a ∷ xs) ≡ f a + weigh f xs
unfolding weigh
weigh_cons f a xs = refl

weigh-append : (f : ℕ → ℕ) (xs ys : List ℕ) → weigh f (xs ++ ys) ≡ weigh f xs + weigh f ys
weigh-append f [] ys = omega (arith, weigh_nil f)
weigh-append f (x ∷ xs) ys =
    omega (arith, weigh-append f xs ys, weigh_cons f x xs, weigh_cons f x (xs ++ ys))

pub length-eq-weigh : (xs : List ℕ) → length xs ≡ weigh (λ _. 1) xs
unfolding weigh
length-eq-weigh [] = refl
length-eq-weigh (x ∷ xs) = omega (arith, length-eq-weigh xs)

pub weigh_zero : (f : ℕ → ℕ) (xs : List ℕ) → weigh (λ _. 1) xs ≡ 0 → weigh f xs ≡ 0
unfolding weigh
weigh_zero f [] h = refl
weigh_zero f (x ∷ xs) h = absurd (omega (arith, h))

-- A query at the end of a list, and in the middle.
pub weigh_last : (f : ℕ → ℕ) (xs : List ℕ) (a : ℕ) → weigh f (xs ++ (a ∷ [])) ≡ weigh f xs + f a
weigh_last f xs a = omega (arith, weigh-append f xs (a ∷ []), weigh_cons f a [], weigh_nil f)

pub weigh_middle :
    (f : ℕ → ℕ) (xs ys : List ℕ) (a : ℕ) → weigh f (xs ++ (a ∷ ys)) ≡ weigh f (xs ++ ys) + f a
weigh_middle f xs ys a =
    omega (arith, weigh-append f xs (a ∷ ys), weigh-append f xs ys, weigh_cons f a ys)

unfoldable pub recipients : List Answer → List ℕ
recipients [] = []
recipients (x ∷ xs) = x.awaiter ∷ recipients xs

pub recipients_nil : (f : ℕ → ℕ) → weigh f (recipients []) ≡ 0
unfolding recipients
recipients_nil f = weigh_nil f

pub recipients_cons :
    (f : ℕ → ℕ) (x : Answer) (xs : List Answer)
    → weigh f (recipients (x ∷ xs)) ≡ f x.awaiter + weigh f (recipients xs)
unfolding recipients
recipients_cons f x xs = weigh_cons f x.awaiter (recipients xs)

pub recipients_last :
    (f : ℕ → ℕ) (xs : List Answer) (x : Answer)
    → weigh f (recipients (xs ++ (x ∷ []))) ≡ weigh f (recipients xs) + f x.awaiter
recipients_last f [] x = omega (arith, recipients_cons f x [], recipients_nil f)
recipients_last f (y ∷ ys) x =
    omega
      (arith, recipients_last f ys x, recipients_cons f y (ys ++ (x ∷ [])), recipients_cons f y ys)

pub recipients_middle :
    (f : ℕ → ℕ) (xs : List Answer) (x : Answer) (ys : List Answer)
    → weigh f (recipients (xs ++ (x ∷ ys))) ≡ weigh f (recipients (xs ++ ys)) + f x.awaiter
recipients_middle f [] x ys = omega (arith, recipients_cons f x ys)
recipients_middle f (y ∷ xs) x ys = omega (
  arith,
  recipients_middle f xs x ys,
  recipients_cons f y (xs ++ (x ∷ ys)),
  recipients_cons f y (xs ++ ys),
)

-- The swap moves queries from one list to the other.
pub swapped_lem :
    (f : ℕ → ℕ) (q l : List ℕ)
    → weigh f (swapped q l).0 + weigh f (swapped q l).1 ≡ weigh f l + weigh f q
swapped_lem f q [] = omega arith
swapped_lem f q (a ∷ l) = refl
