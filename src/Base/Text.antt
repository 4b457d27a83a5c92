-- ===== src/Base/Text.antt =====
-- Byte strings, and what the code uses of `std::string_view`: comparison of a prefix and `find`.
use Prim.Native.Nat.{ℕ, zero, suc, ◌+◌, ◌-◌, ◌≤◌, ◌<◌}
use Prim.Native.Char.{code}
use Prim.Native.String.{String}
use mathlib.Core.Path.{◌≡◌, refl, sym, ap, ◌∙◌}
use mathlib.Core.Logic.{inl, inr}
use mathlib.Core.Bool.{Bool, true, false, ◌&&◌}
use mathlib.Core.Option.{Option, none, some}
use mathlib.Core.Option
use mathlib.Core.List.{List, [], ◌∷◌, ◌++◌}
use native.Mathlib.Omega.{arith}
use native.Mathlib.Decide.{dec_lt}
use libcoio.Base.Tests.{◌==◌, leb, if◌then◌else◌, ==_iff, leb_iff, Option-cases}
use libcoio.Base.Lists.{
  length, take, drop, length-append, length-drop, drop-append_of_le, drop-drop, take-append-drop,
}

abbrev pub Bytes : Type 0
Bytes = List ℕ

-- The bytes of an ASCII literal.
abbrev pub codes : String → Bytes
codes String.[] = []
codes (String.◌∷◌ c s) = code c ∷ codes s

unfoldable pub starts_with : Bytes → Bytes → Bool
starts_with [] s = true
starts_with (d ∷ ds) [] = false
starts_with (d ∷ ds) (c ∷ cs) = d == c && starts_with ds cs

-- The text `d` stands in `s` at position `q`.
abbrev pub occurs : Bytes → Bytes → ℕ → Bool
occurs d s q = starts_with d (drop q s)

-- `s.find(d)`; `none` is `npos`.
unfoldable pub find : Bytes → Bytes → Option ℕ
unfolding starts_with
find d [] = if starts_with d [] then some 0 else none
find d (c ∷ s) = if starts_with d (c ∷ s) then some 0 else Option.map suc (find d s)

-- `s.find(d, beg)`
unfoldable pub find_from : Bytes → Bytes → ℕ → Option ℕ
find_from d s beg =
    if leb beg (length s) then Option.map (λ p. beg + p) (find d (drop beg s)) else none

pub record IsFirst (d s : Bytes) (p : ℕ) : Type 0 where
  pub here : occurs d s p ≡ true
  pub before : (q : ℕ) → q < p → occurs d s q ≡ false

pub starts_with-append : (d s : Bytes) → starts_with d (d ++ s) ≡ true
unfolding starts_with
starts_with-append [] s = refl
starts_with-append (d ∷ ds) s = ground (arith, ==_iff d d, starts_with-append ds s)

pub starts_with-eq : (d s : Bytes) → starts_with d s ≡ true → s ≡ d ++ drop (length d) s
unfolding starts_with
starts_with-eq [] s h = refl
starts_with-eq (d ∷ ds) [] h = cc
starts_with-eq (d ∷ ds) (c ∷ cs) h = ground (arith, ==_iff d c, starts_with-eq ds cs)

pub starts_with-append_of_le :
    (d s t : Bytes) → length d ≤ length s → starts_with d (s ++ t) ≡ starts_with d s
unfolding starts_with
starts_with-append_of_le [] s t h = refl
starts_with-append_of_le (d ∷ ds) [] t h = absurd (omega arith)
starts_with-append_of_le (d ∷ ds) (c ∷ cs) t h =
    ground (arith, starts_with-append_of_le ds cs t (omega arith))

pub find-none_at : (d s : Bytes) (q : ℕ) → find d s ≡ none → occurs d s q ≡ false
unfolding find
find-none_at d [] zero h = ground arith
find-none_at d [] (suc q) h = ground arith
find-none_at d (c ∷ s) zero h = ground arith
find-none_at d (c ∷ s) (suc q) h = ground (arith, find-none_at d s q)

find-some_at : (d s : Bytes) (p : ℕ) → find d s ≡ some p → occurs d s p ≡ true
unfolding find
find-some_at d [] zero h = ground arith
find-some_at d [] (suc p) h = ground arith
find-some_at d (c ∷ s) zero h = ground arith
find-some_at d (c ∷ s) (suc p) h = ground (arith, find-some_at d s p)

find-some_before : (d s : Bytes) (p q : ℕ) → find d s ≡ some p → q < p → occurs d s q ≡ false
unfolding find
find-some_before d [] p q h l = ground arith
find-some_before d (c ∷ s) p zero h l = ground arith
find-some_before d (c ∷ s) zero (suc q) h l = absurd (omega arith)
find-some_before d (c ∷ s) (suc p) (suc q) h l = ground (arith, find-some_before d s p q)

-- `find` gives the first position at which the text stands.
pub find-IsFirst : (d s : Bytes) (p : ℕ) → find d s ≡ some p → IsFirst d s p
find-IsFirst d s p h = record {
  here = find-some_at d s p h;
  before = λ q l. find-some_before d s p q h l;
}

pub find_of_IsFirst : (d s : Bytes) (p : ℕ) → IsFirst d s p → find d s ≡ some p
unfolding find
find_of_IsFirst d [] zero f = ground (arith, f.here)
find_of_IsFirst d [] (suc p) f = ground (arith, f.here, f.before 0 (omega arith))
find_of_IsFirst d (c ∷ s) zero f = ground (arith, f.here)
find_of_IsFirst d (c ∷ s) (suc p) f =
    let rest =
      find_of_IsFirst d s p
        (record { here = f.here; before = λ q l. f.before (suc q) (omega arith) }) in
    ground (arith, rest, f.before 0 (omega arith))

pub find-eq-none : (d s : Bytes) → ((q : ℕ) → occurs d s q ≡ false) → find d s ≡ none
find-eq-none d s h = elim (Option-cases (find d s)) [
  | inl e ↦ e
  | inr (p, e) ↦ cc (find-some_at d s p e, h p)
]

pub occurs-drop : (d s : Bytes) (m q : ℕ) → occurs d (drop m s) q ≡ occurs d s (m + q)
occurs-drop d s m q = ap (starts_with d) (drop-drop q m s)

shift_before :
    (d s : Bytes) (m p : ℕ)
    → ((q : ℕ) → q < m → occurs d s q ≡ false)
    → ((q : ℕ) → q < p → occurs d (drop m s) q ≡ false)
    → (q : ℕ) → q < m + p
    → occurs d s q ≡ false
shift_before d s m p low high q l = elim (dec_lt q m) [
  | yes a ↦ low q a
  | no b ↦
      ap (occurs d s) (let e : q ≡ m + (q - m) = omega arith in e)
      ∙ sym (occurs-drop d s m (q - m))
      ∙ high (q - m) (omega arith)
]

-- Where nothing stands before `beg`, a search from `beg` is the search from the start.
pub find_from-eq-find :
    (d s : Bytes) (beg : ℕ)
    → beg ≤ length s
    → ((q : ℕ) → q < beg → occurs d s q ≡ false)
    → find_from d s beg ≡ find d s
unfolding find_from
find_from-eq-find d s beg h low = elim (Option-cases (find d (drop beg s))) [
  | inl e ↦
      let absent = find-eq-none d s (λ q.
        shift_before d s beg (suc q) low (λ k _. find-none_at d (drop beg s) k e) q
          (omega arith)) in
      rw ((leb_iff beg (length s)).1 h, e, absent)
  | inr (p, e) ↦
      let f = find-IsFirst d (drop beg s) p e in
      let first : IsFirst d s (beg + p) = record {
        here = sym (occurs-drop d s beg p) ∙ f.here;
        before = shift_before d s beg p low f.before;
      } in
      rw ((leb_iff beg (length s)).1 h, e, find_of_IsFirst d s (beg + p) first)
]

pub length_of_occurs :
    (d s : Bytes) (p : ℕ) → p ≤ length s → occurs d s p ≡ true → p + length d ≤ length s
length_of_occurs d s p l h = omega (
  arith,
  ap length (starts_with-eq d (drop p s) h),
  length-drop p s,
  length-append d (drop (length d) (drop p s)),
)

pub occurs-append :
    (d s t : Bytes) (q : ℕ) → q + length d ≤ length s → occurs d (s ++ t) q ≡ occurs d s q
occurs-append d s t q h =
    ap (starts_with d) (drop-append_of_le q s t (omega arith))
    ∙ starts_with-append_of_le d (drop q s) t (omega (arith, length-drop q s))

pub find-le-length : (d s : Bytes) (p : ℕ) → find d s ≡ some p → p ≤ length s
unfolding find
find-le-length d [] p h = ground arith
find-le-length d (c ∷ s) zero h = omega arith
find-le-length d (c ∷ s) (suc p) h = ground (arith, find-le-length d s p)

-- What is found stays found, at the same place, when text is added behind.
pub find-append : (d s t : Bytes) (p : ℕ) → find d s ≡ some p → find d (s ++ t) ≡ some p
find-append d s t p h =
    let f = find-IsFirst d s p h in
    let fits = length_of_occurs d s p (find-le-length d s p h) f.here in
    find_of_IsFirst d (s ++ t) p (record {
      here = occurs-append d s t p fits ∙ f.here;
      before = λ q l. occurs-append d s t q (omega arith) ∙ f.before q l;
    })

-- The text behind what `find` gives.
pub find_splits :
    (d s : Bytes) (p : ℕ) → find d s ≡ some p → s ≡ take p s ++ (d ++ drop (p + length d) s)
find_splits d s p h =
    sym (take-append-drop p s)
    ∙ ap (λ t. take p s ++ t)
        (starts_with-eq d (drop p s) (find-some_at d s p h)
          ∙ ap (λ t. d ++ t) (drop-drop (length d) p s))
