-- ===== src/Decimal/RoundTrip.antt =====
-- A printed number is read back, whatever follows it that is no digit.
use libcoio.Base.{
  ℕ, zero, suc, ◌+◌, ◌-◌, ◌*◌, ◌/◌, ◌%◌, ◌^◌, ◌<◌, ◌≡◌, refl, ◌∙◌, inl, inr, true, false, [], ◌∷◌,
  ◌++◌, arith, ltb, if◌then◌else◌, Bool-cases, length, length-append, Bytes, pos,
}
use libcoio.Outcome.{returned}
use libcoio.Decimal.{to_digits, to_string, is_digit, read_digits, stoi}

abbrev pub AllDigits : Bytes → Type 0
AllDigits [] = Unit {0}
AllDigits (c ∷ cs) = (is_digit c ≡ true) × AllDigits cs

AllDigits-append : (xs ys : Bytes) → AllDigits xs → AllDigits ys → AllDigits (xs ++ ys)
AllDigits-append [] ys h k = k
AllDigits-append (x ∷ xs) ys (h, hs) k = (h, AllDigits-append xs ys hs k)

to_digits-AllDigits : (f n : ℕ) → AllDigits (to_digits f n)
unfolding to_digits
to_digits-AllDigits zero n = tt
to_digits-AllDigits (suc f) n =
    AllDigits-append (if ltb n 10 then [] else to_digits f (n / 10)) ((b'0' + n % 10) ∷ [])
      (elim (Bool-cases (ltb n 10)) [
        | inl e ↦ rw e tt
        | inr e ↦ rw e (to_digits-AllDigits f (n / 10))
      ])
      (ground arith, tt)

read_digits-append :
    (acc : ℕ) (xs ys : Bytes)
    → AllDigits xs
    → read_digits acc (xs ++ ys) ≡ read_digits (read_digits acc xs) ys
unfolding read_digits
read_digits-append acc [] ys h = refl
read_digits-append acc (x ∷ xs) ys (h, hs) =
    rw h (read_digits-append (acc * 10 + (x - b'0')) xs ys hs)

read_digits-to_digits : (f n : ℕ) → n < f → read_digits 0 (to_digits f n) ≡ n
unfolding to_digits read_digits
read_digits-to_digits zero n h = absurd (omega arith)
read_digits-to_digits (suc f) n h = elim (Bool-cases (ltb n 10)) [
  | inl e ↦ rw (e, to_digits) (ground arith)
  | inr e ↦
      rw (e, to_digits)
        (rw
          (read_digits-append 0 (to_digits f (n / 10)) ((b'0' + n % 10) ∷ [])
            (to_digits-AllDigits f (n / 10)))
          (rw (read_digits-to_digits f (n / 10) (ground arith)) (ground arith)))
]

-- Text that does not go on with a digit.
abbrev pub Stops : Bytes → Type 0
Stops [] = Unit {0}
Stops (c ∷ cs) = is_digit c ≡ false

read_digits-stop : (acc : ℕ) (ys : Bytes) → Stops ys → read_digits acc ys ≡ acc
unfolding read_digits
read_digits-stop acc [] h = refl
read_digits-stop acc (c ∷ cs) h = rw h

stoi_of_digits :
    (xs ys : Bytes) (n : ℕ)
    → 0 < length xs
    → AllDigits xs
    → read_digits 0 (xs ++ ys) ≡ n
    → n < 2 ^ 31
    → stoi (xs ++ ys) ≡ returned (pos n)
unfolding stoi
stoi_of_digits [] ys n h d e l = absurd (omega arith)
stoi_of_digits (x ∷ xs) ys n h (d, ds) e l = ground arith

to_digits-pos : (f n : ℕ) → 0 < length (to_digits (suc f) n)
unfolding to_digits
to_digits-pos f n =
    omega
      (arith, length-append (if ltb n 10 then [] else to_digits f (n / 10)) ((b'0' + n % 10) ∷ []))

-- `stoi` reads back what `to_string` prints of a number that an `int` holds.
pub stoi-to_string :
    (n : ℕ) (rest : Bytes) → n < 2 ^ 31 → Stops rest → stoi (to_string n ++ rest) ≡ returned (pos n)
unfolding to_string
stoi-to_string n rest l h =
    stoi_of_digits (to_digits (suc n) n) rest n (to_digits-pos n n) (to_digits-AllDigits (suc n) n)
      (read_digits-append 0 (to_digits (suc n) n) rest (to_digits-AllDigits (suc n) n)
        ∙ read_digits-stop _ rest h
        ∙ read_digits-to_digits (suc n) n (omega arith))
      l

pub to_string-length : (n : ℕ) → 0 < length (to_string n)
unfolding to_string
to_string-length n = to_digits-pos n n

pub to_string-AllDigits : (n : ℕ) → AllDigits (to_string n)
unfolding to_string
to_string-AllDigits n = to_digits-AllDigits (suc n) n
