-- ===== src/Decimal.antt =====
-- `std::to_string` and `std::stoi` in base ten, which http/httpclient.hpp and http/http_parser.hpp
-- use for `Content-Length`.
pub mod RoundTrip
mod Tests
use libcoio.Base.{
  ℕ, zero, suc, ◌+◌, ◌-◌, ◌*◌, ◌/◌, ◌%◌, ◌^◌, ◌≤◌, ◌<◌, min, max, ◌≡◌, refl, sym, ap, ◌∙◌, ◌≢◌, ◌↔◌,
  ◌⊎◌, inl, inr, Bool, true, false, not, ◌&&◌, ◌||◌, Option, none, some, List, [], ◌∷◌, ◌++◌,
  append-nil, append_assoc, arith, dec_lt, ltb, leb, ◌==◌, if◌then◌else◌, ltb_iff, leb_iff, ==_iff,
  Bool-cases, Option-cases, length, take, drop, replicate, length-append, length-take, length-drop,
  length-replicate, take-append-drop, take_all, drop_all, take-append_of_le, drop-append_of_le,
  take-append_add, drop-append_add, take-append_self, drop-append_self, drop-drop, drop-take,
  take-take, Bytes, codes, occurs, find, find_from, IsFirst, find-IsFirst, find_of_IsFirst,
  find-eq-none, find-none_at, find_from-eq-find, occurs-drop, occurs-append, length_of_occurs,
  find-le-length, find-append, find_splits, starts_with-append, starts_with,
}
use libcoio.Base.{ℤ, pos, negsuc}
use libcoio.Outcome.{Outcome, returned, threw, invalid_argument, out_of_range}

-- The digits of `n`, by fuel: one more than `n` is enough.
pub to_digits : ℕ → ℕ → Bytes
to_digits zero n = []
to_digits (suc f) n =
    let rest = to_digits f (n / 10) in (if ltb n 10 then [] else rest) ++ (b'0' + n % 10) ∷ []

unfoldable pub to_string : ℕ → Bytes
unfolding to_digits
to_string n = to_digits (suc n) n

abbrev pub is_digit : ℕ → Bool
is_digit c = leb b'0' c && leb c b'9'

-- `isspace` in the C locale: space, and \t \n \v \f \r.
abbrev pub is_space : ℕ → Bool
is_space c = c == b' ' || leb 9 c && leb c 13

pub read_digits : ℕ → Bytes → ℕ
read_digits acc [] = acc
read_digits acc (c ∷ cs) = if is_digit c then read_digits (acc * 10 + (c - b'0')) cs else acc

pub skip_space : Bytes → Bytes
skip_space [] = []
skip_space (c ∷ cs) = if is_space c then skip_space cs else c ∷ cs

-- The number behind a sign; `INT_MAX` is 2 ^ 31 - 1 and `INT_MIN` is - 2 ^ 31.
pub stoi_unsigned : Bool → Bytes → Outcome ℤ
unfolding read_digits
stoi_unsigned minus [] = threw invalid_argument
stoi_unsigned minus (c ∷ cs) =
    if not (is_digit c)
    then threw invalid_argument
    else let n = read_digits 0 (c ∷ cs) in
      if minus
      then if leb n (2 ^ 31)
        then returned (if n == 0 then pos 0 else negsuc (n - 1))
        else threw out_of_range
      else if ltb n (2 ^ 31)
      then returned (pos n)
      else threw out_of_range

pub stoi_signed : Bytes → Outcome ℤ
unfolding stoi_unsigned
stoi_signed [] = threw invalid_argument
stoi_signed (c ∷ cs) =
    if c == b'-'
    then stoi_unsigned true cs
    else if c == b'+'
    then stoi_unsigned false cs
    else stoi_unsigned false (c ∷ cs)

unfoldable pub stoi : Bytes → Outcome ℤ
unfolding stoi_signed skip_space
stoi s = stoi_signed (skip_space s)
