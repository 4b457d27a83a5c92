-- ===== src/HttpParser.antt =====
-- include/http/http_parser.hpp. `phr_parse_response` is picohttpparser's: a parameter.
pub mod Laws
mod Tests
use mathlib.Core.List.{map}
use libcoio.Base.{
  ℕ, zero, suc, ◌+◌, ◌-◌, ◌*◌, ◌/◌, ◌%◌, ◌^◌, ◌≤◌, ◌<◌, min, max, ◌≡◌, refl, sym, ap, ◌∙◌, ◌≢◌, ◌↔◌,
  ◌⊎◌, inl, inr, Bool, true, false, not, ◌&&◌, ◌||◌, Option, none, some, List, [], ◌∷◌, ◌++◌,
  append-nil, append_assoc, arith, dec_lt, ltb, leb, ◌==◌, if◌then◌else◌, ltb_iff, leb_iff, ==_iff,
  Bool-cases, Option-cases, length, take, drop, replicate, length-append, length-take, length-drop,
  length-replicate, take-append-drop, take_all, drop_all, take-append_of_le, drop-append_of_le,
  take-append_add, drop-append_add, take-append_self, drop-append_self, drop-drop, drop-take,
  take-take, Bytes, codes, occurs, find, find_from, IsFirst, find-IsFirst, find_of_IsFirst,
  find-eq-none, find-none_at, find_from-eq-find, occurs-drop, occurs-append, length_of_occurs,
  find-le-length, find-append, find_splits, starts_with-append, starts_with,
}
use libcoio.Base.{ℤ, pos, negsuc, to_size_t}
use libcoio.Outcome.{Outcome, returned, threw}
use libcoio.Decimal.{stoi}

-- A header's name and value.
abbrev pub Header : Type 0
Header = Bytes × Bytes

-- `std::tolower` in the C locale.
unfoldable pub tolower : ℕ → ℕ
tolower c = if leb b'A' c && leb c b'Z' then c + 32 else c

-- `std::ranges::equal`
unfoldable pub equal : Bytes → Bytes → Bool
equal [] [] = true
equal [] (y ∷ ys) = false
equal (x ∷ xs) [] = false
equal (x ∷ xs) (y ∷ ys) = x == y && equal xs ys

unfoldable pub is_lower_equal : Bytes → Bytes → Bool
is_lower_equal a b = equal (map tolower a) (map tolower b)

-- `http_header`: its vector of names and values, in order.
pub record HttpHeader : Type 0 where
  pub m_headers : List Header

-- The constructor from a range of `phr_header`s.
unfoldable pub from_range : List Header → HttpHeader
from_range r = record { m_headers = r }

find_header : List Header → Bytes → Option Bytes
find_header [] key = none
find_header ((k, v) ∷ hs) key = if is_lower_equal k key then some v else find_header hs key

pub get_header_value : HttpHeader → Bytes → Option Bytes
unfolding find_header
get_header_value h key = find_header h.m_headers key

pub add_headers : HttpHeader → Bytes → Bytes → HttpHeader
add_headers h k v = record { m_headers = h.m_headers ++ ((k, v) ∷ []) }

-- What `phr_parse_response` returns and leaves in its out-parameters: the array is `headers`.
pub record PhrResponse : Type 0 where
  pub ret : ℤ
  pub status : ℕ
  pub msg : Bytes
  pub headers : List Header
  pub num_headers : ℕ

abbrev pub max_headers : ℕ
max_headers = 100

-- The source's `headers` and `message` point into the text that was parsed; here they are what they show
-- while that text lives. Who reads them later has to say what has become of it.
pub record HttpParser : Type 0 where
  pub headers : List Header
  pub headers_cnt : ℕ
  pub body_len : ℕ
  pub message : Bytes
  pub status : ℕ

unfoldable pub init : HttpParser
init = record {
  headers = replicate max_headers ([], []);
  headers_cnt = 0;
  body_len = 0;
  message = [];
  status = 0;
}

-- `http_parser::get_header_value` over the first `headers_cnt` entries; "" where none fits.
unfoldable pub value_in : List Header → Bytes → Bytes
value_in [] key = []
value_in ((k, v) ∷ hs) key = if is_lower_equal k key then v else value_in hs key

unfoldable pub parser_header_value : HttpParser → Bytes → Bytes
unfolding value_in
parser_header_value p key = value_in (take p.headers_cnt p.headers) key

-- `if (!content_len.empty()) body_len = std::stoi(...)`; the state is kept when `stoi` throws.
unfoldable pub set_body_len : HttpParser → Bytes → ℤ → Outcome ℤ × HttpParser
set_body_len p [] len = (returned len, p)
set_body_len p (c ∷ cs) len = elim (stoi (c ∷ cs)) [
  | returned n ↦ (returned len, record p { body_len = to_size_t n })
  | threw e ↦ (threw e, p)
]

-- `phr` is given the text, the capacity of the header array and the array.
unfoldable pub parse_response :
    (Bytes → ℕ → List Header → PhrResponse) → HttpParser → Bytes → Outcome ℤ × HttpParser
unfolding set_body_len
parse_response phr p str =
    let r = phr str max_headers p.headers in
    let p' = record p {
      headers = r.headers;
      headers_cnt = r.num_headers;
      message = r.msg;
      status = r.status;
    } in
    set_body_len p' (parser_header_value p' (codes "content-length")) r.ret
