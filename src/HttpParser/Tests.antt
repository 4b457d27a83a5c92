-- ===== src/HttpParser/Tests.antt =====
-- A small response head, and the theorems at it.
use libcoio.Base.{ℕ, ◌≡◌, refl, none, some, List, [], ◌∷◌, if◌then◌else◌, Bytes, codes, pos}
use libcoio.Decimal.{to_string}
use libcoio.HttpParser.{
  Header, from_range, get_header_value, add_headers, is_lower_equal, tolower, equal, PhrResponse,
  HttpParser, init, value_in,
}
use libcoio.HttpParser.Laws.{is_lower_equal_iff, get_header_value-add_headers, content_length}
use mathlib.Core.List.{map}

abbrev parsed_headers : List Header
parsed_headers = (codes "Server", codes "x") ∷ (codes "CONTENT-length", codes "12") ∷ []

-- A parser that always answers these headers.
abbrev with_length : Bytes → ℕ → List Header → PhrResponse
with_length str n hs = record {
  ret = pos 40;
  status = 200;
  msg = codes "OK";
  headers = parsed_headers;
  num_headers = 2;
}

-- One that answers no header at all.
abbrev without_length : Bytes → ℕ → List Header → PhrResponse
without_length str n hs = record {
  ret = pos 19;
  status = 204;
  msg = [];
  headers = hs;
  num_headers = 0;
}

abbrev used : HttpParser
used = record {
  headers = parsed_headers;
  headers_cnt = 2;
  body_len = 12;
  message = [];
  status = 200;
}

found : get_header_value (from_range parsed_headers) (codes "content-length") ≡ some (codes "12")
unfolding get_header_value from_range is_lower_equal equal tolower
found = refl

is_lower_equal_iff_example : map tolower (codes "HOST") ≡ map tolower (codes "host")
unfolding is_lower_equal equal tolower
is_lower_equal_iff_example = (is_lower_equal_iff (codes "HOST") (codes "host")).0 refl

get_header_value-add_headers_example :
    get_header_value
      (add_headers (from_range parsed_headers) (codes "Host") (codes "h"))
      (codes "host")
    ≡ (elim (get_header_value (from_range parsed_headers) (codes "host")) [
      | some w ↦ some w
      | none ↦ (if is_lower_equal (codes "Host") (codes "host") then some (codes "h") else none)
    ])
get_header_value-add_headers_example =
    get_header_value-add_headers (from_range parsed_headers) (codes "Host") (codes "h")
      (codes "host")

twelve : content_length with_length init [] ≡ to_string 12
unfolding value_in is_lower_equal equal tolower to_string
twelve = refl
