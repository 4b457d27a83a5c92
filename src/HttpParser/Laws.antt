-- ===== src/HttpParser/Laws.antt =====
-- Header lookup: which header is found, and that the parser and `http_header` agree. What
-- `parse_response` does to `body_len`.
use libcoio.Base.{
  ℕ, ◌^◌, ◌<◌, ◌≡◌, refl, sym, ap, ◌∙◌, ◌↔◌, inl, inr, true, false, none, some, List, [], ◌∷◌, ◌++◌,
  append-nil, arith, if◌then◌else◌, ==_iff, Bool-cases, length, take, Bytes, codes, ℤ, pos,
}
use mathlib.Core.List.{map}
use libcoio.Outcome.{returned}
use libcoio.Decimal.{to_string, stoi}
use libcoio.Decimal.RoundTrip.{stoi-to_string, to_string-length}
use libcoio.HttpParser.{
  Header, tolower, equal, is_lower_equal, HttpHeader, from_range, find_header, get_header_value,
  add_headers, PhrResponse, HttpParser, max_headers, value_in, parser_header_value, set_body_len,
  parse_response,
}

equal_iff : (a b : Bytes) → (equal a b ≡ true) ↔ (a ≡ b)
unfolding equal
equal_iff [] [] = ((λ h. refl), (λ h. refl))
equal_iff [] (y ∷ ys) = ground arith
equal_iff (x ∷ xs) [] = ground arith
equal_iff (x ∷ xs) (y ∷ ys) = ground (arith, ==_iff x y, equal_iff xs ys)

-- Two names are the same to the library exactly when they agree with every letter in lower case.
pub is_lower_equal_iff :
    (a b : Bytes) → (is_lower_equal a b ≡ true) ↔ (map tolower a ≡ map tolower b)
unfolding is_lower_equal
is_lower_equal_iff a b = equal_iff (map tolower a) (map tolower b)

-- No header of the list has this name.
abbrev pub Lacks : List Header → Bytes → Type 0
Lacks [] key = Unit {0}
Lacks (h ∷ hs) key = (is_lower_equal h.0 key ≡ false) × Lacks hs key

-- The first header with this name has the value `v`.
pub record FirstOf (hs : List Header) (key v : Bytes) : Type 0 where
  pub before : List Header
  pub name : Bytes
  pub after : List Header
  pub split : hs ≡ before ++ ((name, v) ∷ after)
  pub matches : is_lower_equal name key ≡ true
  pub none_before : Lacks before key

find_header-FirstOf :
    (hs : List Header) (key v : Bytes) → find_header hs key ≡ some v → FirstOf hs key v
unfolding find_header
find_header-FirstOf [] key v h = cc
find_header-FirstOf ((k, w) ∷ hs) key v h = elim (Bool-cases (is_lower_equal k key)) [
  | inl e ↦
      let same : w ≡ v = ground arith in
      record { before = []; name = k; after = hs; split = rw same; matches = e; none_before = tt }
  | inr e ↦
      let f = find_header-FirstOf hs key v (ground arith) in
      record {
        before = (k, w) ∷ f.before;
        name = f.name;
        after = f.after;
        split = ap (λ t. (k, w) ∷ t) f.split;
        matches = f.matches;
        none_before = (e, f.none_before);
      }
]

find_header_behind :
    (before : List Header) (name v key : Bytes) (after : List Header)
    → is_lower_equal name key ≡ true
    → Lacks before key
    → find_header (before ++ ((name, v) ∷ after)) key ≡ some v
unfolding find_header
find_header_behind [] name v key after m l = rw m
find_header_behind ((k, w) ∷ hs) name v key after m (l, ls) =
    rw l (find_header_behind hs name v key after m ls)

-- `get_header_value` answers `v` exactly when the first header whose name fits has the value `v`.
pub get_header_value_iff :
    (h : HttpHeader) (key v : Bytes) → (get_header_value h key ≡ some v) ↔ FirstOf h.m_headers key v
unfolding get_header_value
get_header_value_iff h key v = (
  find_header-FirstOf h.m_headers key v,
  λ f.
      ap (λ hs. find_header hs key) f.split
      ∙ find_header_behind f.before f.name v key f.after f.matches f.none_before,
)

find_header-append :
    (hs : List Header) (k v key : Bytes)
    → find_header (hs ++ ((k, v) ∷ [])) key ≡ (elim (find_header hs key) [
      | some w ↦ some w
      | none ↦ (if is_lower_equal k key then some v else none)
    ])
unfolding find_header
find_header-append [] k v key = refl
find_header-append ((j, w) ∷ hs) k v key = ground (arith, find_header-append hs k v key)

-- A header that is added answers only where no earlier one does.
pub get_header_value-add_headers :
    (h : HttpHeader) (k v key : Bytes)
    → get_header_value (add_headers h k v) key ≡ (elim (get_header_value h key) [
      | some w ↦ some w
      | none ↦ (if is_lower_equal k key then some v else none)
    ])
unfolding get_header_value add_headers
get_header_value-add_headers h k v key = find_header-append h.m_headers k v key

value_in-find_header :
    (hs : List Header) (key : Bytes)
    → value_in hs key ≡ (elim (find_header hs key) [ some v ↦ v | none ↦ [] ])
unfolding value_in find_header
value_in-find_header [] key = refl
value_in-find_header ((k, v) ∷ hs) key = ground (arith, value_in-find_header hs key)

-- The parser and the `http_header` made from its headers give the same value for every name; a name
-- without a header is "" to the parser.
pub parser_header_value-from_range :
    (p : HttpParser) (key : Bytes)
    → parser_header_value p key
      ≡ (elim (get_header_value (from_range (take p.headers_cnt p.headers)) key) [
        | some v ↦ v
        | none ↦ []
      ])
unfolding parser_header_value get_header_value from_range
parser_header_value-from_range p key = value_in-find_header (take p.headers_cnt p.headers) key

set_body_len_number :
    (p : HttpParser) (t : Bytes) (len : ℤ) (n : ℕ)
    → 0 < length t
    → stoi t ≡ returned (pos n)
    → set_body_len p t len ≡ (returned len, record p { body_len = n })
unfolding set_body_len
set_body_len_number p [] len n h e = absurd (omega arith)
set_body_len_number p (c ∷ cs) len n h e = rw (e, set_body_len)

module _ (phr : Bytes → ℕ → List Header → PhrResponse) (p : HttpParser) (str : Bytes) where
  -- The value of `Content-Length` among the headers that the parser has just read.
  abbrev pub content_length : Bytes
  content_length =
      let r = phr str max_headers p.headers in
      value_in (take r.num_headers r.headers) (codes "content-length")

  -- A decimal `Content-Length` below 2 ^ 31 becomes the body's length.
  pub parse_response_length :
      (n : ℕ)
      → content_length ≡ to_string n
      → n < 2 ^ 31
      → ((parse_response phr p str).0 ≡ returned (phr str max_headers p.headers).ret)
        × ((parse_response phr p str).1.body_len ≡ n)
  unfolding parse_response parser_header_value
  parse_response_length n h l =
      let number : stoi (to_string n) ≡ returned (pos n) =
        ap stoi (sym (append-nil (to_string n))) ∙ stoi-to_string n [] l tt in
      rw h (rw (set_body_len_number _ (to_string n) _ n (to_string-length n) number) (refl, refl))

  -- Without `Content-Length` the body's length is what the response before left.
  pub parse_response_stale :
      content_length ≡ []
      → ((parse_response phr p str).0 ≡ returned (phr str max_headers p.headers).ret)
        × ((parse_response phr p str).1.body_len ≡ p.body_len)
  unfolding parse_response parser_header_value
  parse_response_stale h = rw (h, set_body_len) (refl, refl)
