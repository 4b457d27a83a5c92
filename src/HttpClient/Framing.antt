-- ===== src/HttpClient/Framing.antt =====
-- Where the head of a request that http/httpclient.hpp builds ends.
use libcoio.Base.{
  ℕ, suc, ◌+◌, ◌<◌, ◌≡◌, refl, sym, ap, ◌∙◌, ◌≢◌, inl, inr, Bool, true, false, not, ◌&&◌, ◌||◌,
  some, List, [], ◌∷◌, ◌++◌, append_assoc, arith, ◌==◌, if◌then◌else◌, ==_iff, Bool-cases, length,
  drop, length-append, Bytes, codes, occurs, find, starts_with,
}
use mathlib.Core.Path.{subst}
use libcoio.Decimal.{to_string, is_digit}
use libcoio.Decimal.RoundTrip.{AllDigits, to_string-AllDigits}
use libcoio.Url.{Url}
use libcoio.HttpClient.Message.{
  HttpMethod, get, post, head, to_str, is_post, is_empty, crlf, dcrlf, header_lines, build_msg,
}

-- A text without the byte CR.
abbrev pub Plain : Bytes → Type 0
Plain [] = Unit {0}
Plain (c ∷ cs) = (c ≢ 13) × Plain cs

pub Plain-append : (xs ys : Bytes) → Plain xs → Plain ys → Plain (xs ++ ys)
Plain-append [] ys p q = q
Plain-append (x ∷ xs) ys (h, p) q = (h, Plain-append xs ys p q)

abbrev pub has_no_cr : Bytes → Bool
has_no_cr [] = true
has_no_cr (c ∷ cs) = not (c == 13) && has_no_cr cs

pub ascii : (xs : Bytes) → has_no_cr xs ≡ true → Plain xs
ascii [] h = tt
ascii (c ∷ cs) h = (
  (λ e. let found : (c == 13) ≡ true = (==_iff c 13).1 e in ground (arith, h, found)),
  ascii cs (ground (arith, h)),
)

digits-Plain : (xs : Bytes) → AllDigits xs → Plain xs
digits-Plain [] d = tt
digits-Plain (x ∷ xs) (d, ds) = (
  λ e. let digit : is_digit 13 ≡ true = sym (ap is_digit e) ∙ d in cc (digit),
  digits-Plain xs ds,
)

-- The first empty line of `s` is followed by `body`.
abbrev pub EndsHead : Bytes → Bytes → Type 0
EndsHead s body = (q : ℕ) × (find dcrlf s ≡ some q) × (drop (q + 4) s ≡ body)

-- One byte that begins no empty line.
one_more :
    (c : ℕ) (s body : Bytes)
    → occurs dcrlf (c ∷ s) 0 ≡ false
    → EndsHead s body
    → EndsHead (c ∷ s) body
unfolding find
one_more c s body h (q, f, d) =
    (suc q, rw (h, f) refl, (let shift : suc q + 4 ≡ suc (q + 4) = omega arith in rw shift d))

not_cr : (c : ℕ) → c ≢ 13 → (13 == c) ≡ false
not_cr c h = elim (Bool-cases (13 == c)) [
  | inl e ↦ absurd (h (sym ((==_iff 13 c).0 e)))
  | inr e ↦ e
]

text-EndsHead : (xs s body : Bytes) → Plain xs → EndsHead s body → EndsHead (xs ++ s) body
unfolding starts_with
text-EndsHead [] s body p h = h
text-EndsHead (x ∷ xs) s body (n, p) h =
    one_more x (xs ++ s) body (rw (not_cr x n) refl) (text-EndsHead xs s body p h)

-- After the end of a line, another line or the empty one.
abbrev pub EndsLines : Bytes → Bytes → Type 0
EndsLines s body = EndsHead (crlf ++ s) body

empty_line : (body : Bytes) → EndsLines (crlf ++ body) body
unfolding find starts_with
empty_line body = (0, refl, refl)

line :
    (c : ℕ) (cs s body : Bytes)
    → Plain (c ∷ cs)
    → EndsLines s body
    → EndsLines ((c ∷ cs) ++ (crlf ++ s)) body
unfolding starts_with
line c cs s body (n, p) h =
    let text = text-EndsHead (c ∷ cs) (crlf ++ s) body (n, p) h in
    one_more 13 (10 ∷ (c ∷ cs) ++ (crlf ++ s)) body (rw (not_cr c n) refl)
      (one_more 10 ((c ∷ cs) ++ (crlf ++ s)) body refl text)

-- A header without CR in its name and its value.
abbrev pub AllPlain : List (Bytes × Bytes) → Type 0
AllPlain [] = Unit {0}
AllPlain ((k, v) ∷ m) = (Plain k × Plain v) × AllPlain m

any_line :
    (xs s body : Bytes)
    → 0 < length xs
    → Plain xs
    → EndsLines s body
    → EndsLines (xs ++ (crlf ++ s)) body
any_line [] s body some_text p h = absurd (omega arith)
any_line (c ∷ cs) s body some_text p h = line c cs s body p h

header_text :
    (k v rest s : Bytes)
    → (k ++ (codes ": " ++ (v ++ (crlf ++ rest)))) ++ s
      ≡ (k ++ (codes ": " ++ v)) ++ (crlf ++ (rest ++ s))
header_text k v rest s = simp append_assoc refl

headers :
    (m : List (Bytes × Bytes)) (s body : Bytes)
    → AllPlain m
    → EndsLines s body
    → EndsLines (header_lines m ++ s) body
unfolding header_lines
headers [] s body p h = h
headers ((k, v) ∷ m) s body ((pk, pv), ps) h =
    let text = k ++ (codes ": " ++ v) in
    let plain : Plain text =
      Plain-append k (codes ": " ++ v) pk
        (Plain-append (codes ": ") v (ascii (codes ": ") refl) pv) in
    let later =
      any_line text (header_lines m ++ s) body (omega (arith, length-append k (codes ": " ++ v)))
        plain (headers m s body ps h) in
    subst (λ t. EndsLines t body) (sym (header_text k v (header_lines m) s)) later

with_length :
    (announced : Bool) (body : Bytes)
    → EndsLines
        ((if announced then codes "Content-Length: " ++ (to_string (length body) ++ crlf) else [])
          ++ (crlf ++ body))
        body
with_length false body = empty_line body
with_length true body =
    let digits = to_string (length body) in
    let text = codes "Content-Length: " ++ digits in
    let plain =
      Plain-append (codes "Content-Length: ") digits (ascii (codes "Content-Length: ") refl)
        (digits-Plain digits (to_string-AllDigits (length body))) in
    let whole : text ++ (crlf ++ (crlf ++ body))
        ≡ (codes "Content-Length: " ++ (digits ++ crlf)) ++ (crlf ++ body) =
      simp append_assoc refl in
    subst (λ t. EndsLines t body) whole
      (any_line text (crlf ++ body) body
        (omega (arith, length-append (codes "Content-Length: ") digits)) plain (empty_line body))

to_str-Plain : (m : HttpMethod) → Plain (to_str m)
to_str-Plain get = ascii (codes "GET") refl
to_str-Plain post = ascii (codes "POST") refl
to_str-Plain head = ascii (codes "HEAD") refl

query-Plain : (q : Bytes) (b : Bool) → Plain q → Plain (if b then codes "?" ++ q else [])
query-Plain q true p = Plain-append (codes "?") q (ascii (codes "?") refl) p
query-Plain q false p = tt

-- The head of a request ends where its body begins: when no header, host, path or query has the byte CR, the
-- first empty line of the text that build_msg makes is directly before the body, whatever the body is.
pub build_msg-EndsHead :
    (m : List (Bytes × Bytes)) (u : Url) (method : HttpMethod) (body : Bytes)
    → AllPlain m
    → Plain u.host
    → Plain u.path
    → Plain u.query
    → EndsHead (build_msg m u method body) body
unfolding build_msg
build_msg-EndsHead m u method body pm ph pp pq =
    let announced = not (is_empty body) || is_post method in
    let rest =
      (if announced then codes "Content-Length: " ++ (to_string (length body) ++ crlf) else [])
      ++ (crlf ++ body) in
    let host = codes "Host:" ++ u.host in
    let lines =
      any_line host (header_lines m ++ rest) body
        (omega (arith, length-append (codes "Host:") u.host))
        (Plain-append (codes "Host:") u.host (ascii (codes "Host:") refl) ph)
        (headers m rest body pm (with_length announced body)) in
    let query = if not (is_empty u.query) then codes "?" ++ u.query else [] in
    text-EndsHead (to_str method) _ body (to_str-Plain method) (
      text-EndsHead (codes " ") _ body (ascii (codes " ") refl) (
        text-EndsHead u.path _ body pp (
          text-EndsHead query _ body (query-Plain u.query (not (is_empty u.query)) pq)
            (text-EndsHead (codes " HTTP/1.0") _ body (ascii (codes " HTTP/1.0") refl) lines))))
