-- ===== src/Protocol/Tests.antt =====
-- Addresses of include/ioutils/protocol.hpp on concrete inputs.
use libcoio.Base.{
  ℕ, ◌+◌, ◌-◌, ◌<◌, ◌≡◌, refl, ap, ◌≢◌, ◌&&◌, Option, none, some, [], ◌∷◌, ◌++◌, arith, ltb,
  if◌then◌else◌, take, drop, Bytes, codes, find, pos,
}
use libcoio.Outcome.{returned}
use libcoio.Decimal.{stoi}
use libcoio.Endian.Swapped.{little}
use libcoio.Protocol.{SockaddrIn, Notation, address, to_string, address6, to_string6}
use libcoio.Protocol.Addresses.{to_string-address}
use libcoio.Protocol.Local.{NoZero}

-- The addresses 0.0.0.0 to 0.0.0.9.
abbrev last_octet : Bytes → Option ℕ
last_octet [] = none
last_octet (c ∷ cs) = if ltb 47 c && ltb c 58 then some (c - 48) else none

last_octet-bound : (t : Bytes) (x : ℕ) → last_octet t ≡ some x → x < 10
last_octet-bound [] x h = cc (h)
last_octet-bound (c ∷ cs) x h = ground (arith, h)

last_octet-digit : (x : ℕ) → x < 10 → last_octet ((48 + x) ∷ []) ≡ some x
last_octet-digit x h = ground arith

abbrev dotted : Notation
dotted = record {
  bound = 10;
  inet_pton = λ t. last_octet (drop 6 t);
  inet_ntop = λ x. codes "0.0.0." ++ ((48 + x) ∷ []);
  inet_pton-bound = λ t x h. last_octet-bound (drop 6 t) x h;
  inet_pton-inet_ntop = last_octet-digit;
}

abbrev http : SockaddrIn
http = address little dotted 80 (some (codes "0.0.0.5"))

made : http ≡ record { sin_family = 2; sin_port = 20480; s_addr = 5 }
unfolding address
made = refl

-- A text that is not read gives the address of no text.
misread : address little dotted 80 (some (codes "localhost")) ≡ address little dotted 80 none
unfolding address
misread = refl

text : to_string little dotted http ≡ codes "0.0.0.5:80"
unfolding to_string address libcoio.Decimal.to_string
text = refl

text6 :
    to_string6 little dotted (address6 little dotted 443 (some (codes "0.0.0.1")))
    ≡ codes "0.0.0.1:443"
unfolding to_string6 address6 libcoio.Decimal.to_string
text6 = refl

colonless : find (b':' ∷ []) (codes "0.0.0.5") ≡ none
unfolding find
colonless = refl

to_string-address_example :
    (q : ℕ) × (find (b':' ∷ []) (to_string little dotted http) ≡ some q)
    × (address little dotted 80 (some (take q (to_string little dotted http))) ≡ http)
    × (stoi (drop (q + 1) (to_string little dotted http)) ≡ returned (pos 80))
to_string-address_example =
    to_string-address little dotted 80 (codes "0.0.0.5") 5 (omega arith) refl colonless

abbrev sock_path : Bytes
sock_path = codes "/run/a.sock"

NoZero-sock_path : NoZero sock_path
unfolding find
NoZero-sock_path = refl

abbrev first_path : Bytes
first_path = codes "/run/service/a"

NoZero-behind : NoZero (first_path ++ codes "1.sock")
unfolding find
NoZero-behind = refl

NoZero-other : NoZero (first_path ++ codes "2.sock")
unfolding find
NoZero-other = refl

different : codes "1.sock" ≢ codes "2.sock"
different e =
    let head : Bytes → ℕ = λ xs. elim xs [ [] ↦ 0 | x ∷ ys ↦ x ] in
    let heads = ap head e in absurd (omega (arith, heads))

NoZero-first : NoZero first_path
unfolding find
NoZero-first = refl
