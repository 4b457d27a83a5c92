-- ===== src/Protocol/Addresses.antt =====
-- The addresses of include/ioutils/protocol.hpp: comparison, and the text of an address.
use libcoio.Base.{
  ℕ, ◌+◌, ◌^◌, ◌<◌, ◌≡◌, refl, sym, ap, ◌∙◌, ◌↔◌, true, none, some, [], ◌∷◌, ◌++◌, append-nil,
  append_assoc, arith, ==_iff, length, take, drop, length-append, take-append_self,
  drop-append_self, Bytes, find, find_of_IsFirst, find-none_at, occurs-append, starts_with-append,
  pos,
}
use libcoio.Outcome.{returned}
use libcoio.Endian.{Inet}
use libcoio.Decimal.{stoi}
use libcoio.Decimal.RoundTrip.{stoi-to_string}
use libcoio.Protocol.{
  SockaddrIn, Notation, address, same_address, to_string, set_addr, with_port, default_address,
}
use libcoio.Decimal

-- Two IPv4 addresses compare equal exactly when family, address and port are the same.
pub same_address_iff : (a b : SockaddrIn) → (same_address a b ≡ true) ↔ (a ≡ b)
unfolding same_address
same_address_iff a b = (
  λ h.
      let f : a.sin_family ≡ b.sin_family = ground (arith, h, ==_iff a.sin_family b.sin_family) in
      let x : a.s_addr ≡ b.s_addr = ground (arith, h, ==_iff a.s_addr b.s_addr) in
      let p : a.sin_port ≡ b.sin_port = ground (arith, h, ==_iff a.sin_port b.sin_port) in
      λ i. record { sin_family = f i; sin_port = p i; s_addr = x i },
  λ e. rw e (
      rw
        (
          (==_iff b.sin_family b.sin_family).1 refl,
          (==_iff b.s_addr b.s_addr).1 refl,
          (==_iff b.sin_port b.sin_port).1 refl,
        )
        refl),
)

-- The first colon of a text with a port.
colon_first :
    (ip : Bytes) (port : ℕ)
    → find (b':' ∷ []) ip ≡ none
    → find (b':' ∷ []) (with_port ip port) ≡ some (length ip)
colon_first ip port h =
    let rest = (b':' ∷ []) ++ Decimal.to_string port in
    let s_eq : with_port ip port ≡ ip ++ rest =
      append_assoc ip (b':' ∷ []) (Decimal.to_string port) in
    rw s_eq (
      find_of_IsFirst (b':' ∷ []) (ip ++ rest) (length ip) (record {
        here =
            rw (drop-append_self ip rest) (starts_with-append (b':' ∷ []) (Decimal.to_string port));
        before = λ q l.
            occurs-append (b':' ∷ []) ip rest q (omega arith) ∙ find-none_at (b':' ∷ []) ip q h;
      }))

with_port-parts :
    (ip : Bytes) (port : ℕ)
    → (take (length ip) (with_port ip port) ≡ ip)
      × (drop (length ip + 1) (with_port ip port) ≡ Decimal.to_string port)
with_port-parts ip port = (
  rw (append_assoc ip (b':' ∷ []) (Decimal.to_string port))
      (take-append_self ip ((b':' ∷ []) ++ Decimal.to_string port)),
  let n : length ip + 1 ≡ length (ip ++ (b':' ∷ [])) = sym (length-append ip (b':' ∷ [])) in
      rw n (drop-append_self (ip ++ (b':' ∷ [])) (Decimal.to_string port)),
)

made :
    (I : Inet) (N : Notation) (port : ℕ) (ip : Bytes) (x : ℕ)
    → N.inet_pton ip ≡ some x
    → address I N port (some ip) ≡ record default_address { sin_port = I.htons port; s_addr = x }
unfolding address
made I N port ip x e =
    let same : set_addr N (some ip) ≡ x = rw (e, set_addr) refl in
    ap (λ y. record default_address { sin_port = I.htons port; s_addr = y }) same

printed :
    (I : Inet) (N : Notation) (port : ℕ) (ip : Bytes) (x : ℕ)
    → port < 2 ^ 16
    → N.inet_pton ip ≡ some x
    → to_string I N (address I N port (some ip)) ≡ with_port (N.inet_ntop x) port
unfolding to_string
printed I N port ip x small e = rw (made I N port ip x e, I.ntohs-htons port small) refl

-- The text of an IPv4 address that was made from a port and a text that inet_pton reads: its first colon
-- ends the part from which the constructor makes the same address again, and std::stoi reads the port
-- behind it. The text that inet_ntop writes has no colon.
pub to_string-address :
    (I : Inet) (N : Notation) (port : ℕ) (ip : Bytes) (x : ℕ)
    → port < 2 ^ 16
    → N.inet_pton ip ≡ some x
    → find (b':' ∷ []) (N.inet_ntop x) ≡ none
    → (q : ℕ) × (find (b':' ∷ []) (to_string I N (address I N port (some ip))) ≡ some q)
      × (address I N port (some (take q (to_string I N (address I N port (some ip)))))
          ≡ address I N port (some ip))
      × (stoi (drop (q + 1) (to_string I N (address I N port (some ip)))) ≡ returned (pos port))
to_string-address I N port ip x small reads plain =
    let text = N.inet_ntop x in
    let parts = with_port-parts text port in
    let back = N.inet_pton-inet_ntop x (N.inet_pton-bound ip x reads) in
    rw (printed I N port ip x small reads) (
      length text,
      colon_first text port plain,
      rw parts.0 (made I N port text x back ∙ sym (made I N port ip x reads)),
      rw (parts.1, sym (append-nil (Decimal.to_string port)))
          (stoi-to_string port [] (omega arith) tt),
    )
