-- ===== src/Protocol.antt =====
-- include/ioutils/protocol.hpp: the addresses and the protocols of the sockets.
pub mod Addresses
pub mod Local
mod Tests
use libcoio.Endian.{Inet, host_to_net16, net_to_host16}
use libcoio.Decimal
use libcoio.Base.{
  ℕ, zero, suc, ◌+◌, ◌-◌, ◌*◌, ◌/◌, ◌%◌, ◌^◌, ◌≤◌, ◌<◌, min, max, ◌≡◌, refl, sym, ap, ◌∙◌, ◌≢◌, ◌↔◌,
  ◌⊎◌, inl, inr, Bool, true, false, not, ◌&&◌, ◌||◌, Option, none, some, List, [], ◌∷◌, ◌++◌,
  append-nil, append_assoc, arith, dec_lt, ltb, leb, ◌==◌, if◌then◌else◌, ltb_iff, leb_iff, ==_iff,
  Bool-cases, Option-cases, length, take, drop, replicate, length-append, length-take, length-drop,
  length-replicate, take-append-drop, take_all, drop_all, take-append_of_le, drop-append_of_le,
  take-append_add, drop-append_add, take-append_self, drop-append_self, drop-drop, drop-take,
  take-take, Bytes, codes, occurs, find, find_from, IsFirst, find-IsFirst, find_of_IsFirst,
  find-eq-none, find-none_at, find_from-eq-find, occurs-drop, occurs-append, length_of_occurs,
  find-le-length, find-append, find_splits, starts_with-append, starts_with,
}

abbrev pub af_local : ℕ
af_local = 1

abbrev pub af_inet : ℕ
af_inet = 2

abbrev pub af_inet6 : ℕ
af_inet6 = 10

abbrev pub sock_stream : ℕ
sock_stream = 1

abbrev pub sock_dgram : ℕ
sock_dgram = 2

pub data Domain : Type 0 where
  ipv4 ipv6 iplocal : Domain

pub data Transport : Type 0 where
  tcp udp : Transport

abbrev pub domain : Domain → ℕ
domain ipv4 = af_inet
domain ipv6 = af_inet6
domain iplocal = af_local

abbrev pub type : Transport → ℕ
type tcp = sock_stream
type udp = sock_dgram

pub record SockaddrIn : Type 0 where
  pub sin_family : ℕ
  pub sin_port : ℕ
  pub s_addr : ℕ

pub record SockaddrIn6 : Type 0 where
  pub sin6_family : ℕ
  pub sin6_port : ℕ
  pub sin6_flowinfo : ℕ
  pub sin6_addr : ℕ
  pub sin6_scope_id : ℕ

-- `inet_pton` and `inet_ntop` of one family, on addresses below `bound`: the first is `none` where it
-- leaves the address as it is, and reads what the second writes, which has no byte `b':'` in IPv4.
pub record Notation : Type 0 where
  pub bound : ℕ
  pub inet_pton : Bytes → Option ℕ
  pub inet_ntop : ℕ → Bytes
  pub inet_pton-bound : (t : Bytes) (x : ℕ) → inet_pton t ≡ some x → x < bound
  pub inet_pton-inet_ntop : (x : ℕ) → x < bound → inet_pton (inet_ntop x) ≡ some x

-- What the constructors do with the text, where there is one: `INADDR_ANY` is zero, and so is the address
-- before it is set.
abbrev pub set_addr : Notation → Option Bytes → ℕ
set_addr N none = 0
set_addr N (some ip) = elim (N.inet_pton ip) [ none ↦ 0 | some x ↦ x ]

-- `std::string{buf}.append(":") + std::to_string(port)`
abbrev pub with_port : Bytes → ℕ → Bytes
with_port ip port = (ip ++ (b':' ∷ [])) ++ Decimal.to_string port

abbrev pub default_address : SockaddrIn
default_address = record { sin_family = af_inet; sin_port = 0; s_addr = 0 }

unfoldable pub address : Inet → Notation → ℕ → Option Bytes → SockaddrIn
address I N port ip = record default_address {
  sin_port = host_to_net16 I port;
  s_addr = set_addr N ip;
}

abbrev pub address_len : ℕ
address_len = 16

-- `operator==` of `ipv4::address`
unfoldable pub same_address : SockaddrIn → SockaddrIn → Bool
same_address a b =
    a.sin_family == b.sin_family && (a.s_addr == b.s_addr && a.sin_port == b.sin_port)

unfoldable pub to_string : Inet → Notation → SockaddrIn → Bytes
to_string I N a = with_port (N.inet_ntop a.s_addr) (net_to_host16 I a.sin_port)

abbrev pub from_raw_address : SockaddrIn → SockaddrIn
from_raw_address addr = record default_address {
  sin_port = addr.sin_port;
  sin_family = addr.sin_family;
  s_addr = addr.s_addr;
}

abbrev pub default_address6 : SockaddrIn6
default_address6 = record {
  sin6_family = af_inet6;
  sin6_port = 0;
  sin6_flowinfo = 0;
  sin6_addr = 0;
  sin6_scope_id = 0;
}

unfoldable pub address6 : Inet → Notation → ℕ → Option Bytes → SockaddrIn6
address6 I N port ip = record default_address6 {
  sin6_port = host_to_net16 I port;
  sin6_addr = set_addr N ip;
}

unfoldable pub to_string6 : Inet → Notation → SockaddrIn6 → Bytes
to_string6 I N a = with_port (N.inet_ntop a.sin6_addr) (net_to_host16 I a.sin6_port)

-- `sizeof(addr.sun_path)`
abbrev pub sun_path_size : ℕ
sun_path_size = 108

-- `strncpy` of a text without a zero byte: cut at the size, or filled up with zeros.
abbrev pub strncpy : Bytes → ℕ → Bytes
strncpy path n = take n path ++ replicate (n - length path) 0

-- `sun_path` of `iplocal::address`; a path in C ends at the first zero byte.
unfoldable pub local_address : Bytes → Bytes
local_address path = strncpy path sun_path_size

-- The text up to the zero byte; `none` reads past the array.
unfoldable pub c_string : Bytes → Option Bytes
c_string s = elim (find (0 ∷ []) s) [ none ↦ none | some q ↦ some (take q s) ]

-- `operator==` of `iplocal::address`, by `strcmp`.
pub same_bytes : Bytes → Bytes → Bool
same_bytes [] [] = true
same_bytes [] (d ∷ ds) = false
same_bytes (c ∷ cs) [] = false
same_bytes (c ∷ cs) (d ∷ ds) = c == d && same_bytes cs ds

unfoldable pub same_local : Bytes → Bytes → Option Bool
unfolding same_bytes
same_local a b = elim (c_string a) [
  | none ↦ none
  | some x ↦ elim (c_string b) [ none ↦ none | some y ↦ some (same_bytes x y) ]
]

-- `len` of `iplocal::address`: the size of a `sockaddr_in`.
abbrev pub local_len : ℕ
local_len = 16

-- What a system call that is given the address and `len` reads of the path, behind the family.
abbrev pub path_seen : Bytes → Bytes
path_seen sun_path = take (local_len - 2) sun_path
