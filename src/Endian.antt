-- ===== src/Endian.antt =====
-- include/ioutils/endian.hpp: the 64-bit conversions, over the ones of arpa/inet.h, which the 16-bit
-- conversions are.
pub mod RoundTrip
pub mod Swapped
mod Tests
use libcoio.Base.{
  ℕ, zero, suc, ◌+◌, ◌-◌, ◌*◌, ◌/◌, ◌%◌, ◌^◌, ◌≤◌, ◌<◌, min, max, ◌≡◌, refl, sym, ap, ◌∙◌, ◌≢◌, ◌↔◌,
  ◌⊎◌, inl, inr, Bool, true, false, not, ◌&&◌, ◌||◌, Option, none, some, List, [], ◌∷◌, ◌++◌,
  append-nil, append_assoc, arith, dec_lt, ltb, leb, ◌==◌, if◌then◌else◌, ltb_iff, leb_iff, ==_iff,
  Bool-cases, Option-cases, length, take, drop, replicate, length-append, length-take, length-drop,
  length-replicate, take-append-drop, take_all, drop_all, take-append_of_le, drop-append_of_le,
  take-append_add, drop-append_add, take-append_self, drop-append_self, drop-drop, drop-take,
  take-take, Bytes, codes, occurs, find, find_from, IsFirst, find-IsFirst, find_of_IsFirst,
  find-eq-none, find-none_at, find_from-eq-find, occurs-drop, occurs-append, length_of_occurs,
  find-le-length, find-append, find_splits, starts_with-append, starts_with,
}

-- `htonl` and `ntohl`: the second takes back what the first does, and the first stays in 32 bits; `htons`
-- and `ntohs` likewise in 16 bits.
pub record Inet : Type 0 where
  pub htonl : ℕ → ℕ
  pub ntohl : ℕ → ℕ
  pub htonl_bound : (x : ℕ) → htonl x < 2 ^ 32
  pub ntohl-htonl : (x : ℕ) → x < 2 ^ 32 → ntohl (htonl x) ≡ x
  pub htons : ℕ → ℕ
  pub ntohs : ℕ → ℕ
  pub htons_bound : (x : ℕ) → htons x < 2 ^ 16
  pub ntohs-htons : (x : ℕ) → x < 2 ^ 16 → ntohs (htons x) ≡ x

module _ (I : Inet) where
  open I use {htonl, ntohl}

  -- `host_to_net` and `net_to_host` on `uint64_t`; `big` is the order of the machine.
  pub host_to_net : Bool → ℕ → ℕ
  host_to_net big x =
      if big
      then x
      else (htonl (x % 2 ^ 32) * 2 ^ 32 % 2 ^ 64 + htonl (x / 2 ^ 32 % 2 ^ 32)) % 2 ^ 64

  pub net_to_host : Bool → ℕ → ℕ
  net_to_host big x =
      if big
      then x
      else (ntohl (x % 2 ^ 32) * 2 ^ 32 % 2 ^ 64 + ntohl (x / 2 ^ 32 % 2 ^ 32)) % 2 ^ 64

  -- `host_to_net` and `net_to_host` on `uint16_t`.
  abbrev pub host_to_net16 : ℕ → ℕ
  host_to_net16 x = I.htons x

  abbrev pub net_to_host16 : ℕ → ℕ
  net_to_host16 x = I.ntohs x
