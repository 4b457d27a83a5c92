-- ===== src/Endian/Swapped.antt =====
-- The byte order turned: the conversions of arpa/inet.h on a little-endian machine.
use libcoio.Base.{ℕ, ◌+◌, ◌*◌, ◌/◌, ◌%◌, ◌^◌, ◌<◌, ◌≡◌, arith}
use libcoio.Endian.{Inet}

abbrev pub swap : ℕ → ℕ
swap x =
    (x % 256) * 16777216 + (x / 256 % 256) * 65536 + (x / 65536 % 256) * 256 + x / 16777216 % 256

pub swap_bound : (x : ℕ) → swap x < 2 ^ 32
swap_bound x = omega arith

pub swap-swap : (x : ℕ) → x < 2 ^ 32 → swap (swap x) ≡ x
swap-swap x small = omega (arith, small)

abbrev pub swap16 : ℕ → ℕ
swap16 x = x % 256 * 256 + x / 256 % 256

pub swap16_bound : (x : ℕ) → swap16 x < 2 ^ 16
swap16_bound x = omega arith

pub swap16-swap16 : (x : ℕ) → x < 2 ^ 16 → swap16 (swap16 x) ≡ x
swap16-swap16 x small = omega (arith, small)

abbrev pub little : Inet
little = record {
  htonl = swap;
  ntohl = swap;
  htonl_bound = swap_bound;
  ntohl-htonl = swap-swap;
  htons = swap16;
  ntohs = swap16;
  htons_bound = swap16_bound;
  ntohs-htons = swap16-swap16;
}
