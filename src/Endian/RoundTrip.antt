-- ===== src/Endian/RoundTrip.antt =====
-- The 64-bit conversions of include/ioutils/endian.hpp take each other back.
use libcoio.Base.{ℕ, ◌+◌, ◌*◌, ◌/◌, ◌%◌, ◌^◌, ◌<◌, ◌≡◌, refl, ◌∙◌, Bool, true, false, arith}
use libcoio.Endian.{Inet, host_to_net, net_to_host}

module _ (I : Inet) where
  open I use {htonl, ntohl, htonl_bound, ntohl-htonl}

  -- Two 32-bit halves put together, and taken apart.
  halves :
      (a b : ℕ)
      → a < 2 ^ 32
      → b < 2 ^ 32
      → ((a * 2 ^ 32 % 2 ^ 64 + b) % 2 ^ 64 ≡ a * 2 ^ 32 + b)
        × ((a * 2 ^ 32 + b) % 2 ^ 32 ≡ b)
        × ((a * 2 ^ 32 + b) / 2 ^ 32 % 2 ^ 32 ≡ a)
  halves a b ha hb = (omega (arith, ha, hb), omega (arith, ha, hb), omega (arith, ha, hb))

  -- On a machine of either order, `net_to_host` takes back what `host_to_net` does to a 64-bit number.
  pub net_to_host-host_to_net :
      (big : Bool) (x : ℕ) → x < 2 ^ 64 → net_to_host I big (host_to_net I big x) ≡ x
  unfolding host_to_net net_to_host
  net_to_host-host_to_net true x small = refl
  net_to_host-host_to_net false x small =
      let lo = x % 2 ^ 32 in
      let hi = x / 2 ^ 32 % 2 ^ 32 in
      let (whole, low, high) = halves (htonl lo) (htonl hi) (htonl_bound lo) (htonl_bound hi) in
      let back =
        halves hi lo (let h : hi < 2 ^ 32 = omega arith in h)
          (let h : lo < 2 ^ 32 = omega arith in h) in
      rw whole (
        rw (low, high)
          (rw
            (
              ntohl-htonl lo (let h : lo < 2 ^ 32 = omega arith in h),
              ntohl-htonl hi (let h : hi < 2 ^ 32 = omega arith in h),
            )
            (back.0 ∙ omega (arith, small))))
