-- ===== src/Convert.antt =====
-- internal/helpers/convert.go: clamping conversions. `int` is ℤ; a length is passed as `pos n`.
use hydra_dns.Base.{ℕ, ◌%◌, ◌-◌, ◌≤◌, ◌≡◌, if◌then◌else◌, ltb, min, arith}
use hydra_dns.Base.Int.{ℤ, pos, negsuc, ltb_ℤ, ◌≤ℤ◌}

unfoldable pub clamp_int : ℤ → ℤ → ℤ → ℤ
clamp_int v lo hi = if ltb_ℤ v lo then lo else if ltb_ℤ hi v then hi else v

-- `uint16(clamped)` of an int
unfoldable pub to_uint16 : ℤ → ℕ
to_uint16 (pos n) = n % 65536
to_uint16 (negsuc n) = 65535 - n % 65536

unfoldable pub clamp_int_to_uint16 : ℤ → ℕ
unfolding clamp_int to_uint16
clamp_int_to_uint16 v = to_uint16 (clamp_int v (pos 0) (pos 65535))

unfoldable pub clamp_uint32_to_uint8 : ℕ → ℕ
clamp_uint32_to_uint8 v = if ltb 255 v then 255 else v % 256

-- A length is clamped from above only.
pub clamp_int_to_uint16_pos : (n : ℕ) → clamp_int_to_uint16 (pos n) ≡ min n 65535
unfolding clamp_int_to_uint16
clamp_int_to_uint16_pos n = ground arith

pub clamp_int_to_uint16_small : (n : ℕ) → n ≤ 65535 → clamp_int_to_uint16 (pos n) ≡ n
clamp_int_to_uint16_small n h = omega (arith, clamp_int_to_uint16_pos n)

-- Where the limits are in order, the clamped value lies between the limits, and is the value itself
-- where that does.
pub clamp_int_bounds :
    (v lo hi : ℤ)
    → lo ≤ℤ hi
    → (lo ≤ℤ clamp_int v lo hi)
      × (clamp_int v lo hi ≤ℤ hi)
      × (lo ≤ℤ v → v ≤ℤ hi → clamp_int v lo hi ≡ v)
unfolding clamp_int
clamp_int_bounds v lo hi h = ground arith
