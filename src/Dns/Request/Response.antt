-- ===== src/Dns/Request/Response.antt =====
-- The flags of error responses, in arithmetic.
use hydra_dns.Base.{
  ℕ, ◌+◌, ◌*◌, ◌/◌, ◌%◌, ◌<◌, ◌≡◌, refl, zero, suc, arith, bit_and, bit_or, bit_clear16,
  agree_on_bytes, agree_on_bytes→eq, agree_on_words, agree_on_words→eq, IsU16,
}
use hydra_dns.Dns.Enums.{qr_flag, rd_flag, rcode_mask}
use hydra_dns.Dns.Request.{build_response_flags}

and_rd : (x : ℕ) → x < 65536 → bit_and x rd_flag ≡ x / 256 % 2 * 256
unfolding agree_on_words
and_rd = agree_on_words→eq _ _ refl

pub and_rcode : (x : ℕ) → x < 65536 → bit_and x rcode_mask ≡ x % 16
unfolding agree_on_words
and_rcode = agree_on_words→eq _ _ refl

or_plain : (r : ℕ) → r < 256 → bit_or 0x8000 r ≡ 0x8000 + r
unfolding agree_on_bytes
or_plain = agree_on_bytes→eq _ _ refl

or_recursive : (r : ℕ) → r < 256 → bit_or 0x8100 r ≡ 0x8100 + r
unfolding agree_on_bytes
or_recursive = agree_on_bytes→eq _ _ refl

with_rcode :
    (b r : ℕ)
    → b < 2
    → bit_or (bit_clear16 (bit_or qr_flag (b * 256)) rcode_mask) (r % 16) ≡ 32768 + b * 256 + r % 16
unfolding bit_clear16
with_rcode zero r h = or_plain (r % 16) (omega arith)
with_rcode (suc zero) r h = or_recursive (r % 16) (omega arith)
with_rcode (suc (suc b)) r h = absurd (omega arith)

-- For 16-bit flags and code, an error response has QR set, the request's RD bit, the low four bits
-- of the code as RCODE, and every other bit clear.
pub build_response_flags_lem :
    (f rcode : ℕ)
    → IsU16 f
    → IsU16 rcode
    → build_response_flags f rcode ≡ 32768 + f / 256 % 2 * 256 + rcode % 16
unfolding build_response_flags
build_response_flags_lem f rcode a b =
    rw (and_rd f a, and_rcode rcode b) (with_rcode (f / 256 % 2) rcode (omega arith))
