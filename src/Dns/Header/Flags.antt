-- ===== src/Dns/Header/Flags.antt =====
-- The flag setters and accessors of internal/dns/header.go.
use hydra_dns.Base.{
  ℕ, ◌+◌, ◌*◌, ◌/◌, ◌%◌, ◌<◌, ◌≡◌, refl, Bool, true, false, arith, bit_and, bit_or, bit_clear16,
  agree_on_words, agree_on_words→eq, IsU16,
}
use hydra_dns.Dns.Enums.{ad_flag, cd_flag}
use hydra_dns.Dns.Header.{Header, authentic_data, checking_disabled, set_ad, set_cd}

-- A mask of one bit, and the word with that bit set or cleared.
and_ad : (x : ℕ) → x < 65536 → bit_and x ad_flag ≡ x / 32 % 2 * 32
unfolding agree_on_words
and_ad = agree_on_words→eq _ _ refl

or_ad : (x : ℕ) → x < 65536 → bit_or x ad_flag ≡ x / 64 * 64 + 32 + x % 32
unfolding agree_on_words
or_ad = agree_on_words→eq _ _ refl

clear_ad : (x : ℕ) → x < 65536 → bit_clear16 x ad_flag ≡ x / 64 * 64 + x % 32
unfolding agree_on_words bit_clear16
clear_ad = agree_on_words→eq _ _ refl

and_cd : (x : ℕ) → x < 65536 → bit_and x cd_flag ≡ x / 16 % 2 * 16
unfolding agree_on_words
and_cd = agree_on_words→eq _ _ refl

or_cd : (x : ℕ) → x < 65536 → bit_or x cd_flag ≡ x / 32 * 32 + 16 + x % 16
unfolding agree_on_words
or_cd = agree_on_words→eq _ _ refl

clear_cd : (x : ℕ) → x < 65536 → bit_clear16 x cd_flag ≡ x / 32 * 32 + x % 16
unfolding agree_on_words bit_clear16
clear_cd = agree_on_words→eq _ _ refl

-- SetAD on 16-bit flags: the AD accessor then answers the value that was set, CD and every bit
-- above and below bit 5 of the flags stay, and so do the other fields.
pub set_ad_lem :
    (h : Header) (enabled : Bool)
    → IsU16 h.flags
    → (authentic_data (set_ad h enabled) ≡ enabled)
      × (checking_disabled (set_ad h enabled) ≡ checking_disabled h)
      × ((set_ad h enabled).flags / 64 ≡ h.flags / 64)
      × ((set_ad h enabled).flags % 32 ≡ h.flags % 32)
      × (record (set_ad h enabled) { flags = h.flags } ≡ h)
unfolding authentic_data checking_disabled set_ad
set_ad_lem h true f =
    let e = or_ad h.flags f in
    let new : IsU16 (bit_or h.flags ad_flag) = omega (arith, e) in
    (
      ground (arith, e, and_ad (bit_or h.flags ad_flag) new),
      ground (arith, e, and_cd (bit_or h.flags ad_flag) new, and_cd h.flags f),
      omega (arith, e),
      omega (arith, e),
      refl,
    )
set_ad_lem h false f =
    let e = clear_ad h.flags f in
    let new : IsU16 (bit_clear16 h.flags ad_flag) = omega (arith, e) in
    (
      ground (arith, e, and_ad (bit_clear16 h.flags ad_flag) new),
      ground (arith, e, and_cd (bit_clear16 h.flags ad_flag) new, and_cd h.flags f),
      omega (arith, e),
      omega (arith, e),
      refl,
    )

-- SetCD on 16-bit flags: the CD accessor then answers the value that was set, AD and every bit
-- above and below bit 4 of the flags stay, and so do the other fields.
pub set_cd_lem :
    (h : Header) (enabled : Bool)
    → IsU16 h.flags
    → (checking_disabled (set_cd h enabled) ≡ enabled)
      × (authentic_data (set_cd h enabled) ≡ authentic_data h)
      × ((set_cd h enabled).flags / 32 ≡ h.flags / 32)
      × ((set_cd h enabled).flags % 16 ≡ h.flags % 16)
      × (record (set_cd h enabled) { flags = h.flags } ≡ h)
unfolding authentic_data checking_disabled set_cd
set_cd_lem h true f =
    let e = or_cd h.flags f in
    let new : IsU16 (bit_or h.flags cd_flag) = omega (arith, e) in
    (
      ground (arith, e, and_cd (bit_or h.flags cd_flag) new),
      ground (arith, e, and_ad (bit_or h.flags cd_flag) new, and_ad h.flags f),
      omega (arith, e),
      omega (arith, e),
      refl,
    )
set_cd_lem h false f =
    let e = clear_cd h.flags f in
    let new : IsU16 (bit_clear16 h.flags cd_flag) = omega (arith, e) in
    (
      ground (arith, e, and_cd (bit_clear16 h.flags cd_flag) new),
      ground (arith, e, and_ad (bit_clear16 h.flags cd_flag) new, and_ad h.flags f),
      omega (arith, e),
      omega (arith, e),
      refl,
    )
