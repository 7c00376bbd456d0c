-- ===== src/Resolvers/Ageing.antt =====
-- internal/resolvers/forwarding_resolver.go: the TTLs of a cached response, less its age.
pub mod Skipped
pub mod Kept
pub mod Records
use hydra_dns.Base.{
  ℕ, zero, suc, ◌+◌, ◌-◌, ◌/◌, ◌%◌, ◌^◌, max, ◌++◌, length, take, drop, Option, none, some, Bool,
  true, false, ltb, ◌==◌, if◌then◌else◌, Result, ok, err, ◌>>=◌, Bytes, uint16_at, uint32_at,
  put_uint32,
}
use hydra_dns.Dns.Enums.{type_opt}
use hydra_dns.Dns.Header.{header_size}
use hydra_dns.Dns.Name.{decode_name}
use hydra_dns.Resolvers.Cache.{second}

-- `max(uint32(1), oldTTL-ageSeconds)`, the difference in uint32.
abbrev pub aged_ttl : ℕ → ℕ → ℕ
aged_ttl age_seconds old_ttl = max 1 ((old_ttl + 2 ^ 32 - age_seconds) % 2 ^ 32)

-- The bytes with the TTL at an offset aged.
unfoldable pub write_aged : ℕ → Bytes → ℕ → Result Bytes
write_aged age_seconds adjusted off = do
  old_ttl ← uint32_at adjusted off
  ok (take off adjusted ++ (put_uint32 (aged_ttl age_seconds old_ttl) ++ drop (off + 4) adjusted))

-- One question: the offset behind it, or `none` for `return respBytes`.
unfoldable pub skip_question : Bytes → ℕ → Option ℕ
skip_question adjusted off = elim (decode_name adjusted off) [
  | err e ↦ none
  | ok (name, off') ↦ if ltb (length adjusted) (off' + 4) then none else some (off' + 4)
]

unfoldable pub skip_questions : ℕ → Bytes → ℕ → Option ℕ
unfolding skip_question
skip_questions zero adjusted off = some off
skip_questions (suc n) adjusted off = elim (skip_question adjusted off) [
  | none ↦ none
  | some off' ↦ skip_questions n adjusted off'
]

-- The offset behind RDLENGTH and RDATA.
unfoldable pub skip_rdata : Bytes → ℕ → Result (Option ℕ)
skip_rdata adjusted off =
    if ltb (length adjusted) (off + 2)
    then ok none
    else (uint16_at adjusted off >>= (λ rdlen.
        ok (if ltb (length adjusted) (off + 2 + rdlen) then none else some (off + 2 + rdlen))))

-- The fixed part of a record whose NAME ends at an offset.
unfoldable pub age_fixed_part : ℕ → Bytes → ℕ → Result (Option (Bytes × ℕ))
unfolding write_aged skip_rdata
age_fixed_part age_seconds adjusted off = do
  record_type ← uint16_at adjusted off
  aged ← if record_type == type_opt then ok adjusted else write_aged age_seconds adjusted (off + 4)
  next ← skip_rdata aged (off + 8)
  ok (elim next [ none ↦ none | some off' ↦ some (aged, off') ])

-- One record: the bytes and the offset behind it.
unfoldable pub age_record : ℕ → Bytes → ℕ → Result (Option (Bytes × ℕ))
unfolding age_fixed_part
age_record age_seconds adjusted off = elim (decode_name adjusted off) [
  | err e ↦ ok none
  | ok (name, off') ↦
      if ltb (length adjusted) (off' + 10)
      then ok none
      else age_fixed_part age_seconds adjusted off'
]

unfoldable pub age_records : ℕ → ℕ → Bytes → ℕ → Result (Option Bytes)
unfolding age_record
age_records zero age_seconds adjusted off = ok (some adjusted)
age_records (suc n) age_seconds adjusted off = do
  next ← age_record age_seconds adjusted off
  elim next [ none ↦ ok none | some (aged, off') ↦ age_records n age_seconds aged off' ]

-- `uint32(age.Seconds())` of an age in nanoseconds.
abbrev pub whole_seconds : ℕ → ℕ
whole_seconds age = age / second % 2 ^ 32

unfoldable pub adjust_ttls : Bytes → ℕ → Result Bytes
adjust_ttls resp_bytes age =
    if ltb (length resp_bytes) header_size
    then ok resp_bytes
    else if whole_seconds age == 0
    then ok resp_bytes
    else (do
      qdcount ← uint16_at resp_bytes 4
      ancount ← uint16_at resp_bytes 6
      nscount ← uint16_at resp_bytes 8
      arcount ← uint16_at resp_bytes 10
      aged ← elim (skip_questions qdcount resp_bytes header_size) [
        | none ↦ ok none
        | some off ↦ age_records (ancount + nscount + arcount) (whole_seconds age) resp_bytes off
      ]
      ok (elim aged [ none ↦ resp_bytes | some adjusted ↦ adjusted ]))
