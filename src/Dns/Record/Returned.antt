-- ===== src/Dns/Record/Returned.antt =====
-- ParseRecord on any message.
use hydra_dns.Base.{
  ℕ, ◌+◌, ◌*◌, ◌≤◌, ◌≡◌, arith, length, get_or, inl, inr, Result-cases, Returns, Bytes, slice_lem,
  uint16_at_lem, uint32_at_lem,
}
use hydra_dns.Dns.Name.{decode_name}
use hydra_dns.Dns.Name.Decode.{decode_name-Returns}
use hydra_dns.Dns.Record.{
  parse_ip_rdata, parse_name_rdata, parse_opaque_rdata, parse_rdata, parse_record,
}

Returns-parse_ip_rdata :
    (msg : Bytes) (off rdlen : ℕ)
    → Returns (λ r. r.1 ≡ off + rdlen × r.1 ≤ length msg) (parse_ip_rdata msg off rdlen)
unfolding parse_ip_rdata
Returns-parse_ip_rdata msg off rdlen = ground (arith, slice_lem msg off (off + rdlen))

Returns-parse_name_rdata :
    (msg : Bytes) (off rdlen rt : ℕ)
    → Returns (λ r. r.1 ≡ off + rdlen × r.1 ≤ length msg) (parse_name_rdata msg off off rdlen rt)
unfolding parse_name_rdata
Returns-parse_name_rdata msg off rdlen rt = elim (Result-cases (decode_name msg off)) [
  | inl ((n, off'), e) ↦ ground (arith, e, decode_name-Returns msg off)
  | inr (why, e) ↦ ground (arith, e, decode_name-Returns msg off)
]

-- The slice of ParseOpaqueRData is in range because ParseRecord has checked it.
Returns-parse_opaque_rdata :
    (msg : Bytes) (off rdlen rt : ℕ)
    → off + rdlen ≤ length msg
    → Returns (λ r. r.1 ≡ off + rdlen × r.1 ≤ length msg) (parse_opaque_rdata msg off rdlen rt)
unfolding parse_opaque_rdata
Returns-parse_opaque_rdata msg off rdlen rt h = ground (arith, slice_lem msg off (off + rdlen))

Returns-parse_rdata :
    (rt : ℕ) (msg : Bytes) (off rdlen : ℕ)
    → off + rdlen ≤ length msg
    → Returns (λ r. r.1 ≡ off + rdlen × r.1 ≤ length msg) (parse_rdata rt msg off off rdlen)
unfolding parse_rdata
Returns-parse_rdata rt msg off rdlen h = ground (
  arith,
  Returns-parse_ip_rdata msg off rdlen,
  Returns-parse_name_rdata msg off rdlen rt,
  Returns-parse_opaque_rdata msg off rdlen rt,
)

-- ParseRecord returns on every message and offset, never indexing out of range, and then stands
-- at least eleven bytes further, within the message.
pub parse_record-Returns :
    (msg : Bytes) (off : ℕ)
    → Returns (λ r. off + 11 ≤ r.1 × r.1 ≤ length msg) (parse_record msg off)
unfolding parse_record
parse_record-Returns msg off = elim (Result-cases (decode_name msg off)) [
  | inl ((name, o), e) ↦
      let rt = get_or msg o 0 * 256 + get_or msg (o + 1) 0 in
      let rdlen = get_or msg (o + 8) 0 * 256 + get_or msg (o + 8 + 1) 0 in
      ground (
        arith,
        e,
        decode_name-Returns msg off,
        uint16_at_lem msg o,
        uint16_at_lem msg (o + 2),
        uint32_at_lem msg (o + 4),
        uint16_at_lem msg (o + 8),
        Returns-parse_rdata rt msg (o + 10) rdlen,
      )
  | inr (why, e) ↦ ground (arith, e, decode_name-Returns msg off)
]
