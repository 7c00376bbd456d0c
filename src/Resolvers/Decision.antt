-- ===== src/Resolvers/Decision.antt =====
-- internal/resolvers/forwarding_resolver.go: how long, and as what, a response is cached.
pub mod Minimum
use hydra_dns.Base.{
  ℕ, zero, suc, ◌+◌, ◌-◌, ◌≤◌, ◌<◌, ◌≡◌, ◌≢◌, ◌⊎◌, inl, inr, refl, arith, [], ◌∷◌, List, map,
  Option, none, some, Bool, ltb, leb, ◌==◌, if◌then◌else◌, length, Result, ok, err, Bytes, byte_at,
  uint32_at, All,
}
use hydra_dns.Dns.Enums.{
  rcode_from_flags, rcode_serv_fail, rcode_nx_domain, rcode_no_error, type_soa,
}
use hydra_dns.Dns.Name.{decode_name}
use hydra_dns.Dns.Record.{Record, record_header, record_type, Data}
use hydra_dns.Dns.Record
use hydra_dns.Dns.Packet.{Packet, parse_packet}
use hydra_dns.Resolvers.Cache.{CacheEntryType, positive, nxdomain, nodata, servfail}

pub record CacheDecision : Type 0 where
  pub ttl_seconds : ℕ
  pub entry_type : CacheEntryType

-- `int(ttl) < minTTL` against the least so far; `none` is math.MaxInt, above every TTL.
unfoldable pub minimum_ttl_loop : Option ℕ → List Record → Option ℕ
minimum_ttl_loop min_ttl [] = min_ttl
minimum_ttl_loop min_ttl (a ∷ answers) =
    let ttl = (record_header a).ttl in
    let rest =
      minimum_ttl_loop
        (elim min_ttl [
          | none ↦ some ttl
          | some least ↦ some (if ltb ttl least then ttl else least)
        ])
        answers in
    let skipped = minimum_ttl_loop min_ttl answers in if ttl == 0 then skipped else rest

unfoldable pub find_minimum_ttl : List Record → ℕ
find_minimum_ttl answers = elim (minimum_ttl_loop none answers) [ none ↦ 0 | some ttl ↦ ttl ]

-- The MINIMUM of SOA RDATA; `none` where the loop of extractSOAMinimum breaks or goes on.
unfoldable pub soa_minimum_of : Bytes → Option (Option ℕ)
soa_minimum_of b = elim (decode_name b 0) [
  | err e ↦ some none
  | ok (mname, off) ↦ elim (decode_name b off) [
    | err e ↦ some none
    | ok (rname, off') ↦
        if leb (off' + 20) (length b)
        then elim (uint32_at b (off' + 16)) [ ok m ↦ some (some m) | err e ↦ some none ]
        else if leb 4 (length b)
        then elim (uint32_at b (length b - 4)) [ ok m ↦ some (some m) | err e ↦ some none ]
        else none
  ]
]

unfoldable pub extract_soa_loop : List Record → ℕ
extract_soa_loop [] = 0
extract_soa_loop (Record.opaque_record h t (Data.raw b) ∷ rs) =
    let rest = extract_soa_loop rs in
    if t == type_soa
    then elim (soa_minimum_of b) [ none ↦ rest | some none ↦ 0 | some (some m) ↦ m ]
    else rest
extract_soa_loop (_ ∷ rs) = extract_soa_loop rs

unfoldable pub extract_soa_minimum : Packet → ℕ
extract_soa_minimum resp = extract_soa_loop resp.authorities

unfoldable pub negative_ttl_or_default : ℕ → ℕ
negative_ttl_or_default ttl = if ttl == 0 then 300 else ttl

-- The decision on a response that parses.
unfoldable pub decide_packet : Packet → CacheDecision
decide_packet resp =
    let rcode = rcode_from_flags resp.header.flags in
    let negative = negative_ttl_or_default (extract_soa_minimum resp) in
    if rcode == rcode_serv_fail
    then record { ttl_seconds = 30; entry_type = servfail }
    else if rcode == rcode_nx_domain
    then record { ttl_seconds = negative; entry_type = nxdomain }
    else if rcode == rcode_no_error
    then if length resp.answers == 0
      then record { ttl_seconds = negative; entry_type = nodata }
      else record { ttl_seconds = find_minimum_ttl resp.answers; entry_type = positive }
    else record { ttl_seconds = 0; entry_type = positive }

unfoldable pub analyze_cache_decision : Bytes → CacheDecision
analyze_cache_decision resp_bytes = elim (parse_packet resp_bytes) [
  | err e ↦ record { ttl_seconds = 0; entry_type = positive }
  | ok resp ↦ decide_packet resp
]
