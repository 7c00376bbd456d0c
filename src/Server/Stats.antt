-- ===== src/Server/Stats.antt =====
-- internal/server/stats.go: counters of queries and responses. Each is an atomic.Uint64, whose
-- additions wrap around; the average latency is an exact quotient, not a float64.
pub mod Counted
use hydra_dns.Base.{ℕ, ◌+◌, ◌*◌, ◌%◌, [], ◌∷◌, List, Bool, ltb, if◌then◌else◌, Bytes, bytes_eq}
use hydra_dns.Base.Int.{ℤ, pos, negsuc}

pub record DnsStats : Type 0 where
  pub queries_total : ℕ
  pub queries_udp : ℕ
  pub queries_tcp : ℕ
  pub responses_nx : ℕ
  pub responses_err : ℕ
  pub latency_total_ns : ℕ

abbrev pub new_dns_stats : DnsStats
new_dns_stats = record {
  queries_total = 0;
  queries_udp = 0;
  queries_tcp = 0;
  responses_nx = 0;
  responses_err = 0;
  latency_total_ns = 0;
}

-- `Add(n)` on an atomic.Uint64.
abbrev pub plus_wrapped : ℕ → ℕ → ℕ
plus_wrapped counter n = (counter + n) % 18446744073709551616

-- `udp` and `tcp`.
abbrev pub udp_name : Bytes
udp_name = b'u' ∷ b'd' ∷ b'p' ∷ []

abbrev pub tcp_name : Bytes
tcp_name = b't' ∷ b'c' ∷ b'p' ∷ []

unfoldable pub record_query : Bytes → DnsStats → DnsStats
record_query transport s =
    let counted : DnsStats = record s { queries_total = plus_wrapped s.queries_total 1 } in
    if bytes_eq transport udp_name
    then record counted { queries_udp = plus_wrapped counted.queries_udp 1 }
    else if bytes_eq transport tcp_name
    then record counted { queries_tcp = plus_wrapped counted.queries_tcp 1 }
    else counted

unfoldable pub record_nxdomain : DnsStats → DnsStats
record_nxdomain s = record s { responses_nx = plus_wrapped s.responses_nx 1 }

unfoldable pub record_error : DnsStats → DnsStats
record_error s = record s { responses_err = plus_wrapped s.responses_err 1 }

unfoldable pub record_latency : ℤ → DnsStats → DnsStats
record_latency (pos ns) s =
    if ltb 0 ns then record s { latency_total_ns = plus_wrapped s.latency_total_ns ns } else s
record_latency (negsuc n) s = s

-- A quotient of whole numbers.
pub record Quotient : Type 0 where
  pub dividend : ℕ
  pub divisor : ℕ

pub record DnsStatsSnapshot : Type 0 where
  pub queries_total : ℕ
  pub queries_udp : ℕ
  pub queries_tcp : ℕ
  pub responses_nx : ℕ
  pub responses_err : ℕ
  pub avg_latency_ms : Quotient

unfoldable pub snapshot : DnsStats → DnsStatsSnapshot
snapshot s = record {
  queries_total = s.queries_total;
  queries_udp = s.queries_udp;
  queries_tcp = s.queries_tcp;
  responses_nx = s.responses_nx;
  responses_err = s.responses_err;
  avg_latency_ms =
      if ltb 0 s.queries_total
      then record { dividend = s.latency_total_ns; divisor = s.queries_total * 1000000 }
      else record { dividend = 0; divisor = 1 };
}
