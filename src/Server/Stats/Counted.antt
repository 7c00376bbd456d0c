-- ===== src/Server/Stats/Counted.antt =====
-- The counters count: each is the number of its events, modulo 2^64.
use hydra_dns.Base.{
  ℕ, zero, suc, ◌+◌, ◌*◌, ◌%◌, ltb, ◌<◌, ◌≡◌, bytes_eq_iff, refl, sym, ap, ◌∙◌, inl, inr, arith, [],
  ◌∷◌, List, true, false, if◌then◌else◌, Bytes, bytes_eq, Bool-cases,
}
use hydra_dns.Base.Int.{ℤ, pos, negsuc, pos_part}
use hydra_dns.Server.Stats.{
  DnsStats, new_dns_stats, udp_name, tcp_name, record_query, record_nxdomain, record_error,
  record_latency, Quotient, DnsStatsSnapshot, snapshot,
}

-- What the query handler records.
pub data StatEvent : Type 0 where
  query : Bytes → StatEvent
  nxdomain failure : StatEvent
  latency : ℤ → StatEvent

unfoldable pub record_event : StatEvent → DnsStats → DnsStats
record_event (query transport) s = record_query transport s
record_event nxdomain s = record_nxdomain s
record_event failure s = record_error s
record_event (latency ns) s = record_latency ns s

unfoldable pub record_events : List StatEvent → DnsStats → DnsStats
record_events [] s = s
record_events (e ∷ es) s = record_events es (record_event e s)

-- What an event adds to each counter.
abbrev queries_in : StatEvent → ℕ
queries_in (query transport) = 1
queries_in _ = 0

abbrev udp_in : StatEvent → ℕ
udp_in (query transport) = if bytes_eq transport udp_name then 1 else 0
udp_in _ = 0

abbrev tcp_in : StatEvent → ℕ
tcp_in (query transport) = if bytes_eq transport tcp_name then 1 else 0
tcp_in _ = 0

abbrev nxdomain_in : StatEvent → ℕ
nxdomain_in nxdomain = 1
nxdomain_in _ = 0

abbrev failures_in : StatEvent → ℕ
failures_in failure = 1
failures_in _ = 0

abbrev latency_in : StatEvent → ℕ
latency_in (latency ns) = pos_part ns
latency_in _ = 0

-- A sum over the events, without a bound.
unfoldable pub total : (StatEvent → ℕ) → List StatEvent → ℕ
total f [] = 0
total f (e ∷ es) = f e + total f es

abbrev pub wrapped : ℕ → ℕ
wrapped n = n % 18446744073709551616

module _ (counter : DnsStats → ℕ) (adds : StatEvent → ℕ)
    (step : (e : StatEvent) (s : DnsStats)
      → counter s < 18446744073709551616
      → counter (record_event e s) ≡ wrapped (counter s + adds e)) where
  counter-record_events :
      (es : List StatEvent) (s : DnsStats)
      → counter s < 18446744073709551616
      → counter (record_events es s) ≡ wrapped (counter s + total adds es)
  unfolding record_events total
  counter-record_events [] s small = omega (arith, small)
  counter-record_events (e ∷ es) s small =
      let first = step e s small in
      let small' : counter (record_event e s) < 18446744073709551616 = omega (arith, first) in
      omega (arith, first, counter-record_events es (record_event e s) small')

  counter-new :
      (es : List StatEvent)
      → counter new_dns_stats ≡ 0
      → counter (record_events es new_dns_stats) ≡ wrapped (total adds es)
  counter-new es none_yet =
      let all = counter-record_events es new_dns_stats (omega (arith, none_yet)) in
      omega (arith, all, none_yet)

queries_step :
    (e : StatEvent) (s : DnsStats)
    → s.queries_total < 18446744073709551616
    → (record_event e s).queries_total ≡ wrapped (s.queries_total + queries_in e)
unfolding record_event record_query record_nxdomain record_error record_latency
queries_step (query transport) s small = ground arith
queries_step nxdomain s small = omega (arith, small)
queries_step failure s small = omega (arith, small)
queries_step (latency (pos ns)) s small = ground (arith, small)
queries_step (latency (negsuc n)) s small = omega (arith, small)

udp_step :
    (e : StatEvent) (s : DnsStats)
    → s.queries_udp < 18446744073709551616
    → (record_event e s).queries_udp ≡ wrapped (s.queries_udp + udp_in e)
unfolding record_event record_query record_nxdomain record_error record_latency
udp_step (query transport) s small = ground (arith, small)
udp_step nxdomain s small = omega (arith, small)
udp_step failure s small = omega (arith, small)
udp_step (latency (pos ns)) s small = ground (arith, small)
udp_step (latency (negsuc n)) s small = omega (arith, small)

-- No transport is both.
not_both : (t : Bytes) → bytes_eq t udp_name ≡ true → bytes_eq t tcp_name ≡ false
unfolding bytes_eq
not_both t h = elim (Bool-cases (bytes_eq t tcp_name)) [
  | inr e ↦ e
  | inl e ↦
      let as_udp = (bytes_eq_iff t udp_name).0 h in
      let clash : bytes_eq udp_name tcp_name ≡ true =
        sym (ap (λ x. bytes_eq x tcp_name) as_udp) ∙ e in
      cc
]

tcp_step :
    (e : StatEvent) (s : DnsStats)
    → s.queries_tcp < 18446744073709551616
    → (record_event e s).queries_tcp ≡ wrapped (s.queries_tcp + tcp_in e)
unfolding record_event record_query record_nxdomain record_error record_latency
tcp_step (query transport) s small = ground (arith, small, not_both transport)
tcp_step nxdomain s small = omega (arith, small)
tcp_step failure s small = omega (arith, small)
tcp_step (latency (pos ns)) s small = ground (arith, small)
tcp_step (latency (negsuc n)) s small = omega (arith, small)

nxdomain_step :
    (e : StatEvent) (s : DnsStats)
    → s.responses_nx < 18446744073709551616
    → (record_event e s).responses_nx ≡ wrapped (s.responses_nx + nxdomain_in e)
unfolding record_event record_query record_nxdomain record_error record_latency
nxdomain_step (query transport) s small = ground (arith, small)
nxdomain_step nxdomain s small = refl
nxdomain_step failure s small = omega (arith, small)
nxdomain_step (latency (pos ns)) s small = ground (arith, small)
nxdomain_step (latency (negsuc n)) s small = omega (arith, small)

failures_step :
    (e : StatEvent) (s : DnsStats)
    → s.responses_err < 18446744073709551616
    → (record_event e s).responses_err ≡ wrapped (s.responses_err + failures_in e)
unfolding record_event record_query record_nxdomain record_error record_latency
failures_step (query transport) s small = ground (arith, small)
failures_step nxdomain s small = omega (arith, small)
failures_step failure s small = refl
failures_step (latency (pos ns)) s small = ground (arith, small)
failures_step (latency (negsuc n)) s small = omega (arith, small)

latency_step :
    (e : StatEvent) (s : DnsStats)
    → s.latency_total_ns < 18446744073709551616
    → (record_event e s).latency_total_ns ≡ wrapped (s.latency_total_ns + latency_in e)
unfolding record_event record_query record_nxdomain record_error record_latency
latency_step (query transport) s small = ground (arith, small)
latency_step nxdomain s small = omega (arith, small)
latency_step failure s small = omega (arith, small)
latency_step (latency (pos ns)) s small = ground (arith, small)
latency_step (latency (negsuc n)) s small = omega (arith, small)

-- The average latency in milliseconds, which is zero before the first query.
unfoldable pub average : ℕ → ℕ → Quotient
average sum zero = record { dividend = 0; divisor = 1 }
average sum (suc n) = record { dividend = sum; divisor = suc n * 1000000 }

average_lem :
    (sum n : ℕ)
    → (if ltb 0 n
        then (let q : Quotient = record { dividend = sum; divisor = n * 1000000 } in q)
        else (let q : Quotient = record { dividend = 0; divisor = 1 } in q))
      ≡ average sum n
unfolding average
average_lem sum zero = refl
average_lem sum (suc n) = ground arith

-- What the events are, each number modulo 2^64.
unfoldable pub counted : List StatEvent → DnsStatsSnapshot
unfolding total average
counted es = record {
  queries_total = wrapped (total queries_in es);
  queries_udp = wrapped (total udp_in es);
  queries_tcp = wrapped (total tcp_in es);
  responses_nx = wrapped (total nxdomain_in es);
  responses_err = wrapped (total failures_in es);
  avg_latency_ms = average (wrapped (total latency_in es)) (wrapped (total queries_in es));
}

-- In whatever order events are recorded, a snapshot gives the number of queries, of those over UDP
-- and over TCP, of NXDOMAIN responses and of errors, and the quotient of the sum of the latencies
-- that are positive by the number of queries in milliseconds, 0 without queries; each number and
-- the sum modulo 2^64.
pub snapshot-record_events :
    (es : List StatEvent) → snapshot (record_events es new_dns_stats) ≡ counted es
unfolding snapshot counted
snapshot-record_events es =
    rw
      (
        counter-new (λ s. s.queries_total) queries_in queries_step es refl,
        counter-new (λ s. s.queries_udp) udp_in udp_step es refl,
        counter-new (λ s. s.queries_tcp) tcp_in tcp_step es refl,
        counter-new (λ s. s.responses_nx) nxdomain_in nxdomain_step es refl,
        counter-new (λ s. s.responses_err) failures_in failures_step es refl,
        counter-new (λ s. s.latency_total_ns) latency_in latency_step es refl,
        ← average_lem (wrapped (total latency_in es)) (wrapped (total queries_in es)),
      )
      refl
