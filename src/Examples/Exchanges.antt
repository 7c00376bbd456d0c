-- ===== src/Examples/Exchanges.antt =====
-- An upstream that does not answer the first attempt.
use hydra_dns.Base.{
  ℕ, suc, ◌≡◌, ◌==◌, refl, [], ◌∷◌, List, Bool, true, false, if◌then◌else◌, Option, none, some,
  Bytes, arith,
}
use hydra_dns.Resolvers.Exchange.{
  Exchanged, replied, broke, Dialed, dialed, Sockets, QuerySettings, query_one_attempt, query_one,
}
use hydra_dns.Resolvers.Exchange.Pooled.{pool_after, query_one_attempt-pool_after}

abbrev upstream : Bytes
upstream = b'u' ∷ []

-- The world counts the reads, of which the first times out; a connection is its number.
abbrev read_once : ℕ → ℕ → ℕ → Exchanged ℕ × ℕ
read_once c size reads = if reads == 0 then (broke 7, 1) else (replied (1 ∷ 2 ∷ []), suc reads)

abbrev net : Sockets ℕ ℕ ℕ
net = record {
  context_error = λ w. none;
  resolve = λ up w. (none, w);
  dial_udp = λ up w. (dialed 5, w);
  dial_tcp = λ up w. (dialed 6, w);
  write = λ c b w. (none, w);
  read = read_once;
  read_full = read_once;
  close = λ c w. w;
  is_net_error = λ e. e == 7;
  bad_length = 0;
}

abbrev two_pooled : QuerySettings
two_pooled = record { pool_size = 2; recv_size = 4096; max_retries = 3; tcp_fallback = true }

-- The second attempt gets the reply; the connection of the first one is gone.
second_replied :
    query_one net two_pooled (λ i. false) upstream (0 ∷ []) [] 0
    ≡ (replied (1 ∷ 2 ∷ []), (upstream, 5 ∷ []) ∷ [], 2)
unfolding query_one hydra_dns.Resolvers.Exchange.ensure_pool hydra_dns.Base.Table.table_get
    hydra_dns.Resolvers.Exchange.query_attempts hydra_dns.Base.Table.table_set
    hydra_dns.Resolvers.Exchange.query_one_attempt hydra_dns.Resolvers.Exchange.pool_of
    hydra_dns.Base.bytes_eq hydra_dns.Resolvers.Exchange.fill_pool
    hydra_dns.Resolvers.Exchange.attempt_on hydra_dns.Resolvers.Exchange.or_tcp
    hydra_dns.Resolvers.Exchange.udp_exchange hydra_dns.Resolvers.Exchange.release_connection
    hydra_dns.Resolvers.Exchange.tc_is_set hydra_dns.Dns.Edns.is_truncated
second_replied = refl

-- A pool of two connections, of which the first is taken, and its read times out.
query_one_attempt-pool_after_example :
    (let r = query_one_attempt net two_pooled false upstream (0 ∷ []) (5 ∷ 6 ∷ []) 0 in
      (r.1 ≡ (pool_after net two_pooled false upstream (0 ∷ []) 5 (6 ∷ []) 0).0)
      × (r.2 ≡ (pool_after net two_pooled false upstream (0 ∷ []) 5 (6 ∷ []) 0).1))
    × ((query_one_attempt net two_pooled false upstream (0 ∷ []) [] 0).1 ≡ [])
query_one_attempt-pool_after_example =
    query_one_attempt-pool_after net two_pooled false upstream (0 ∷ []) 5 (6 ∷ []) 0 (omega arith)

first_is_gone : (pool_after net two_pooled false upstream (0 ∷ []) 5 (6 ∷ []) 0).0 ≡ 6 ∷ []
unfolding pool_after
first_is_gone = refl
