-- ===== src/Resolvers/Forwarding/Query.antt =====
-- internal/resolvers/forwarding_resolver.go: Resolve and queryAndCache. What another goroutine with
-- the same question does is an argument; only the failures and the cache change.
use hydra_dns.Base.{
  ℕ, zero, suc, ◌+◌, ◌%◌, [], length, get_or, none, some, not, if◌then◌else◌, Result, ok, err,
  Bytes,
}
use hydra_dns.Dns.Packet.{Packet}
use hydra_dns.Resolvers.Answer.{
  Answer, answered, failed, Failure, context_cancelled, no_upstream, network_error, crashed,
  upstream_cache, upstream_inflight, upstream,
}
use hydra_dns.Resolvers.Message.{patch_transaction_id}
use hydra_dns.Resolvers.Cache.{get_with_age}
use hydra_dns.Resolvers.Upstreams.{can_try_upstream, select_upstream, mark_failed, mark_healthy}
use hydra_dns.Resolvers.Ageing.{adjust_ttls}
use hydra_dns.Resolvers.Forwarding.{
  Network, CacheKey, same_key, ForwardingResolver, upstreams, cache_key, validate_response,
  store_in_cache, prepare_query_bytes, find_upstream_index,
}

module _ {W : Type 0} (net : Network W) where
  -- What follows a response that was received from the upstream, in the state after it.
  unfoldable pub accept_response :
      CacheKey → Packet → Bytes → ForwardingResolver → W → Answer × ForwardingResolver × W
  unfolding store_in_cache
  accept_response key req resp f w = elim (validate_response req resp) [
    | some why ↦ (failed why, f, w)
    | none ↦
        let norm = patch_transaction_id resp 0 in
        (answered norm upstream, store_in_cache (net.clock w 0) (net.clock w 1) key norm f, w)
  ]

  -- The loop over the upstreams: so many rounds are left, the next is the j-th, and `last` is
  -- lastErr.
  unfoldable pub query_loop :
      CacheKey
      → Packet
      → Bytes
      → ℕ
      → ℕ
      → ℕ
      → Failure
      → ForwardingResolver
      → W
      → Answer × ForwardingResolver × W
  unfolding accept_response
  query_loop key req query_bytes start_idx zero j last f w = (failed last, f, w)
  query_loop key req query_bytes start_idx (suc left) j last f w =
      let u = get_or (upstreams f) ((start_idx + j) % length (upstreams f)) [] in
      let (usable, failures) = can_try_upstream (net.clock w j) u f.upstream_failed_at in
      let (resp, w') = net.query_one u query_bytes w in
      let skipped =
        query_loop key req query_bytes start_idx left (suc j) last
          (record f { upstream_failed_at = failures }) w in
      let after =
        query_loop key req query_bytes start_idx left (suc j) network_error
          (record f { upstream_failed_at = mark_failed (net.clock w' 0) u failures }) w' in
      if net.cancelled w
      then (failed context_cancelled, f, w)
      else if not usable
      then skipped
      else elim resp [
        | none ↦ after
        | some b ↦
            accept_response key req b (record f { upstream_failed_at = mark_healthy u failures }) w'
      ]

  unfoldable pub query_and_cache :
      CacheKey → Packet → Bytes → ForwardingResolver → W → Answer × ForwardingResolver × W
  unfolding query_loop
  query_and_cache key req req_bytes f w = elim (prepare_query_bytes f req req_bytes) [
    | err e ↦ (failed crashed, f, w)
    | ok query_bytes ↦
        query_loop key req query_bytes (find_upstream_index f key.up) (length (upstreams f)) 0
          no_upstream f w
  ]

-- The query for the same key that another goroutine has under way: none, one that ends with an
-- answer, or one that is not awaited since the context is done.
pub data Inflight : Type 0 where
  alone : Inflight
  joined : Answer → Inflight
  given_up : Inflight

-- The answer of a query, with the client's id and the origin.
abbrev pub with_txid : ℕ → Answer → Answer
with_txid txid (answered b o) = answered (patch_transaction_id b txid) o
with_txid txid (failed why) = failed why

abbrev pub shared_answer : ℕ → Answer → Answer
shared_answer txid (answered b o) = answered (patch_transaction_id b txid) upstream_inflight
shared_answer txid (failed why) = failed why

abbrev pub cached_answer : ℕ → Result Bytes → Answer
cached_answer txid (ok adjusted) = answered (patch_transaction_id adjusted txid) upstream_cache
cached_answer txid (err e) = failed crashed

module _ {W : Type 0} (net : Network W) where
  -- After a miss in the cache.
  unfoldable pub resolve_miss :
      Inflight
      → CacheKey
      → Packet
      → Bytes
      → ForwardingResolver
      → W
      → Answer × ForwardingResolver × W
  unfolding query_and_cache
  resolve_miss (joined a) key req req_bytes f w = (shared_answer req.header.id a, f, w)
  resolve_miss given_up key req req_bytes f w = (failed context_cancelled, f, w)
  resolve_miss alone key req req_bytes f w =
      let (a, f', w') = query_and_cache net key req req_bytes f w in
      (with_txid req.header.id a, f', w')

  unfoldable pub forwarding_resolve :
      Inflight → Packet → Bytes → ForwardingResolver → W → Answer × ForwardingResolver × W
  unfolding resolve_miss
  forwarding_resolve inflight req req_bytes f w =
      let (up, failures) =
        select_upstream (net.clock w) f.first_upstream f.other_upstreams f.upstream_failed_at in
      let key = cache_key f req up in
      let (hit, cache') = get_with_age same_key (net.clock w (length (upstreams f))) key f.cache in
      let f' = record f { upstream_failed_at = failures; cache = cache' } in
      elim hit [
        | some (v, age, t) ↦ (cached_answer req.header.id (adjust_ttls v age), f', w)
        | none ↦
            if net.cancelled w
            then (failed context_cancelled, f', w)
            else resolve_miss inflight key req req_bytes f' w
      ]
