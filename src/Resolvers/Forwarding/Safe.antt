-- ===== src/Resolvers/Forwarding/Safe.antt =====
-- What the forwarding resolver answers, and its cache after any number of requests.
use hydra_dns.Base.{◌≡◌, refl, ◌∷◌, List, length, Bool, Bool-cases, Option-cases, inl, inr, Bytes}
use hydra_dns.Base.Int.{ℤ}
use hydra_dns.Dns.Question.{Question}
use hydra_dns.Dns.Packet.{Packet}
use hydra_dns.Resolvers.Answer.{Answer}
use hydra_dns.Resolvers.Cache.{CacheEntryType, TtlCache, get_with_age}
use hydra_dns.Resolvers.Cache.Values.{HitHolds-miss, HitHolds-hit, get_with_age-HitHolds}
use hydra_dns.Resolvers.Upstreams.{select_upstream}
use hydra_dns.Resolvers.Forwarding.{
  Network, CacheKey, same_key, ForwardingResolver, new_forwarding_resolver, upstreams, cache_key,
  normalize_question_key,
}
use hydra_dns.Resolvers.Forwarding.Query.{
  Inflight, alone, joined, given_up, resolve_miss, forwarding_resolve,
}
use hydra_dns.Resolvers.Forwarding.Sound.{StoredFor, IsSound, InflightIsStored, same_key-IsEquality}
use hydra_dns.Resolvers.Forwarding.Stored.{query_and_cache-Keeps}
use hydra_dns.Resolvers.Forwarding.Sent.{
  Replies, with_txid-Replies, shared_answer-Replies, cached_answer-Replies,
}

-- A reply, and a sound cache.
abbrev pub RepliesSoundly :
    {W : Type 0} → Network W → Packet → Answer × ForwardingResolver × W → Type 0
RepliesSoundly net req (a, f, w) =
    Replies net (normalize_question_key req) req.header.id a × IsSound net f

module _ {W : Type 0} (net : Network W) where
  resolve_miss-RepliesSoundly :
      (inflight : Inflight) (key : CacheKey) (req : Packet) (req_bytes : Bytes)
      (f : ForwardingResolver) (w : W) (q : Question) (qs : List Question)
      → key.q ≡ normalize_question_key req
      → req.questions ≡ q ∷ qs
      → InflightIsStored net (normalize_question_key req) inflight
      → IsSound net f
      → RepliesSoundly net req (resolve_miss net inflight key req req_bytes f w)
  unfolding resolve_miss
  resolve_miss-RepliesSoundly (joined a) key req req_bytes f w q qs same asked i h =
      (shared_answer-Replies net (normalize_question_key req) req.header.id a i, h)
  resolve_miss-RepliesSoundly given_up key req req_bytes f w q qs same asked i h = (tt, h)
  resolve_miss-RepliesSoundly alone key req req_bytes f w q qs same asked i h =
      let kept = query_and_cache-Keeps net key req same q qs asked req_bytes f w h in
      (with_txid-Replies net (normalize_question_key req) req.header.id _ kept.0, kept.1)

  -- From a sound cache, where the query that is under way for the same key, if any, ends with a
  -- stored response or an error: a request with a question gets a response that some upstream of
  -- the network gives, that parses and whose first question is the request's, or an error. The
  -- response has the request's id and is otherwise as the upstream gave it, but that adjustTTLs has
  -- aged it where it is from the cache, which keeps its length and header. No index is out of range,
  -- and the cache stays sound.
  pub forwarding_resolve-RepliesSoundly :
      (inflight : Inflight) (req : Packet) (req_bytes : Bytes) (f : ForwardingResolver) (w : W)
      (q : Question) (qs : List Question)
      → req.questions ≡ q ∷ qs
      → InflightIsStored net (normalize_question_key req) inflight
      → IsSound net f
      → RepliesSoundly net req (forwarding_resolve net inflight req req_bytes f w)
  unfolding forwarding_resolve cache_key
  forwarding_resolve-RepliesSoundly inflight req req_bytes f w q qs asked i h =
      let k = normalize_question_key req in
      let (up, failures) =
        select_upstream (net.clock w) f.first_upstream f.other_upstreams f.upstream_failed_at in
      let key = cache_key f req up in
      let got = get_with_age same_key (net.clock w (length (upstreams f))) key f.cache in
      let found =
        get_with_age-HitHolds same_key same_key-IsEquality (λ key' v. StoredFor net key'.q v)
          (net.clock w (length (upstreams f))) key f.cache h in
      let P : CacheKey → Bytes → Type 0 = λ key' v. StoredFor net key'.q v in
      elim (Option-cases got.0) [
        | inr ((v, age, t), e) ↦
            let (stored, left) =
              HitHolds-hit same_key same_key-IsEquality P key v age t got found e in
            rw (forwarding_resolve, e)
              (cached_answer-Replies net k req.header.id v age stored, left)
        | inl e ↦
            let left = HitHolds-miss same_key same_key-IsEquality P key got found e in
            elim (Bool-cases (net.cancelled w)) [
              | inl stop ↦ rw (forwarding_resolve, e, stop) (tt, left)
              | inr go ↦
                  rw (forwarding_resolve, e, go)
                    (resolve_miss-RepliesSoundly inflight key req req_bytes
                      (record f { upstream_failed_at = failures; cache = got.1 }) w q qs refl asked
                      i left)
            ]
      ]

-- What any requests on a network lead to from a new resolver.
pub data ForwardingReachable {W : Type 0} (net : Network W) : ForwardingResolver → Type 0 where
  made :
      (servers : List Bytes) (pool_size max_entries : ℤ) (fallback : Bool)
      (udp_timeout tcp_timeout retries : ℤ)
      → ForwardingReachable net (
          new_forwarding_resolver servers pool_size max_entries fallback udp_timeout tcp_timeout
            retries)
  resolved :
      (f : ForwardingResolver) (inflight : Inflight) (req : Packet) (req_bytes : Bytes) (w : W)
      (q : Question) (qs : List Question)
      → ForwardingReachable net f
      → req.questions ≡ q ∷ qs
      → InflightIsStored net (normalize_question_key req) inflight
      → ForwardingReachable net (forwarding_resolve net inflight req req_bytes f w).1

-- After any requests with questions to a new resolver, in any states of the network: every response
-- in the cache is one that some upstream of the network gives, that parses and whose first question
-- is the one it is stored under, with the id 0 and otherwise as the upstream gave it.
pub ForwardingReachable-IsSound :
    {W : Type 0} (net : Network W) (f : ForwardingResolver)
    → ForwardingReachable net f
    → IsSound net f
unfolding new_forwarding_resolver hydra_dns.Resolvers.Cache.new_ttl_cache
ForwardingReachable-IsSound net _ (made servers p m fb u t r) = tt
ForwardingReachable-IsSound net _ (resolved f inflight req req_bytes w q qs before asked i) =
    (forwarding_resolve-RepliesSoundly net inflight req req_bytes f w q qs asked i
      (ForwardingReachable-IsSound net f before)).1
