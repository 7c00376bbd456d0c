-- ===== src/Resolvers/Forwarding/Stored.antt =====
-- The queries to upstreams store and return only responses to the question.
use hydra_dns.Base.{
  ℕ, zero, suc, ◌+◌, ◌%◌, ◌≡◌, refl, arith, [], ◌∷◌, List, length, drop, get_or, ltb, ◌==◌,
  Bool-cases, Option-cases, inl, inr, Succeeds, Succeeds-value, Bytes, uint16_at_lem,
}
use hydra_dns.Base.Int.{ℤ}
use hydra_dns.Dns.Question.{Question}
use hydra_dns.Dns.Packet.{Packet}
use hydra_dns.Dns.Edns.{extract_opt, add_edns_to_request_bytes}
use hydra_dns.Dns.Edns.Opt.{Succeeds-extract_opt}
use hydra_dns.Resolvers.Answer.{Answer, Failure, network_error, no_upstream}
use hydra_dns.Resolvers.Message.{patch_transaction_id}
use hydra_dns.Resolvers.Cache.Values.{set-HoldsOf}
use hydra_dns.Resolvers.Decision.{analyze_cache_decision}
use hydra_dns.Resolvers.Upstreams.{can_try_upstream, mark_failed, mark_healthy}
use hydra_dns.Resolvers.Forwarding.{
  Network, CacheKey, same_key, ForwardingResolver, upstreams, normalize_question_key,
  validate_response, store_in_cache, wants_dnssec, prepare_query_bytes, find_upstream_index,
}
use hydra_dns.Resolvers.Forwarding.Query.{accept_response, query_loop, query_and_cache}
use hydra_dns.Resolvers.Forwarding.Sound.{
  GivenBy, StoredFor, IsSound, IsError, IsStored, same_key-IsEquality, validate_response-Judged,
}

store_in_cache-IsSound :
    {W : Type 0} (net : Network W) (now now' : ℕ) (key : CacheKey) (v : Bytes)
    (f : ForwardingResolver)
    → StoredFor net key.q v
    → IsSound net f
    → IsSound net (store_in_cache now now' key v f)
unfolding store_in_cache
store_in_cache-IsSound net now now' key v f p h =
    elim (Bool-cases ((analyze_cache_decision v).ttl_seconds == 0)) [
      | inl skip ↦ rw (store_in_cache, skip) h
      | inr go ↦
          rw (store_in_cache, go)
            (set-HoldsOf same_key same_key-IsEquality (λ k u. StoredFor net k.q u) now now' key v _
              _ f.cache p h)
    ]

add_edns-Succeeds :
    (req : Packet) (b : Bytes) (size : ℤ)
    → Succeeds (λ out. Unit {0}) (add_edns_to_request_bytes req b size)
unfolding add_edns_to_request_bytes
add_edns-Succeeds req b size =
    let (found, e, _) =
      Succeeds-value (λ _. Unit {0}) (extract_opt req.additionals)
        (Succeeds-extract_opt req.additionals) in
    ground (arith, e, Option-cases found, Bool-cases (ltb (length b) 12), uint16_at_lem b 10)

prepare_query_bytes-Succeeds :
    (f : ForwardingResolver) (req : Packet) (b : Bytes)
    → Succeeds (λ out. Unit {0}) (prepare_query_bytes f req b)
unfolding prepare_query_bytes
prepare_query_bytes-Succeeds f req b =
    let out = 0 ∷ 0 ∷ drop 2 b in
    let (found, e, _) =
      Succeeds-value (λ _. Unit {0}) (extract_opt req.additionals)
        (Succeeds-extract_opt req.additionals) in
    ground (
      arith,
      e,
      add_edns-Succeeds req out f.edns_udp_size,
      Bool-cases (ltb (length b) 2),
      Bool-cases f.edns_enabled,
      Bool-cases (wants_dnssec found),
    )

-- The answer is a stored response or an error, and the cache stays sound.
abbrev pub Keeps : {W : Type 0} → Network W → Packet → Answer × ForwardingResolver × W → Type 0
Keeps net req (a, f, w) = IsStored net (normalize_question_key req) a × IsSound net f

module _ {W : Type 0} (net : Network W) (key : CacheKey) (req : Packet)
    (same : key.q ≡ normalize_question_key req) (q : Question) (qs : List Question)
    (asked : req.questions ≡ q ∷ qs) where
  accept_response-Keeps :
      (resp : Bytes) (f : ForwardingResolver) (w : W)
      → GivenBy net resp
      → IsSound net f
      → Keeps net req (accept_response net key req resp f w)
  unfolding accept_response
  accept_response-Keeps resp f w given h = elim (Option-cases (validate_response req resp)) [
    | inr (why, e) ↦
        let judged = rw e at (validate_response-Judged req resp q qs asked) in
        rw (accept_response, e) (judged, h)
    | inl e ↦
        let judged = rw e at (validate_response-Judged req resp q qs asked) in
        let stored : StoredFor net (normalize_question_key req) (patch_transaction_id resp 0) =
          (resp, refl, given, judged) in
        rw (accept_response, e)
          (
            stored,
            store_in_cache-IsSound net _ _ key (patch_transaction_id resp 0) f (rw same stored) h,
          )
  ]

  query_loop-Keeps :
      (query_bytes : Bytes) (start_idx left j : ℕ) (last : Failure) (f : ForwardingResolver) (w : W)
      → IsError last
      → IsSound net f
      → Keeps net req (query_loop net key req query_bytes start_idx left j last f w)
  unfolding query_loop
  query_loop-Keeps query_bytes s zero j last f w e h = (e, h)
  query_loop-Keeps query_bytes s (suc left) j last f w e h =
      let u = get_or (upstreams f) ((s + j) % length (upstreams f)) [] in
      let failures = (can_try_upstream (net.clock w j) u f.upstream_failed_at).1 in
      let w' = (net.query_one u query_bytes w).1 in
      let after = record f { upstream_failed_at = mark_failed (net.clock w' 0) u failures } in
      let healthy = record f { upstream_failed_at = mark_healthy u failures } in
      elim (Bool-cases (net.cancelled w)) [
        | inl stop ↦ rw (query_loop, stop) (tt, h)
        | inr go ↦ elim (Bool-cases (can_try_upstream (net.clock w j) u f.upstream_failed_at).0) [
          | inr down ↦
              rw (query_loop, go, down)
                (query_loop-Keeps query_bytes s left (suc j) last
                  (record f { upstream_failed_at = failures }) w e h)
          | inl usable ↦ elim (Option-cases (net.query_one u query_bytes w).0) [
            | inl lost ↦
                rw (query_loop, go, usable, lost)
                  (query_loop-Keeps query_bytes s left (suc j) network_error after w' tt h)
            | inr (b, got) ↦
                rw (query_loop, go, usable, got)
                  (accept_response-Keeps b healthy w' (u, query_bytes, w, got) h)
          ]
        ]
      ]

  pub query_and_cache-Keeps :
      (req_bytes : Bytes) (f : ForwardingResolver) (w : W)
      → IsSound net f
      → Keeps net req (query_and_cache net key req req_bytes f w)
  unfolding query_and_cache
  query_and_cache-Keeps req_bytes f w h =
      let (query_bytes, e, _) =
        Succeeds-value (λ _. Unit {0}) (prepare_query_bytes f req req_bytes)
          (prepare_query_bytes-Succeeds f req req_bytes) in
      rw (query_and_cache, e)
        (query_loop-Keeps query_bytes (find_upstream_index f key.up) (length (upstreams f)) 0
          no_upstream f w tt h)
