-- ===== src/Resolvers/Forwarding.antt =====
-- internal/resolvers/forwarding_resolver.go: the resolver that asks upstream servers, its cache
-- keys and the tests on responses. The network and the clock are the parameter Network.
pub mod Query
pub mod Sound
pub mod Stored
pub mod Sent
pub mod Safe
use hydra_dns.Base.{
  ℕ, zero, suc, ◌+◌, ◌*◌, ◌%◌, [], ◌∷◌, List, length, get_or, take, drop, ◌++◌, Option, none, some,
  Bool, true, false, not, ◌&&◌, ltb, ◌==◌, if◌then◌else◌, Result, ok, err, ◌>>=◌, Bytes, bytes_eq,
}
use hydra_dns.Base.Int.{ℤ, pos, ltb_ℤ}
use hydra_dns.Dns.Name.{to_lower, trim_suffix_dot}
use hydra_dns.Dns.Question.{Question}
use hydra_dns.Dns.Packet.{Packet, parse_packet}
use hydra_dns.Dns.Edns.{extract_opt, add_edns_to_request_bytes, OptRecord}
use hydra_dns.Resolvers.Answer.{
  Answer, answered, failed, Failure, context_cancelled, no_upstream, invalid_response,
  network_error, crashed, upstream_cache, upstream_inflight, upstream,
}
use hydra_dns.Resolvers.Message.{QuestionKey, patch_transaction_id}
use hydra_dns.Resolvers.Cache.{TtlCache, CacheEntryType, new_ttl_cache, get_with_age, set, second}
use hydra_dns.Resolvers.Decision.{analyze_cache_decision}
use hydra_dns.Resolvers.Upstreams.{
  Failures, can_try_upstream, select_upstream, mark_failed, mark_healthy,
}
use hydra_dns.Resolvers.Ageing.{adjust_ttls}

-- The world in a state: `clock w i` is what the i-th reading of the clock gives, `query_one` sends
-- to an upstream and receives (`none` for an error), `cancelled` is `ctx.Err() != nil`.
pub record Network (W : Type 0) : Type 0 where
  pub clock : W → ℕ → ℕ
  pub query_one : Bytes → Bytes → W → Option Bytes × W
  pub cancelled : W → Bool

pub record CacheKey : Type 0 where
  pub q : QuestionKey
  pub up : Bytes

unfoldable pub same_key : CacheKey → CacheKey → Bool
same_key a b =
    bytes_eq a.q.qname b.q.qname
    && (a.q.qtype == b.q.qtype && (a.q.qclass == b.q.qclass && bytes_eq a.up b.up))

-- The list of upstreams is never empty: its first, and the others.
pub record ForwardingResolver : Type 0 where
  pub first_upstream : Bytes
  pub other_upstreams : List Bytes
  pub udp_timeout : ℤ
  pub recv_size : ℕ
  pub tcp_fallback : Bool
  pub tcp_timeout : ℤ
  pub max_retries : ℤ
  pub edns_udp_size : ℤ
  pub edns_enabled : Bool
  pub cache : TtlCache CacheKey Bytes
  pub upstream_failed_at : Failures
  pub pool_size : ℤ

-- `if x <= 0 { x = default }`
abbrev or_default : ℤ → ℕ → ℤ
or_default x default = if ltb_ℤ (pos 0) x then x else pos default

abbrev max_upstreams : ℕ
max_upstreams = 3

-- "8.8.8.8"
abbrev default_upstream : Bytes
default_upstream = b'8' ∷ b'.' ∷ b'8' ∷ b'.' ∷ b'8' ∷ b'.' ∷ b'8' ∷ []

unfoldable pub new_forwarding_resolver : List Bytes → ℤ → ℤ → Bool → ℤ → ℤ → ℤ → ForwardingResolver
new_forwarding_resolver upstreams pool_size cache_max_entries tcp_fallback udp_timeout tcp_timeout
      max_retries =
    record {
      first_upstream = elim upstreams [ [] ↦ default_upstream | u ∷ us ↦ u ];
      other_upstreams = elim upstreams as (λ _. List Bytes) [ [] ↦ [] | u ∷ us ↦ take 2 us ];
      udp_timeout = or_default udp_timeout (3 * second);
      recv_size = 4096;
      tcp_fallback = tcp_fallback;
      tcp_timeout = or_default tcp_timeout (5 * second);
      max_retries = or_default max_retries 3;
      edns_udp_size = pos 1232;
      edns_enabled = true;
      cache = new_ttl_cache (or_default cache_max_entries 20000);
      upstream_failed_at = [];
      pool_size = or_default pool_size 256;
    }

unfoldable pub upstreams : ForwardingResolver → List Bytes
upstreams f = f.first_upstream ∷ f.other_upstreams

unfoldable pub normalize_question_key : Packet → QuestionKey
normalize_question_key req = elim req.questions [
  | [] ↦ record { qname = []; qtype = 0; qclass = 0 }
  | q ∷ qs ↦ record { qname = q.name; qtype = q.type; qclass = q.class }
]

unfoldable pub cache_key : ForwardingResolver → Packet → Bytes → CacheKey
unfolding normalize_question_key
cache_key f req up = record {
  q = normalize_question_key req;
  up = if bytes_eq up [] then f.first_upstream else up;
}

-- The comparison of names in ASCII.
unfoldable pub equal_dns_names : Bytes → Bytes → Bool
equal_dns_names a b = bytes_eq (to_lower (trim_suffix_dot a)) (to_lower (trim_suffix_dot b))

-- `none` for the nil error; the first question of the request is read where there is one.
unfoldable pub match_questions : List Question → List Question → Option Failure
match_questions req_qs [] = some invalid_response
match_questions [] (res_q ∷ res_qs) = some crashed
match_questions (req_q ∷ req_qs) (res_q ∷ res_qs) =
    if equal_dns_names req_q.name res_q.name
      && (req_q.type == res_q.type && req_q.class == res_q.class)
    then none
    else some invalid_response

unfoldable pub validate_response : Packet → Bytes → Option Failure
validate_response req resp_bytes = elim (parse_packet resp_bytes) [
  | err e ↦ some invalid_response
  | ok resp ↦ match_questions req.questions resp.questions
]

unfoldable pub store_in_cache : ℕ → ℕ → CacheKey → Bytes → ForwardingResolver → ForwardingResolver
store_in_cache now now' key resp f =
    let decision = analyze_cache_decision resp in
    if decision.ttl_seconds == 0 then f else record f {
      cache =
          set same_key now now' key resp (pos (decision.ttl_seconds * second)) decision.entry_type
            f.cache;
    }

-- A nil OPT record has no DO bit.
unfoldable pub wants_dnssec : Option OptRecord → Bool
wants_dnssec none = false
wants_dnssec (some opt) = opt.dnssec_ok

unfoldable pub prepare_query_bytes : ForwardingResolver → Packet → Bytes → Result Bytes
prepare_query_bytes f req req_bytes =
    let out = 0 ∷ 0 ∷ drop 2 req_bytes in
    if ltb (length req_bytes) 2
    then ok req_bytes
    else if f.edns_enabled
    then (extract_opt req.additionals >>= (λ client_opt.
        if wants_dnssec client_opt
        then ok out
        else add_edns_to_request_bytes req out f.edns_udp_size))
    else ok out

-- The index of the first upstream of this name, or `none`.
unfoldable pub index_of : Bytes → List Bytes → Option ℕ
index_of up [] = none
index_of up (u ∷ us) =
    let rest = index_of up us in
    if bytes_eq u up then some 0 else elim rest [ none ↦ none | some i ↦ some (suc i) ]

unfoldable pub find_upstream_index : ForwardingResolver → Bytes → ℕ
find_upstream_index f up = elim (index_of up (upstreams f)) [ none ↦ 0 | some i ↦ i ]
