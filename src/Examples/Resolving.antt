-- ===== src/Examples/Resolving.antt =====
-- Queries that are blocked, passed on, forwarded and served from the cache.
use hydra_dns.Config.{FilteringConfig}
use hydra_dns.Base.{
  ℕ, suc, ◌+◌, ◌-◌, ◌≤◌, ◌<◌, max, ◌≡◌, ◌↔◌, refl, arith, [], ◌∷◌, ◌++◌, List, length, take, Bool,
  true, false, if◌then◌else◌, Option, none, some, ok, Succeeds, Bytes, All, IsByte,
}
use hydra_dns.Base.Int.{ℤ, pos}
use hydra_dns.Dns.Header.{parse_header}
use hydra_dns.Dns.Packet.{Packet}
use hydra_dns.Filtering.Policy.{
  PolicyEngine, BlocklistUrl, new_policy_engine, load_blocklist, evaluate,
}
use hydra_dns.Resolvers.Answer.{answered, failed, Resolver, upstream, filtered_blocked, no_resolver}
use hydra_dns.Resolvers.Filtered.{blocked_answer}
use hydra_dns.Resolvers.Filtered.Blocked.{blocked_header, parse_header-blocked_answer}
use hydra_dns.Resolvers.Chained.{chained_resolve}
use hydra_dns.Resolvers.Chained.First.{FirstAnswer, chained_resolve_answered_iff}
use hydra_dns.Dns.Packet.{parse_packet}
use hydra_dns.Resolvers.Answer.{custom_dns}
use hydra_dns.Base.Table.{table_get}
use hydra_dns.Resolvers.Custom.{
  Addr, v4, v6, CustomDnsResolver, normalize_host, matching_records, custom_packet, custom_resolve,
}
use hydra_dns.Resolvers.Custom.Answers.{answer_packet, custom_resolve-parsed}
use hydra_dns.Resolvers.Reloadable.{new_reloadable}
use hydra_dns.Dns.Record.{Record, ip_record, marshal_record}
use hydra_dns.Dns.Record.Written.{IsRecord}
use hydra_dns.Resolvers.Ageing.{age_record, adjust_ttls}
use hydra_dns.Resolvers.Ageing.Records.{aged_record, age_record-marshal_record}
use hydra_dns.Resolvers.Ageing.Kept.{Keeps, adjust_ttls-Succeeds}
use hydra_dns.Resolvers.Forwarding.{Network, ForwardingResolver, new_forwarding_resolver}
use hydra_dns.Resolvers.Forwarding.Query.{alone, forwarding_resolve}
use hydra_dns.Resolvers.Forwarding.Sound.{IsSound}
use hydra_dns.Resolvers.Forwarding.Safe.{
  RepliesSoundly, forwarding_resolve-RepliesSoundly, made, resolved, ForwardingReachable-IsSound,
}
use hydra_dns.Server.Runner.{policy_config, build_policy_engine, ChainState, build_resolver_chain}
use hydra_dns.Server.Runner.Serving.{PolicyServes, built, loaded, blocked_by}
use hydra_dns.Server.Runner.Chain.{custom_else_forwarded, build_resolver_chain_lem}
use hydra_dns.Examples.Messages.{query, query_header, query_wire, question, response_wire}

-- An upstream that answers every query with the response; its state counts them.
abbrev network : Network ℕ
network = record {
  clock = λ w i. w + i;
  query_one = λ up b w. (some response_wire, suc w);
  cancelled = λ w. false;
}

abbrev forwarder : ForwardingResolver
forwarder = new_forwarding_resolver [] (pos 0) (pos 0) true (pos 0) (pos 0) (pos 0)

forwarding_resolve-RepliesSoundly_example :
    RepliesSoundly network query (forwarding_resolve network alone query query_wire forwarder 0)
forwarding_resolve-RepliesSoundly_example =
    forwarding_resolve-RepliesSoundly network alone query query_wire forwarder 0 question [] refl tt
      (ForwardingReachable-IsSound network forwarder
        (made [] (pos 0) (pos 0) true (pos 0) (pos 0) (pos 0)))

abbrev queried : ForwardingResolver
queried = (forwarding_resolve network alone query query_wire forwarder 0).1

ForwardingReachable-IsSound_example : IsSound network queried
ForwardingReachable-IsSound_example = ForwardingReachable-IsSound network queried (
    resolved forwarder alone query query_wire 0 question []
      (made [] (pos 0) (pos 0) true (pos 0) (pos 0) (pos 0)) refl tt)

adjust_ttls-Succeeds_example : Succeeds (Keeps response_wire) (adjust_ttls response_wire 5000000000)
adjust_ttls-Succeeds_example = adjust_ttls-Succeeds response_wire 5000000000

-- `a` at 192.0.2.1 for five minutes, and its wire form.
abbrev local_record : Record
local_record = ip_record (record { name = 97 ∷ []; class = 1; ttl = 300 }) (192 ∷ 0 ∷ 2 ∷ 1 ∷ [])

abbrev record_wire : Bytes
record_wire = 1 ∷ 97 ∷ 0 ∷ 0 ∷ 1 ∷ 0 ∷ 1 ∷ 0 ∷ 0 ∷ 1 ∷ 44 ∷ 0 ∷ 4 ∷ 192 ∷ 0 ∷ 2 ∷ 1 ∷ []

record_written : marshal_record local_record ≡ ok record_wire
unfolding marshal_record hydra_dns.Dns.Record.marshal_rdata hydra_dns.Dns.Record.marshal_ip
    hydra_dns.Dns.Record.to4 hydra_dns.Dns.Record.marshal_record_with_rdata
    hydra_dns.Dns.Record.ip_type hydra_dns.Dns.Record.record_type hydra_dns.Dns.Record.record_header
    hydra_dns.Dns.Record.owner_wire hydra_dns.Dns.Record.fixed_fields hydra_dns.Dns.Name.encode_name
    hydra_dns.Dns.Name.encode_trimmed hydra_dns.Dns.Name.trim_dot hydra_dns.Dns.Name.encode_loop
    hydra_dns.Dns.Name.append_label hydra_dns.Dns.Name.any_non_ascii hydra_dns.Base.put_uint16
    hydra_dns.Base.put_uint32 hydra_dns.Convert.clamp_int_to_uint16
record_written = refl

local_record-IsRecord : IsRecord local_record
unfolding hydra_dns.Dns.Record.record_header
local_record-IsRecord = record { class_fits = omega arith; ttl_fits = omega arith; type_fits = tt }

age_record-marshal_record_example :
    (aged : Bytes) × (marshal_record (aged_record 60 local_record) ≡ ok aged)
    × (age_record 60 ((0 ∷ []) ++ (record_wire ++ [])) 1 ≡ ok (some ((0 ∷ []) ++ (aged ++ []), 18)))
age_record-marshal_record_example =
    age_record-marshal_record 60 local_record record_wire (0 ∷ []) [] (omega arith)
      local_record-IsRecord record_written

-- `a` with NXDOMAIN, QR, RD and RA.
abbrev blocked_wire : Bytes
blocked_wire =
    0x12 ∷ 0x34 ∷ 0x81 ∷ 0x83 ∷ 0 ∷ 1 ∷ 0 ∷ 0 ∷ 0 ∷ 0 ∷ 0 ∷ 0 ∷ 1 ∷ 97 ∷ 0 ∷ 0 ∷ 1 ∷ 0 ∷ 1 ∷ []

query_blocked : blocked_answer query ≡ answered blocked_wire filtered_blocked
unfolding blocked_answer hydra_dns.Dns.Packet.marshal_packet hydra_dns.Dns.Packet.marshal_all
    hydra_dns.Resolvers.Filtered.build_blocked_response hydra_dns.Dns.Question.marshal_question
    hydra_dns.Dns.Name.encode_name hydra_dns.Dns.Name.encode_trimmed hydra_dns.Dns.Name.trim_dot
    hydra_dns.Dns.Name.encode_loop hydra_dns.Dns.Name.append_label hydra_dns.Dns.Name.any_non_ascii
    hydra_dns.Dns.Header.marshal hydra_dns.Base.put_uint16 hydra_dns.Dns.Packet.counted_header
    hydra_dns.Resolvers.Filtered.build_blocked_flags hydra_dns.Convert.clamp_int_to_uint16
query_blocked = refl

parse_header-blocked_answer_example :
    parse_header blocked_wire 0 ≡ ok (blocked_header query_header 1, 12)
parse_header-blocked_answer_example =
    parse_header-blocked_answer query blocked_wire filtered_blocked (omega arith) (omega arith)
      (omega arith) query_blocked

abbrev failing : Resolver ℕ
failing req req_bytes w = (failed no_resolver, suc w)

abbrev answering : Resolver ℕ
answering req req_bytes w = (answered response_wire upstream, suc w)

chained_resolve_answered_iff_example :
    (chained_resolve (λ w. false) (failing ∷ answering ∷ failing ∷ []) query query_wire 0
      ≡ (answered response_wire upstream, 2))
    ↔ FirstAnswer
        (λ w. false)
        query
        query_wire
        response_wire
        upstream
        2
        (failing ∷ answering ∷ failing ∷ [])
        0
chained_resolve_answered_iff_example =
    chained_resolve_answered_iff (λ w. false) query query_wire response_wire upstream 2
      (failing ∷ answering ∷ failing ∷ []) 0

-- The name of the query is blocked.
abbrev filter : FilteringConfig
filter = record {
  enabled = true;
  log_blocked = false;
  log_allowed = false;
  whitelist_domains = [];
  blacklist_domains = (97 ∷ []) ∷ [];
  blocklists = record { name = b'l' ∷ []; url = b'u' ∷ []; format = [] } ∷ [];
  refresh_interval = [];
}

-- No text is a duration.
abbrev no_duration : Bytes → Option ℤ
no_duration text = none

abbrev policy : PolicyEngine
policy = new_policy_engine (policy_config no_duration filter)

policy_built : build_policy_engine no_duration (some filter) ≡ some policy
unfolding build_policy_engine
policy_built = refl

-- The remote list could not be loaded.
abbrev remote_list : BlocklistUrl
remote_list = record { name = b'l' ∷ []; url = b'u' ∷ []; format = 0 }

abbrev served_policy : PolicyEngine
served_policy = load_blocklist 5 remote_list none policy

abbrev served_history : PolicyServes no_duration filter served_policy
served_history = loaded policy 5 remote_list none (built policy policy_built) tt

abbrev at_start : ChainState ℕ
at_start = record { custom = new_reloadable none; forwarding = forwarder; world = 0 }

build_resolver_chain_lem_example :
    let r = build_resolver_chain network alone query query_wire (some served_policy, at_start) in
    (r.0 ≡ (
      if blocked_by served_history (97 ∷ [])
      then blocked_answer query
      else (custom_else_forwarded network alone query query_wire at_start).0))
    × (r.1.0 ≡ some (evaluate (97 ∷ []) served_policy).1)
    × (r.1.1 ≡ (
        if blocked_by served_history (97 ∷ [])
        then at_start
        else (custom_else_forwarded network alone query query_wire at_start).1))
build_resolver_chain_lem_example =
    build_resolver_chain_lem network alone no_duration filter served_policy query query_wire
      at_start question [] served_history refl refl

-- `a` at 192.0.2.1 and at the loopback address of IPv6.
abbrev local_addrs : List Addr
local_addrs =
    v4 (192 ∷ 0 ∷ 2 ∷ 1 ∷ [])
    ∷ v6 (0 ∷ 0 ∷ 0 ∷ 0 ∷ 0 ∷ 0 ∷ 0 ∷ 0 ∷ 0 ∷ 0 ∷ 0 ∷ 0 ∷ 0 ∷ 0 ∷ 0 ∷ 1 ∷ [])
    ∷ []

abbrev local_names : CustomDnsResolver
local_names = record { hosts = (97 ∷ [], local_addrs) ∷ []; cnames = [] }

abbrev local_wire : Bytes
local_wire =
    0x12 ∷ 0x34 ∷ 0x84 ∷ 0x00 ∷ 0 ∷ 1 ∷ 0 ∷ 1 ∷ 0 ∷ 0 ∷ 0 ∷ 0 ∷ 1 ∷ 97 ∷ 0 ∷ 0 ∷ 1 ∷ 0 ∷ 1 ∷ 1 ∷ 97
    ∷ 0 ∷ 0 ∷ 1 ∷ 0 ∷ 1 ∷ 0 ∷ 0 ∷ 14 ∷ 16 ∷ 0 ∷ 4 ∷ 192 ∷ 0 ∷ 2 ∷ 1 ∷ []

local_answered : custom_resolve local_names query ≡ answered local_wire custom_dns
unfolding custom_resolve table_get hydra_dns.Base.bytes_eq normalize_host
    hydra_dns.Dns.Name.trim_suffix_dot hydra_dns.Dns.Name.to_lower hydra_dns.Base.Text.trim_space
    hydra_dns.Base.Text.trim_left hydra_dns.Base.Text.trim_right
    hydra_dns.Resolvers.Custom.build_address_response matching_records
    hydra_dns.Resolvers.Custom.matches_query_type hydra_dns.Dns.Packet.marshal_packet
    hydra_dns.Dns.Packet.marshal_all custom_packet hydra_dns.Dns.Question.marshal_question
    hydra_dns.Dns.Name.encode_name hydra_dns.Dns.Name.encode_trimmed hydra_dns.Dns.Name.trim_dot
    hydra_dns.Dns.Name.encode_loop hydra_dns.Dns.Name.append_label hydra_dns.Dns.Name.any_non_ascii
    hydra_dns.Dns.Header.marshal hydra_dns.Base.put_uint16 hydra_dns.Base.put_uint32
    hydra_dns.Dns.Packet.counted_header hydra_dns.Convert.clamp_int_to_uint16
    hydra_dns.Dns.Record.marshal_record hydra_dns.Dns.Record.marshal_record_with_rdata
    hydra_dns.Dns.Record.marshal_rdata hydra_dns.Dns.Record.marshal_ip hydra_dns.Dns.Record.ip_type
    hydra_dns.Dns.Record.record_type hydra_dns.Dns.Record.record_header hydra_dns.Dns.Record.to4
    hydra_dns.Dns.Record.owner_wire hydra_dns.Dns.Record.fixed_fields
    hydra_dns.Resolvers.Custom.send
local_answered = refl

local_known : table_get (normalize_host (97 ∷ [])) local_names.hosts ≡ some local_addrs
unfolding table_get normalize_host hydra_dns.Base.bytes_eq hydra_dns.Dns.Name.trim_suffix_dot
    hydra_dns.Dns.Name.to_lower hydra_dns.Base.Text.trim_space
local_known = refl

local_plain : table_get (normalize_host (97 ∷ [])) local_names.cnames ≡ none
unfolding table_get
local_plain = refl

custom_resolve-parsed_example :
    parse_packet local_wire ≡ ok (answer_packet query question local_addrs)
custom_resolve-parsed_example =
    custom_resolve-parsed local_names query question [] local_addrs local_wire custom_dns refl
      local_plain local_known (omega arith) (omega arith) (omega arith) (omega arith) local_answered
