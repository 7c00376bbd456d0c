-- ===== src/Examples/Settings.antt =====
-- A configuration that Validate completes, settings of the workers, and counted queries.
use hydra_dns.Base.{ℕ, ◌≡◌, refl, [], ◌∷◌, List, Bool, true, false, none, some, Option, Bytes}
use hydra_dns.Base.Int.{pos}
use hydra_dns.Config.{
  Config, workers_auto, workers_fixed, fallback_upstream, parse_workers, validate,
}
use hydra_dns.Config.Validated.{IsValidated, validate-IsValidated}
use hydra_dns.Server.Stats.{new_dns_stats, udp_name, snapshot}
use hydra_dns.Server.Stats.Counted.{
  StatEvent, query, nxdomain, latency, record_events, counted, snapshot-record_events,
}

-- Port 53, four upstreams, and `4` workers; all that has a default is left out.
abbrev bare : Config
bare = record {
  server = record {
    host = [];
    port = pos 53;
    workers = workers_auto;
    workers_raw = b'4' ∷ [];
    max_concurrency = pos 0;
    upstream_socket_pool_size = pos 0;
    enable_tcp = true;
    tcp_fallback = true;
  };
  upstream = record {
    servers = (b'a' ∷ []) ∷ (b'b' ∷ []) ∷ (b'c' ∷ []) ∷ (b'd' ∷ []) ∷ [];
    udp_timeout = [];
    tcp_timeout = [];
    max_retries = pos 1;
  };
  logging = record {
    level = [];
    structured = false;
    structured_format = [];
    include_pid = false;
    extra_fields = none;
  };
  filtering = record {
    enabled = false;
    log_blocked = false;
    log_allowed = false;
    whitelist_domains = [];
    blacklist_domains = [];
    blocklists = [];
    refresh_interval = [];
  };
  api = record { enabled = true; host = []; port = pos 8080; api_key = [] };
}

bare_accepted : (validate bare).0 ≡ none
unfolding validate hydra_dns.Config.is_bad_port hydra_dns.Config.normalize_config
bare_accepted = refl

bare_workers : (validate bare).1.server.workers ≡ workers_fixed (pos 4)
unfolding validate hydra_dns.Config.is_bad_port hydra_dns.Config.normalize_config parse_workers
    hydra_dns.Dns.Name.is_empty hydra_dns.Base.Text.trim_space hydra_dns.Dns.Name.to_lower
    hydra_dns.Base.bytes_eq hydra_dns.Config.atoi hydra_dns.Config.atoi_unsigned
    hydra_dns.Config.digits_from hydra_dns.Config.is_above_zero
bare_workers = refl

bare_servers : (validate bare).1.upstream.servers ≡ (b'a' ∷ []) ∷ (b'b' ∷ []) ∷ (b'c' ∷ []) ∷ []
unfolding validate hydra_dns.Config.is_bad_port hydra_dns.Config.normalize_config
    hydra_dns.Config.normalize_servers
bare_servers = refl

-- `-4`
negative_workers : parse_workers (b'-' ∷ b'4' ∷ []) ≡ workers_auto
unfolding parse_workers hydra_dns.Dns.Name.is_empty hydra_dns.Base.Text.trim_space
    hydra_dns.Dns.Name.to_lower hydra_dns.Base.bytes_eq hydra_dns.Config.atoi
    hydra_dns.Config.atoi_negative hydra_dns.Config.digits_from hydra_dns.Config.is_above_zero
negative_workers = refl

validate-IsValidated_example :
    IsValidated (validate bare).1 × (validate (validate bare).1 ≡ (none, (validate bare).1))
validate-IsValidated_example = validate-IsValidated bare bare_accepted

-- One query over UDP, answered with NXDOMAIN in two milliseconds.
abbrev one_query : List StatEvent
one_query = query udp_name ∷ nxdomain ∷ latency (pos 2000000) ∷ []

one_query_counted : (snapshot (record_events one_query new_dns_stats)).queries_udp ≡ 1
unfolding snapshot record_events hydra_dns.Server.Stats.Counted.record_event
    hydra_dns.Server.Stats.record_latency hydra_dns.Server.Stats.record_nxdomain
    hydra_dns.Server.Stats.record_query hydra_dns.Base.bytes_eq
one_query_counted = refl

snapshot-record_events_example :
    snapshot (record_events one_query new_dns_stats) ≡ counted one_query
snapshot-record_events_example = snapshot-record_events one_query
