-- ===== src/Server/Runner.antt =====
-- internal/server/runner.go: the sizes, the custom resolver that is loaded, the policy, and the
-- chain of resolvers. netip.ParseAddr and time.ParseDuration are parameters; logs are left out.
pub mod Serving
pub mod Chain
use hydra_dns.Config.{CustomDnsConfig, BlocklistConfig, FilteringConfig}
use hydra_dns.Base.{
  ℕ, ◌*◌, min, max, [], ◌∷◌, List, Option, none, some, Bool, true, false, ◌&&◌, if◌then◌else◌,
  Bytes, bytes_eq, map,
}
use hydra_dns.Base.Int.{ℤ, pos, pos_part, ltb_ℤ}
use hydra_dns.Dns.Name.{is_empty}
use hydra_dns.Filtering.Policy.{
  PolicyEngine, PolicyEngineConfig, BlocklistUrl, new_policy_engine, block,
}
use hydra_dns.Resolvers.Answer.{Answer, Resolver}
use hydra_dns.Resolvers.Custom.{Addr, new_custom_dns_resolver}
use hydra_dns.Resolvers.Reloadable.{ReloadableCustomDnsResolver, reload, reloadable_resolve}
use hydra_dns.Resolvers.Forwarding.{Network, ForwardingResolver}
use hydra_dns.Resolvers.Forwarding.Query.{Inflight, forwarding_resolve}
use hydra_dns.Resolvers.Chained.{chained_resolve}
use hydra_dns.Resolvers.Filtered.{filtering_resolve}

-- `procs` is the number of processors, at least 1.
unfoldable pub calculate_max_concurrency : ℤ → ℕ → ℕ
calculate_max_concurrency max_concurrency procs =
    if ltb_ℤ (pos 0) max_concurrency
    then pos_part max_concurrency
    else max (min (max procs 1 * 256) 2048) 1

unfoldable pub calculate_upstream_pool_size : ℤ → ℕ → ℕ
calculate_upstream_pool_size pool_size max_conc =
    if ltb_ℤ (pos 0) pool_size then pos_part pool_size else min (max max_conc 64) 1024

unfoldable pub has_no_custom : CustomDnsConfig → Bool
has_no_custom cfg =
    (elim cfg.hosts [ [] ↦ true | h ∷ hs ↦ false ])
    && (elim cfg.cnames [ [] ↦ true | c ∷ cs ↦ false ])

module _ (parse_addr : Bytes → Option Addr) where
  -- With `true` for the nil error.
  unfoldable pub reload_custom_dns :
      CustomDnsConfig → ReloadableCustomDnsResolver → Bool × ReloadableCustomDnsResolver
  reload_custom_dns cfg r =
      if has_no_custom cfg
      then (true, reload none r)
      else elim (new_custom_dns_resolver parse_addr cfg.hosts cfg.cnames) [
        | none ↦ (false, r)
        | some c ↦ (true, reload (some c) r)
      ]

  unfoldable pub init_custom_dns :
      CustomDnsConfig → ReloadableCustomDnsResolver → ReloadableCustomDnsResolver
  init_custom_dns cfg r =
      if has_no_custom cfg
      then reload none r
      else elim (new_custom_dns_resolver parse_addr cfg.hosts cfg.cnames) [
        | none ↦ r
        | some c ↦ reload (some c) r
      ]

-- `adblock`, `hosts` and `domains`.
abbrev pub adblock_name : Bytes
adblock_name = b'a' ∷ b'd' ∷ b'b' ∷ b'l' ∷ b'o' ∷ b'c' ∷ b'k' ∷ []

abbrev pub hosts_name : Bytes
hosts_name = b'h' ∷ b'o' ∷ b's' ∷ b't' ∷ b's' ∷ []

abbrev pub domains_name : Bytes
domains_name = b'd' ∷ b'o' ∷ b'm' ∷ b'a' ∷ b'i' ∷ b'n' ∷ b's' ∷ []

-- The number of a format: FormatAuto is 0.
unfoldable pub format_number : Bytes → ℕ
format_number name =
    if bytes_eq name adblock_name
    then 3
    else (if bytes_eq name hosts_name then 2 else (if bytes_eq name domains_name then 1 else 0))

unfoldable pub blocklist_url : BlocklistConfig → BlocklistUrl
unfolding format_number
blocklist_url bl = record { name = bl.name; url = bl.url; format = format_number bl.format }

-- One day in nanoseconds.
abbrev pub daily : ℤ
daily = pos 86400000000000

-- `parse_duration` is time.ParseDuration, `none` for an error.
unfoldable pub refresh_interval_of : (Bytes → Option ℤ) → Bytes → ℤ
unfolding is_empty
refresh_interval_of parse_duration text =
    if is_empty text then daily else (elim (parse_duration text) [ none ↦ daily | some d ↦ d ])

-- What the policy takes of the configuration.
abbrev pub policy_config : (Bytes → Option ℤ) → FilteringConfig → PolicyEngineConfig
policy_config parse_duration cfg = record {
  enabled = cfg.enabled;
  block_action = block;
  whitelist_domains = cfg.whitelist_domains;
  blacklist_domains = cfg.blacklist_domains;
  blocklist_urls = map blocklist_url cfg.blocklists;
  refresh_interval = refresh_interval_of parse_duration cfg.refresh_interval;
}

unfoldable pub build_policy_engine :
    (Bytes → Option ℤ) → Option FilteringConfig → Option PolicyEngine
build_policy_engine parse_duration none = none
build_policy_engine parse_duration (some cfg) =
    some (new_policy_engine (policy_config parse_duration cfg))

-- The states of the resolvers of the chain, and the world.
pub record ChainState (W : Type 0) : Type 0 where
  pub custom : ReloadableCustomDnsResolver
  pub forwarding : ForwardingResolver
  pub world : W

module _ {W : Type 0} (net : Network W) (inflight : Inflight) where
  unfoldable pub custom_link : Resolver (ChainState W)
  custom_link req req_bytes s = (reloadable_resolve s.custom req, s)

  unfoldable pub forwarding_link : Resolver (ChainState W)
  forwarding_link req req_bytes s =
      let (answer, f, w) = forwarding_resolve net inflight req req_bytes s.forwarding s.world in
      (answer, record s { forwarding = f; world = w })

  unfoldable pub resolver_list : Resolver (ChainState W)
  unfolding custom_link forwarding_link
  resolver_list = chained_resolve (λ s. net.cancelled s.world) (custom_link ∷ forwarding_link ∷ [])

  unfoldable pub build_resolver_chain : Resolver (Option PolicyEngine × ChainState W)
  unfolding resolver_list
  build_resolver_chain req req_bytes (none, s) =
      let (answer, s') = resolver_list req req_bytes s in (answer, (none, s'))
  build_resolver_chain req req_bytes (some policy, s) =
      let (answer, (policy', s')) = filtering_resolve resolver_list req req_bytes (policy, s) in
      (answer, (some policy', s'))
