-- ===== src/Resolvers/Reloadable.antt =====
-- internal/resolvers/reloadable_custom_dns.go: the custom resolver that is set now; `none` is nil.
-- Each call holds the lock where it reads or replaces the pointer, so it is an atomic step; Close
-- of a custom resolver does nothing.
use hydra_dns.Base.{Option, none, some, Bool, true, false, if◌then◌else◌, Bytes}
use hydra_dns.Dns.Packet.{Packet}
use hydra_dns.Resolvers.Answer.{Answer, failed, no_custom_dns}
use hydra_dns.Resolvers.Custom.{CustomDnsResolver, custom_resolve, is_empty_config, contains_domain}

pub record ReloadableCustomDnsResolver : Type 0 where
  pub resolver : Option CustomDnsResolver

unfoldable pub new_reloadable : Option CustomDnsResolver → ReloadableCustomDnsResolver
new_reloadable resolver = record { resolver = resolver }

unfoldable pub reload :
    Option CustomDnsResolver → ReloadableCustomDnsResolver → ReloadableCustomDnsResolver
reload new_resolver r = record r { resolver = new_resolver }

unfoldable pub reloadable_resolve : ReloadableCustomDnsResolver → Packet → Answer
reloadable_resolve r req = elim r.resolver [
  | none ↦ failed no_custom_dns
  | some c ↦ if is_empty_config c then failed no_custom_dns else custom_resolve c req
]

unfoldable pub reloadable_is_empty : ReloadableCustomDnsResolver → Bool
reloadable_is_empty r = elim r.resolver [ none ↦ true | some c ↦ is_empty_config c ]

unfoldable pub reloadable_contains_domain : ReloadableCustomDnsResolver → Bytes → Bool
reloadable_contains_domain r name = elim r.resolver [
  | none ↦ false
  | some c ↦ contains_domain c name
]
