-- ===== src/Server/Runner/Chain.antt =====
-- Which resolver of the chain answers.
use hydra_dns.Config.{FilteringConfig}
use hydra_dns.Base.{
  ◌≡◌, refl, ◌∙◌, [], ◌∷◌, List, Bool, false, Option, some, if◌then◌else◌, Bytes, inl, inr,
}
use hydra_dns.Dns.Question.{Question}
use hydra_dns.Dns.Packet.{Packet}
use hydra_dns.Filtering.Policy.{PolicyEngine, evaluate}
use hydra_dns.Resolvers.Answer.{answered, failed, no_resolver, Resolver}
use hydra_dns.Resolvers.Chained.{chained_resolve}
use hydra_dns.Resolvers.Chained.First.{
  Answer-cases, chained_loop-answered, chained_loop-failed, chained_loop-single,
}
use hydra_dns.Resolvers.Filtered.{blocked_answer}
use hydra_dns.Resolvers.Filtered.Blocked.{filtering_resolve-evaluate}
use hydra_dns.Resolvers.Reloadable.{reloadable_resolve}
use hydra_dns.Resolvers.Forwarding.{Network}
use hydra_dns.Resolvers.Forwarding.Query.{Inflight, forwarding_resolve}
use hydra_dns.Server.Runner.{
  ChainState, custom_link, forwarding_link, resolver_list, build_resolver_chain,
}
use hydra_dns.Server.Runner.Serving.{PolicyServes, blocked_by, evaluate-PolicyServes}
use hydra_dns.Base.Int.{ℤ}

module _ {W : Type 0} (net : Network W) (inflight : Inflight) where
  -- What the custom resolver answers, and if it fails what the forwarding resolver does.
  unfoldable pub custom_else_forwarded : Resolver (ChainState W)
  custom_else_forwarded req req_bytes s = elim (reloadable_resolve s.custom req) [
    | answered out o ↦ (answered out o, s)
    | failed why ↦
        let (answer, f, w) = forwarding_resolve net inflight req req_bytes s.forwarding s.world in
        (answer, record s { forwarding = f; world = w })
  ]

  resolver_list_lem :
      (req : Packet) (req_bytes : Bytes) (s : ChainState W)
      → net.cancelled s.world ≡ false
      → resolver_list net inflight req req_bytes s ≡ custom_else_forwarded req req_bytes s
  unfolding resolver_list custom_else_forwarded chained_resolve custom_link forwarding_link
  resolver_list_lem req req_bytes s go =
      let custom = custom_link net inflight in
      let forward = forwarding_link net inflight in
      let cancelled : ChainState W → Bool = λ t. net.cancelled t.world in
      elim (Answer-cases (reloadable_resolve s.custom req)) [
        | inl (out, o, e) ↦
            chained_loop-answered cancelled req req_bytes no_resolver out o custom (forward ∷ []) s
              go e
            ∙ rw (custom_else_forwarded, e) refl
        | inr (why, e) ↦
            chained_loop-failed cancelled req req_bytes no_resolver why custom (forward ∷ []) s go e
            ∙ chained_loop-single cancelled req req_bytes why forward s go
            ∙ rw (custom_else_forwarded, e) refl
      ]

  -- While the request is not cancelled and the configuration has a filter, whatever queries, loads
  -- and refreshes of remote lists there were before: a request with a question whose name the
  -- configuration and those lists block gets the blocked answer, and neither of the other resolvers
  -- is asked, so that their states stay; any other name gets what the custom resolver answers, and
  -- only if that fails what the forwarding resolver does. The policy has evaluated the name once.
  pub build_resolver_chain_lem :
      (parse_duration : Bytes → Option ℤ) (cfg : FilteringConfig) (policy : PolicyEngine)
      (req : Packet) (req_bytes : Bytes) (s : ChainState W) (q : Question) (qs : List Question)
      (history : PolicyServes parse_duration cfg policy)
      → net.cancelled s.world ≡ false
      → req.questions ≡ q ∷ qs
      → (let r = build_resolver_chain net inflight req req_bytes (some policy, s) in
          (r.0 ≡ (
            if blocked_by history q.name
            then blocked_answer req
            else (custom_else_forwarded req req_bytes s).0))
          × (r.1.0 ≡ some (evaluate q.name policy).1)
          × (r.1.1 ≡ (
              if blocked_by history q.name then s else (custom_else_forwarded req req_bytes s).1)))
  unfolding build_resolver_chain
  build_resolver_chain_lem parse_duration cfg policy req req_bytes s q qs history go e =
      let filtered =
        filtering_resolve-evaluate (resolver_list net inflight) policy req req_bytes s q qs
          (blocked_by history q.name) e (evaluate-PolicyServes history q.name) in
      let listed = resolver_list_lem req req_bytes s go in
      rw (filtered.0, filtered.1, filtered.2, listed) (refl, refl, refl)
