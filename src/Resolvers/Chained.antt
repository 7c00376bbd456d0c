-- ===== src/Resolvers/Chained.antt =====
-- internal/resolvers/chained.go: resolvers in order, until one answers without an error.
pub mod First
use hydra_dns.Base.{ℕ, [], ◌∷◌, List, Bool, true, false, if◌then◌else◌, Bytes}
use hydra_dns.Dns.Packet.{Packet}
use hydra_dns.Resolvers.Answer.{
  Answer, answered, failed, Failure, context_cancelled, no_resolver, Resolver,
}

-- `cancelled` is `ctx.Err() != nil`, read before each resolver; `last` is lastErr.
unfoldable pub chained_loop : {W : Type 0} → (W → Bool) → Failure → List (Resolver W) → Resolver W
chained_loop cancelled last [] req req_bytes w = (failed last, w)
chained_loop cancelled last (r ∷ rs) req req_bytes w =
    let (answer, w') = r req req_bytes w in
    let next = elim answer as (λ _. Failure) [ answered b o ↦ last | failed why ↦ why ] in
    let rest = chained_loop cancelled next rs req req_bytes w' in
    if cancelled w
    then (failed context_cancelled, w)
    else elim answer [ answered b o ↦ (answered b o, w') | failed why ↦ rest ]

unfoldable pub chained_resolve : {W : Type 0} → (W → Bool) → List (Resolver W) → Resolver W
chained_resolve cancelled resolvers = chained_loop cancelled no_resolver resolvers
