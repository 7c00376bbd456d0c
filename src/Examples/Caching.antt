-- ===== src/Examples/Caching.antt =====
-- The cache on concrete calls.
use hydra_dns.Base.{
  leb, ◌-◌, ℕ, ◌+◌, ◌≤◌, ◌<◌, max, ◌≡◌, refl, [], ◌∷◌, none, some, arith, ltb, ◌==◌, ==_iff,
  if◌then◌else◌, length, drop, ok, uint16_at,
}
use hydra_dns.Base.Int.{pos, pos_part}
use hydra_dns.Resolvers.Cache.{TtlCache, new_ttl_cache, cap_ttl, get, set, positive, servfail}
use hydra_dns.Resolvers.Cache.Bounded.{IsEquality, Agree, keys}
use hydra_dns.Resolvers.Cache.Reachable.{
  CacheReachable, CacheReachable-bounded, CacheReachable-WellFormed, new_cache, after, stored,
}
use hydra_dns.Resolvers.Cache.Lookup.{get-set}
use hydra_dns.Resolvers.Upstreams.{Failures, failed_at, select_upstream}
use hydra_dns.Resolvers.Upstreams.Selected.{Chooses, select_upstream-Chooses}

numbers : IsEquality (λ (a b : ℕ). a == b)
numbers a b = ((==_iff a b).0, (==_iff a b).1)

-- A cache for one entry, with one entry.
abbrev one_entry : TtlCache ℕ ℕ
one_entry = new_ttl_cache (pos 1)

abbrev full : TtlCache ℕ ℕ
full = set (λ (a b : ℕ). a == b) 5 5 7 70 (pos 1000) positive one_entry

full-reached : CacheReachable (λ (a b : ℕ). a == b) (pos 1) full
full-reached = after one_entry full new_cache (stored 5 5 7 70 (pos 1000) positive)

CacheReachable-bounded_example :
    (length full.data_map ≤ max 1 (pos_part (pos 1)))
    × Agree (λ (a b : ℕ). a == b) full.lru (keys full.data_map)
CacheReachable-bounded_example =
    CacheReachable-bounded (λ (a b : ℕ). a == b) numbers (pos 1) full full-reached

-- The entry that is there is evicted for the new one.
get-set_example :
    (get
      (λ (a b : ℕ). a == b)
      40
      8
      (set (λ (a b : ℕ). a == b) 20 20 8 80 (pos 1000) servfail full)).0
    ≡ (if ltb 40 (20 + pos_part (cap_ttl full (pos 1000) servfail))
        then some (80, servfail)
        else none)
unfolding set cap_ttl new_ttl_cache hydra_dns.Resolvers.Cache.map_get
    hydra_dns.Resolvers.Cache.evict_oldest
get-set_example =
    get-set (λ (a b : ℕ). a == b) numbers 20 20 40 8 80 (pos 1000) servfail full
      (CacheReachable-WellFormed (λ (a b : ℕ). a == b) numbers (pos 1) full full-reached)
      (omega arith) refl refl

-- Two upstreams, the first of which has failed.
abbrev failures : Failures
failures = (49 ∷ [], 100) ∷ []

select_upstream-Chooses_example :
    Chooses
      (λ i. 200 + i)
      (49 ∷ [])
      ((50 ∷ []) ∷ [])
      failures
      (select_upstream (λ i. 200 + i) (49 ∷ []) ((50 ∷ []) ∷ []) failures)
select_upstream-Chooses_example =
    select_upstream-Chooses (λ i. 200 + i) (49 ∷ []) ((50 ∷ []) ∷ []) failures

second_healthy : failed_at (50 ∷ []) failures ≡ none
unfolding failed_at hydra_dns.Base.bytes_eq
second_healthy = refl
