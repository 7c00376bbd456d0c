-- ===== src/Resolvers/Cache/Reachable.antt =====
-- What any sequence of calls does to the cache.
use hydra_dns.Base.{
  ℕ, ◌≤◌, max, ◌≡◌, inl, inr, refl, ◌∙◌, arith, Bool, leb, length, Bool-cases, Option-cases,
}
use hydra_dns.Base.Int.{ℤ, pos, pos_part, ltb_ℤ}
use hydra_dns.Resolvers.Cache.{
  CacheEntryType, TtlCache, map_get, evict_oldest, cap_ttl, new_ttl_cache, get, get_with_age, set,
}
use hydra_dns.Resolvers.Cache.Bounded.{
  IsEquality, WellFormed, Agree, count, keys, get-WellFormed, get_with_age-WellFormed,
  set-WellFormed,
}

-- The operations a client calls, at any times.
pub data CacheStep {K V : Type 0} (same : K → K → Bool) (c : TtlCache K V)
    : TtlCache K V → Type 0 where
  got : (now : ℕ) (key : K) → CacheStep same c (get same now key c).1
  got_with_age : (now : ℕ) (key : K) → CacheStep same c (get_with_age same now key c).1
  stored :
      (now now' : ℕ) (key : K) (val : V) (ttl : ℤ) (entry_type : CacheEntryType)
      → CacheStep same c (set same now now' key val ttl entry_type c)

-- What any number of calls leads to from a new cache.
pub data CacheReachable {K V : Type 0} (same : K → K → Bool) (max_entries : ℤ)
    : TtlCache K V → Type 0 where
  new_cache : CacheReachable same max_entries (new_ttl_cache max_entries)
  after :
      (c c' : TtlCache K V)
      → CacheReachable same max_entries c
      → CacheStep same c c'
      → CacheReachable same max_entries c'

-- No call changes the capacity.
CacheStep-max_entries :
    {K V : Type 0} (same : K → K → Bool) (c c' : TtlCache K V)
    → CacheStep same c c'
    → c'.max_entries ≡ c.max_entries
unfolding get get_with_age set evict_oldest
CacheStep-max_entries same c _ (got now key) = elim (Option-cases (map_get same key c.data_map)) [
  | inl e ↦ rw (get, e) refl
  | inr (x, e) ↦ elim (Bool-cases (leb x.expires_at now)) [
    | inl h ↦ rw (get, e, h) refl
    | inr h ↦ rw (get, e, h) refl
  ]
]
CacheStep-max_entries same c _ (got_with_age now key) =
    elim (Option-cases (map_get same key c.data_map)) [
      | inl e ↦ rw (get_with_age, e) refl
      | inr (x, e) ↦ elim (Bool-cases (leb x.expires_at now)) [
        | inl h ↦ rw (get_with_age, e, h) refl
        | inr h ↦ rw (get_with_age, e, h) refl
      ]
    ]
CacheStep-max_entries same c _ (stored now now' key val ttl entry_type) =
    elim (Bool-cases (ltb_ℤ (pos 0) ttl)) [
      | inr skip ↦ rw (set, skip) refl
      | inl go ↦ elim (Bool-cases (ltb_ℤ (pos 0) (cap_ttl c ttl entry_type))) [
        | inr skip ↦ rw (set, go, skip) refl
        | inl go' ↦ elim (Option-cases (map_get same key c.data_map)) [
          | inl e ↦ rw (set, go, go', e) refl
          | inr (x, e) ↦ rw (set, go, go', e) refl
        ]
      ]
    ]

CacheReachable-max_entries :
    {K V : Type 0} (same : K → K → Bool) (max_entries : ℤ) (c : TtlCache K V)
    → CacheReachable same max_entries c
    → c.max_entries ≡ max 1 (pos_part max_entries)
unfolding new_ttl_cache
CacheReachable-max_entries same max_entries _ new_cache = ground arith
CacheReachable-max_entries same max_entries c' (after c _ reached step) =
    CacheStep-max_entries same c c' step ∙ CacheReachable-max_entries same max_entries c reached

pub CacheReachable-WellFormed :
    {K V : Type 0} (same : K → K → Bool) (eq : IsEquality same) (max_entries : ℤ) (c : TtlCache K V)
    → CacheReachable same max_entries c
    → WellFormed same c
unfolding WellFormed new_ttl_cache count
CacheReachable-WellFormed same eq max_entries _ new_cache =
    ((refl, λ k. (refl, omega arith)), omega arith)
CacheReachable-WellFormed same eq max_entries _ (after c _ reached (got now key)) =
    get-WellFormed same eq now key c (CacheReachable-WellFormed same eq max_entries c reached)
CacheReachable-WellFormed same eq max_entries _ (after c _ reached (got_with_age now key)) =
    get_with_age-WellFormed same eq now key c
      (CacheReachable-WellFormed same eq max_entries c reached)
CacheReachable-WellFormed same eq max_entries _
      (after c _ reached (stored now now' key val ttl t)) =
    set-WellFormed same eq now now' key val ttl t c
      (CacheReachable-WellFormed same eq max_entries c reached)

-- For keys compared by equality: whatever is called on a new cache, in any order and at any times,
-- it holds no more entries than the capacity it was made with (1 if that is not positive), and its
-- list and map hold the same keys, each once.
pub CacheReachable-bounded :
    {K V : Type 0} (same : K → K → Bool) (eq : IsEquality same) (max_entries : ℤ) (c : TtlCache K V)
    → CacheReachable same max_entries c
    → (length c.data_map ≤ max 1 (pos_part max_entries)) × Agree same c.lru (keys c.data_map)
unfolding WellFormed
CacheReachable-bounded same eq max_entries c reached =
    let (agree, room) = CacheReachable-WellFormed same eq max_entries c reached in
    (omega (arith, room, CacheReachable-max_entries same max_entries c reached), agree)
