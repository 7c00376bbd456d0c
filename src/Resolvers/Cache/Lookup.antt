-- ===== src/Resolvers/Cache/Lookup.antt =====
-- What Get finds after Set.
use hydra_dns.Base.{
  ℕ, ◌+◌, ◌≤◌, ◌≡◌, inl, inr, refl, ◌∙◌, arith, [], ◌∷◌, ◌++◌, List, Bool, true, false, ltb, leb,
  if◌then◌else◌, length, none, some, Bool-cases,
}
use hydra_dns.Base.Int.{ℤ, pos, pos_part, ltb_ℤ}
use hydra_dns.Resolvers.Cache.{
  CacheEntry, CacheEntryType, TtlCache, map_get, map_delete, map_set, evict_loop, evict_oldest,
  cap_ttl, get, set,
}
use hydra_dns.Resolvers.Cache.Bounded.{
  IsEquality, WellFormed, Agree, count, keys, length-keys, count-map_get, Agree-insert, Agree-evict,
}

module _ {K V : Type 0} (same : K → K → Bool) (eq : IsEquality same) where
  map_get-map_set :
      (key : K) (e : CacheEntry V) (entries : List (K × CacheEntry V))
      → map_get same key (map_set same key e entries) ≡ some e
  unfolding map_get map_set
  map_get-map_set key e [] = rw ((eq key key).1 refl) refl
  map_get-map_set key e ((x, e') ∷ rest) = elim (Bool-cases (same x key)) [
    | inl h ↦ rw (h, h) refl
    | inr h ↦ rw (h, h) (map_get-map_set key e rest)
  ]

  map_get-map_delete :
      (key k : K) (entries : List (K × CacheEntry V))
      → same k key ≡ false
      → map_get same key (map_delete same k entries) ≡ map_get same key entries
  unfolding map_get map_delete
  map_get-map_delete key k [] h = refl
  map_get-map_delete key k ((x, e) ∷ rest) h = elim (Bool-cases (same x k)) [
    | inl here ↦ rw (here, (eq x k).0 here, h) refl
    | inr other ↦ rw other (elim (Bool-cases (same x key)) [
      | inl s ↦ rw s refl
      | inr s ↦ rw s (map_get-map_delete key k rest h)
    ])
  ]

  -- The eviction that follows the insertion of a key never reaches that key.
  evict_loop-keeps :
      (max_entries : ℕ) (key : K) (lru : List K) (entries : List (K × CacheEntry V))
      → 1 ≤ max_entries
      → count same key lru ≡ 0
      → Agree same (lru ++ (key ∷ [])) (keys entries)
      → map_get same key (evict_loop same max_entries (lru ++ (key ∷ [])) entries).1
        ≡ map_get same key entries
  unfolding evict_loop count
  evict_loop-keeps max_entries key [] entries room absent (len, each) =
      let fits : ltb max_entries (length entries) ≡ false =
        ground (arith, len, room, length-keys same eq entries) in
      rw fits refl
  evict_loop-keeps max_entries key (k ∷ lru) entries room absent agree =
      elim (Bool-cases (ltb max_entries (length entries))) [
        | inr fits ↦ rw fits refl
        | inl over ↦ elim (Bool-cases (same k key)) [
          | inl s ↦ absurd (ground (arith, s, absent))
          | inr s ↦
              let later : count same key lru ≡ 0 = ground (arith, s, absent) in
              rw over (
                evict_loop-keeps max_entries key lru (map_delete same k entries) room later
                  (Agree-evict same eq k (lru ++ (key ∷ [])) entries agree)
                ∙ map_get-map_delete key k entries s)
        ]
      ]

  -- What Set leaves under the key.
  map_get-set :
      (now now' : ℕ) (key : K) (val : V) (ttl : ℤ) (t : CacheEntryType) (c : TtlCache K V)
      → WellFormed same c
      → 1 ≤ c.max_entries
      → ltb_ℤ (pos 0) ttl ≡ true
      → ltb_ℤ (pos 0) (cap_ttl c ttl t) ≡ true
      → map_get same key (set same now now' key val ttl t c).data_map
        ≡ some (record {
          value = val;
          cached_at = now';
          expires_at = now + pos_part (cap_ttl c ttl t);
          entry_type = t;
        })
  unfolding set WellFormed evict_oldest
  map_get-set now now' key val ttl t c (agree, room) one go go' =
      elim (count-map_get same eq key c.data_map) [
        | inr (e, there, n) ↦ rw (set, go, go', there) (map_get-map_set key _ c.data_map)
        | inl (none_there, n) ↦
            rw (set, go, go', none_there)
              (evict_loop-keeps c.max_entries key c.lru _ one (omega (arith, n, (agree.1 key).0))
                  (Agree-insert same eq key _ c none_there n agree)
                ∙ map_get-map_set key _ c.data_map)
      ]

  -- For keys compared by equality and a well-formed cache of positive capacity: after Set with a
  -- positive TTL whose cap is positive too, Get at a time before the capped TTL
  -- has passed finds the value and its type, and Get at a later time finds nothing, also where Set
  -- had to evict another entry.
  pub get-set :
      (now now' later : ℕ) (key : K) (val : V) (ttl : ℤ) (t : CacheEntryType) (c : TtlCache K V)
      → WellFormed same c
      → 1 ≤ c.max_entries
      → ltb_ℤ (pos 0) ttl ≡ true
      → ltb_ℤ (pos 0) (cap_ttl c ttl t) ≡ true
      → (get same later key (set same now now' key val ttl t c)).0
        ≡ (if ltb later (now + pos_part (cap_ttl c ttl t)) then some (val, t) else none)
  unfolding get
  get-set now now' later key val ttl t c well one go go' =
      let found = map_get-set now now' key val ttl t c well one go go' in
      elim (Bool-cases (leb (now + pos_part (cap_ttl c ttl t)) later)) [
        | inl old ↦
            let gone : ltb later (now + pos_part (cap_ttl c ttl t)) ≡ false = ground (arith, old) in
            rw (get, found, old, gone) refl
        | inr fresh ↦
            let there : ltb later (now + pos_part (cap_ttl c ttl t)) ≡ true =
              ground (arith, fresh) in
            rw (get, found, fresh, there) refl
      ]
