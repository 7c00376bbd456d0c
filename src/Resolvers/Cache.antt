-- ===== src/Resolvers/Cache.antt =====
-- internal/resolvers/cache.go: the TTL cache with LRU order. A time is a number of nanoseconds;
-- each reading of the clock is an argument. The map is a list of keys with entries, the
-- `container/list` the list of its values, the oldest first.
pub mod Bounded
pub mod Reachable
pub mod Lookup
pub mod Values
use hydra_dns.Base.{
  ℕ, zero, suc, ◌+◌, ◌-◌, ◌*◌, [], ◌∷◌, ◌++◌, List, Bool, true, false, not, leb, ltb, if◌then◌else◌,
  length, Option, none, some,
}
use hydra_dns.Base.Int.{ℤ, pos, pos_part, ltb_ℤ}

pub data CacheEntryType : Type 0 where
  positive : CacheEntryType
  nxdomain : CacheEntryType
  nodata : CacheEntryType
  servfail : CacheEntryType

unfoldable pub is_negative : CacheEntryType → Bool
is_negative positive = false
is_negative _ = true

pub record CacheEntry (V : Type 0) : Type 0 where
  pub value : V
  pub cached_at : ℕ
  pub expires_at : ℕ
  pub entry_type : CacheEntryType

pub record TtlCache (K V : Type 0) : Type 0 where
  pub default_ttl : ℤ
  pub max_ttl : ℤ
  pub max_entries : ℕ
  pub negative_enabled : Bool
  pub negative_ttl : ℤ
  pub servfail_ttl : ℤ
  pub max_negative_ttl : ℤ
  pub lru : List K
  pub data_map : List (K × CacheEntry V)
  pub hits : ℕ
  pub misses : ℕ
  pub negative_hits : ℕ

-- `time.Second` in nanoseconds.
abbrev pub second : ℕ
second = 1000000000

unfoldable pub new_ttl_cache : {K V : Type 0} → ℤ → TtlCache K V
new_ttl_cache max_entries = record {
  default_ttl = pos (60 * second);
  max_ttl = pos (24 * 3600 * second);
  max_entries = if ltb_ℤ (pos 0) max_entries then pos_part max_entries else 1;
  negative_enabled = true;
  negative_ttl = pos (5 * 60 * second);
  servfail_ttl = pos (30 * second);
  max_negative_ttl = pos (3600 * second);
  lru = [];
  data_map = [];
  hits = 0;
  misses = 0;
  negative_hits = 0;
}

unfoldable pub cap_ttl : {K V : Type 0} → TtlCache K V → ℤ → CacheEntryType → ℤ
cap_ttl c ttl positive = if ltb_ℤ c.max_ttl ttl then c.max_ttl else ttl
cap_ttl c ttl _ =
    if not c.negative_enabled
    then pos 0
    else if ltb_ℤ c.max_negative_ttl ttl
    then c.max_negative_ttl
    else ttl

-- The comparison of keys, `==` of the comparable type K.
module _ {K : Type 0} (same : K → K → Bool) where
  -- `list.Remove` of the element that holds the key.
  unfoldable pub list_remove : K → List K → List K
  list_remove k [] = []
  list_remove k (x ∷ xs) = if same x k then xs else x ∷ list_remove k xs

  -- `list.MoveToBack` of the element that holds the key.
  unfoldable pub move_to_back : K → List K → List K
  unfolding list_remove
  move_to_back k xs = list_remove k xs ++ (k ∷ [])

module _ {K V : Type 0} (same : K → K → Bool) where
  unfoldable pub map_get : K → List (K × CacheEntry V) → Option (CacheEntry V)
  map_get k [] = none
  map_get k ((x, e) ∷ rest) = if same x k then some e else map_get k rest

  unfoldable pub map_delete : K → List (K × CacheEntry V) → List (K × CacheEntry V)
  map_delete k [] = []
  map_delete k ((x, e) ∷ rest) = if same x k then rest else (x, e) ∷ map_delete k rest

  -- An assignment: in place for a key that is there.
  unfoldable pub map_set : K → CacheEntry V → List (K × CacheEntry V) → List (K × CacheEntry V)
  map_set k e [] = (k, e) ∷ []
  map_set k e ((x, e') ∷ rest) = if same x k then (x, e) ∷ rest else (x, e') ∷ map_set k e rest

  -- The loop of evictOldest removes an element of the list each time round, so it ends with it.
  unfoldable pub evict_loop :
      ℕ → List K → List (K × CacheEntry V) → List K × List (K × CacheEntry V)
  unfolding map_delete
  evict_loop max_entries [] entries = ([], entries)
  evict_loop max_entries (k ∷ lru) entries =
      let rest = evict_loop max_entries lru (map_delete k entries) in
      if ltb max_entries (length entries) then rest else (k ∷ lru, entries)

  unfoldable pub evict_oldest : TtlCache K V → TtlCache K V
  evict_oldest c =
      let (lru, entries) = evict_loop c.max_entries c.lru c.data_map in
      record c { lru = lru; data_map = entries }

  -- (value, age, entry type) on a hit.
  unfoldable pub get_with_age :
      ℕ → K → TtlCache K V → Option (V × ℕ × CacheEntryType) × TtlCache K V
  get_with_age now key c = elim (map_get key c.data_map) [
    | none ↦ (none, record c { misses = suc c.misses })
    | some e ↦
        if leb e.expires_at now
        then (
          none,
          record c {
            lru = list_remove same key c.lru;
            data_map = map_delete key c.data_map;
            misses = suc c.misses;
          },
        )
        else (
          some (e.value, now - e.cached_at, e.entry_type),
          record c {
            lru = move_to_back same key c.lru;
            hits = suc c.hits;
            negative_hits =
                if is_negative e.entry_type then suc c.negative_hits else c.negative_hits;
          },
        )
  ]

  unfoldable pub get : ℕ → K → TtlCache K V → Option (V × CacheEntryType) × TtlCache K V
  get now key c = elim (map_get key c.data_map) [
    | none ↦ (none, record c { misses = suc c.misses })
    | some e ↦
        if leb e.expires_at now
        then (
          none,
          record c {
            lru = list_remove same key c.lru;
            data_map = map_delete key c.data_map;
            misses = suc c.misses;
          },
        )
        else (
          some (e.value, e.entry_type),
          record c {
            lru = move_to_back same key c.lru;
            hits = suc c.hits;
            negative_hits =
                if is_negative e.entry_type then suc c.negative_hits else c.negative_hits;
          },
        )
  ]

  -- `now` is read for the expiry, `now'` for the time of caching.
  unfoldable pub set : ℕ → ℕ → K → V → ℤ → CacheEntryType → TtlCache K V → TtlCache K V
  set now now' key val ttl entry_type c =
      let capped = cap_ttl c ttl entry_type in
      let entry : CacheEntry V = record {
        value = val;
        cached_at = now';
        expires_at = now + pos_part capped;
        entry_type = entry_type;
      } in
      if not (ltb_ℤ (pos 0) ttl)
      then c
      else if not (ltb_ℤ (pos 0) capped)
      then c
      else elim (map_get key c.data_map) [
        | some existing ↦ record c {
          data_map = map_set key entry c.data_map;
          lru = move_to_back same key c.lru;
        }
        | none ↦
            evict_oldest
              (record c { lru = c.lru ++ (key ∷ []); data_map = map_set key entry c.data_map })
      ]
