-- ===== src/Resolvers/Cache/Values.antt =====
-- A property of what is stored under each key, kept by every call.
use mathlib.Core.Path.{subst}
use hydra_dns.Base.{
  ℕ, ◌≡◌, sym, arith, [], ◌∷◌, List, Bool, ltb, leb, length, none, some, Option, All, Bool-cases,
  Option-cases, inl, inr,
}
use hydra_dns.Base.Int.{ℤ, pos, ltb_ℤ}
use hydra_dns.Resolvers.Cache.{
  CacheEntry, CacheEntryType, TtlCache, map_get, map_delete, map_set, evict_loop, evict_oldest,
  cap_ttl, get_with_age, set,
}
use hydra_dns.Resolvers.Cache.Bounded.{IsEquality}

-- Every value in the map has the property with its key.
abbrev pub HoldsOf : {K V : Type 0} → (K → V → Type 0) → List (K × CacheEntry V) → Type 0
HoldsOf P entries = All (λ e. P e.0 e.1.value) entries

module _ {K V : Type 0} (same : K → K → Bool) (P : K → V → Type 0) where
  HoldsOf-map_delete :
      (k : K) (entries : List (K × CacheEntry V))
      → HoldsOf P entries
      → HoldsOf P (map_delete same k entries)
  unfolding map_delete
  HoldsOf-map_delete k [] h = tt
  HoldsOf-map_delete k ((x, e) ∷ rest) h = elim (Bool-cases (same x k)) [
    | inl s ↦ rw s h.1
    | inr s ↦ rw s (h.0, HoldsOf-map_delete k rest h.1)
  ]

  HoldsOf-evict_loop :
      (max_entries : ℕ) (lru : List K) (entries : List (K × CacheEntry V))
      → HoldsOf P entries
      → HoldsOf P (evict_loop {V = V} same max_entries lru entries).1
  unfolding evict_loop
  HoldsOf-evict_loop m [] entries h = h
  HoldsOf-evict_loop m (k ∷ lru) entries h = elim (Bool-cases (ltb m (length entries))) [
    | inl s ↦
        rw s (HoldsOf-evict_loop m lru (map_delete same k entries) (HoldsOf-map_delete k entries h))
    | inr s ↦ rw s h
  ]

module _ {K V : Type 0} (same : K → K → Bool) (eq : IsEquality same) (P : K → V → Type 0) where
  HoldsOf-map_set :
      (k : K) (e : CacheEntry V) (entries : List (K × CacheEntry V))
      → P k e.value
      → HoldsOf P entries
      → HoldsOf P (map_set same k e entries)
  unfolding map_set
  HoldsOf-map_set k e [] p h = (p, tt)
  HoldsOf-map_set k e ((x, e') ∷ rest) p h = elim (Bool-cases (same x k)) [
    | inl s ↦ rw s (subst (λ j. P j e.value) (sym ((eq x k).0 s)) p, h.1)
    | inr s ↦ rw s (h.0, HoldsOf-map_set k e rest p h.1)
  ]

  pub set-HoldsOf :
      (now now' : ℕ) (k : K) (val : V) (ttl : ℤ) (t : CacheEntryType) (c : TtlCache K V)
      → P k val
      → HoldsOf P c.data_map
      → HoldsOf P (set same now now' k val ttl t c).data_map
  unfolding set evict_oldest
  set-HoldsOf now now' k val ttl t c p h = elim (Bool-cases (ltb_ℤ (pos 0) ttl)) [
    | inr skip ↦ rw (set, skip) h
    | inl go ↦ elim (Bool-cases (ltb_ℤ (pos 0) (cap_ttl c ttl t))) [
      | inr skip ↦ rw (set, go, skip) h
      | inl go' ↦ elim (Option-cases (map_get same k c.data_map)) [
        | inl e ↦
            rw (set, go, go', e)
              (HoldsOf-evict_loop same P c.max_entries _ _ (HoldsOf-map_set k _ c.data_map p h))
        | inr (x, e) ↦ rw (set, go, go', e) (HoldsOf-map_set k _ c.data_map p h)
      ]
    ]
  ]

  map_get-HoldsOf :
      (k : K) (e : CacheEntry V) (entries : List (K × CacheEntry V))
      → HoldsOf P entries
      → map_get same k entries ≡ some e
      → P k e.value
  unfolding map_get
  map_get-HoldsOf k e [] h found = absurd (ground (arith, found))
  map_get-HoldsOf k e ((x, e') ∷ rest) h found = elim (Bool-cases (same x k)) [
    | inl s ↦
        let here : e' ≡ e = ground (arith, s, found) in
        subst (λ j. P j e.value) ((eq x k).0 s) (subst (λ u. P x u.value) here h.0)
    | inr s ↦
        let later : map_get same k rest ≡ some e = ground (arith, s, found) in
        map_get-HoldsOf k e rest h.1 later
  ]

  -- A hit has the property, and what is left too.
  abbrev pub HitHolds : K → Option (V × ℕ × CacheEntryType) × TtlCache K V → Type 0
  HitHolds k (none, c) = HoldsOf P c.data_map
  HitHolds k (some (v, age, t), c) = P k v × HoldsOf P c.data_map

  pub get_with_age-HitHolds :
      (now : ℕ) (k : K) (c : TtlCache K V)
      → HoldsOf P c.data_map
      → HitHolds k (get_with_age same now k c)
  unfolding get_with_age
  get_with_age-HitHolds now k c h = elim (Option-cases (map_get same k c.data_map)) [
    | inl e ↦ rw (get_with_age, e) h
    | inr (x, e) ↦ elim (Bool-cases (leb x.expires_at now)) [
      | inl old ↦ rw (get_with_age, e, old) (HoldsOf-map_delete same P k c.data_map h)
      | inr fresh ↦ rw (get_with_age, e, fresh) (map_get-HoldsOf k x c.data_map h e, h)
    ]
  ]

  pub HitHolds-miss :
      (k : K) (p : Option (V × ℕ × CacheEntryType) × TtlCache K V)
      → HitHolds k p
      → p.0 ≡ none
      → HoldsOf P p.1.data_map
  HitHolds-miss k (none, c) h e = h
  HitHolds-miss k (some (v, age, t), c) h e = h.1

  pub HitHolds-hit :
      (k : K) (v : V) (age : ℕ) (t : CacheEntryType)
      (p : Option (V × ℕ × CacheEntryType) × TtlCache K V)
      → HitHolds k p
      → p.0 ≡ some (v, age, t)
      → P k v × HoldsOf P p.1.data_map
  HitHolds-hit k v age t (none, c) h e = absurd (ground (arith, e))
  HitHolds-hit k v age t (some (v', age', t'), c) h e =
      let same : v' ≡ v = ground (arith, e) in (subst (λ u. P k u) same h.0, h.1)
