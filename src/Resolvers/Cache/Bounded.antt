-- ===== src/Resolvers/Cache/Bounded.antt =====
-- The list and the map of the cache hold the same keys, each once, within the capacity.
use mathlib.Core.Path.{subst}
use hydra_dns.Base.{
  ℕ, suc, ◌+◌, ◌≤◌, ◌≡◌, ◌⊎◌, inl, inr, refl, ap, sym, arith, [], ◌∷◌, ◌++◌, List, Bool, true, ltb,
  leb, if◌then◌else◌, length, map, length-append, none, some, Bool-cases,
}
use hydra_dns.Base.Int.{ℤ, pos, ltb_ℤ}
use hydra_dns.Resolvers.Cache.{
  CacheEntry, CacheEntryType, TtlCache, list_remove, move_to_back, map_get, map_delete, map_set,
  evict_loop, evict_oldest, cap_ttl, get, get_with_age, set,
}

module _ {K : Type 0} (same : K → K → Bool) where
  -- How often a key stands in a list.
  unfoldable pub count : K → List K → ℕ
  count k [] = 0
  count k (x ∷ xs) = let rest = count k xs in if same x k then suc rest else rest

  pub count-append : (k : K) (xs ys : List K) → count k (xs ++ ys) ≡ count k xs + count k ys
  unfolding count
  count-append k [] ys = omega arith
  count-append k (x ∷ xs) ys = ground (arith, count-append k xs ys)

  length-list_remove :
      (k : K) (xs : List K) → 1 ≤ count k xs → suc (length (list_remove same k xs)) ≡ length xs
  unfolding count list_remove
  length-list_remove k [] h = absurd (omega arith)
  length-list_remove k (x ∷ xs) h = ground (arith, length-list_remove k xs)

-- `==` of the key type is equality.
abbrev pub IsEquality : {K : Type 0} → (K → K → Bool) → Type 0
IsEquality {K} same = (a b : K) → ((same a b ≡ true) → a ≡ b) × (a ≡ b → same a b ≡ true)

abbrev pub keys : {K V : Type 0} → List (K × CacheEntry V) → List K
keys entries = map (λ e. e.0) entries

module _ {K : Type 0} (same : K → K → Bool) (eq : IsEquality same) where
  pub remove_first : (k : K) (xs : List K) → list_remove same k (k ∷ xs) ≡ xs
  unfolding list_remove
  remove_first k xs = rw ((eq k k).1 refl) refl

  pub count_first : (k : K) (xs : List K) → 1 ≤ count same k (k ∷ xs)
  unfolding count
  count_first k xs = rw ((eq k k).1 refl) (omega arith)

  count-list_remove :
      (j k : K) (xs : List K)
      → 1 ≤ count same k xs
      → count same j (list_remove same k xs) + (if same k j then 1 else 0) ≡ count same j xs
  unfolding count list_remove
  count-list_remove j k [] h = absurd (omega arith)
  count-list_remove j k (x ∷ xs) h = elim (Bool-cases (same x k)) [
    | inl e ↦ rw (e, (eq x k).0 e) (ground arith)
    | inr e ↦
        let later : 1 ≤ count same k xs = ground (arith, e, h) in
        rw e (ground (arith, count-list_remove j k xs later))
  ]

module _ {K V : Type 0} (same : K → K → Bool) (eq : IsEquality same) where
  pub keys-map_delete :
      (k : K) (entries : List (K × CacheEntry V))
      → keys (map_delete same k entries) ≡ list_remove same k (keys entries)
  unfolding map_delete list_remove
  keys-map_delete k [] = refl
  keys-map_delete k ((x, e) ∷ rest) = elim (Bool-cases (same x k)) [
    | inl e ↦ rw e refl
    | inr e ↦ rw e (ap (◌∷◌ x) (keys-map_delete k rest))
  ]

  -- A key is in the map if and only if it stands among the keys.
  pub count-map_get :
      (k : K) (entries : List (K × CacheEntry V))
      → ((map_get same k entries ≡ none) × (count same k (keys entries) ≡ 0))
        ⊎ ((e : CacheEntry V) × (map_get same k entries ≡ some e)
            × (1 ≤ count same k (keys entries)))
  unfolding map_get count
  count-map_get k [] = inl (refl, refl)
  count-map_get k ((x, e) ∷ rest) = elim (Bool-cases (same x k)) [
    | inl h ↦ inr (e, rw h refl, rw h (omega arith))
    | inr h ↦ rw h (count-map_get k rest)
  ]

  pub keys-map_set_new :
      (k : K) (e : CacheEntry V) (entries : List (K × CacheEntry V))
      → map_get same k entries ≡ none
      → keys (map_set same k e entries) ≡ keys entries ++ (k ∷ [])
  unfolding map_get map_set
  keys-map_set_new k e [] h = refl
  keys-map_set_new k e ((x, e') ∷ rest) h = elim (Bool-cases (same x k)) [
    | inl s ↦ ground (arith, s, h)
    | inr s ↦
        let later : map_get same k rest ≡ none = ground (arith, s, h) in
        rw s (ap (◌∷◌ x) (keys-map_set_new k e rest later))
  ]

  pub keys-map_set_old :
      (k : K) (e : CacheEntry V) (entries : List (K × CacheEntry V))
      → 1 ≤ count same k (keys entries)
      → keys (map_set same k e entries) ≡ keys entries
  unfolding map_set count
  keys-map_set_old k e [] h = absurd (omega arith)
  keys-map_set_old k e ((x, e') ∷ rest) h = elim (Bool-cases (same x k)) [
    | inl s ↦ rw s refl
    | inr s ↦
        let later : 1 ≤ count same k (keys rest) = ground (arith, s, h) in
        rw s (ap (◌∷◌ x) (keys-map_set_old k e rest later))
  ]

-- The list and the keys of the map agree on every key, and hold it at most once.
abbrev pub Agree : {K : Type 0} → (K → K → Bool) → List K → List K → Type 0
Agree {K} same lru ks =
    (length ks ≡ length lru)
    × ((k : K) → (count same k ks ≡ count same k lru) × (count same k lru ≤ 1))

module _ {K : Type 0} (same : K → K → Bool) (eq : IsEquality same) where
  pub Agree-remove :
      (k : K) (lru ks : List K)
      → 1 ≤ count same k lru
      → Agree same lru ks
      → Agree same (list_remove same k lru) (list_remove same k ks)
  Agree-remove k lru ks h (len, each) =
      let there : 1 ≤ count same k ks = omega (arith, (each k).0) in
      (
        omega (arith, length-list_remove same k lru h, length-list_remove same k ks there),
        λ j. ground (
          arith,
          each j,
          count-list_remove same eq j k lru h,
          count-list_remove same eq j k ks there,
        ),
      )

  Agree-move :
      (k : K) (lru ks : List K)
      → 1 ≤ count same k lru
      → Agree same lru ks
      → Agree same (move_to_back same k lru) ks
  unfolding move_to_back count
  Agree-move k lru ks h (len, each) = (
    omega (arith, length-list_remove same k lru h, length-append (list_remove same k lru) (k ∷ [])),
    λ j. ground (
      arith,
      each j,
      count-list_remove same eq j k lru h,
      count-append same j (list_remove same k lru) (k ∷ []),
    ),
  )

  Agree-push :
      (k : K) (lru ks : List K)
      → count same k ks ≡ 0
      → Agree same lru ks
      → Agree same (lru ++ (k ∷ [])) (ks ++ (k ∷ []))
  unfolding count
  Agree-push k lru ks none_yet (len, each) = (
    omega (arith, length-append lru (k ∷ []), length-append ks (k ∷ [])),
    λ j. elim (Bool-cases (same k j)) [
      | inl e ↦
          let here : count same j lru ≡ 0 = ground (arith, (eq k j).0 e, each j, none_yet) in
          ground (
            arith,
            e,
            here,
            each j,
            count-append same j lru (k ∷ []),
            count-append same j ks (k ∷ []),
          )
      | inr e ↦
          ground
            (arith, e, each j, count-append same j lru (k ∷ []), count-append same j ks (k ∷ []))
    ],
  )

module _ {K V : Type 0} (same : K → K → Bool) (eq : IsEquality same) where
  pub length-keys : (entries : List (K × CacheEntry V)) → length (keys entries) ≡ length entries
  length-keys [] = refl
  length-keys (x ∷ rest) = ap suc (length-keys rest)

  pub Agree-evict :
      (k : K) (lru : List K) (entries : List (K × CacheEntry V))
      → Agree same (k ∷ lru) (keys entries)
      → Agree same lru (keys (map_delete same k entries))
  Agree-evict k lru entries agree =
      let left =
        Agree-remove same eq k (k ∷ lru) (keys entries) (count_first same eq k lru) agree in
      subst (λ xs. Agree same xs (keys (map_delete same k entries))) (remove_first same eq k lru)
        (subst (λ ks. Agree same (list_remove same k (k ∷ lru)) ks)
          (sym (keys-map_delete same eq k entries)) left)

  -- evictOldest leaves no more entries than the capacity.
  pub evict_loop_lem :
      (max_entries : ℕ) (lru : List K) (entries : List (K × CacheEntry V))
      → Agree same lru (keys entries)
      → let r = evict_loop same max_entries lru entries in
        Agree same r.0 (keys r.1) × (length r.1 ≤ max_entries)
  unfolding evict_loop
  evict_loop_lem max_entries [] entries (len, each) =
      ((len, each), omega (arith, len, length-keys entries))
  evict_loop_lem max_entries (k ∷ lru) entries agree =
      elim (Bool-cases (ltb max_entries (length entries))) [
        | inl over ↦ rw over (
            evict_loop_lem max_entries lru (map_delete same k entries)
              (Agree-evict k lru entries agree))
        | inr fits ↦ rw fits (agree, ground (arith, fits))
      ]

-- The list and the map agree, and there are no more entries than the capacity allows.
unfoldable pub WellFormed : {K V : Type 0} → (K → K → Bool) → TtlCache K V → Type 0
WellFormed same c = Agree same c.lru (keys c.data_map) × (length c.data_map ≤ c.max_entries)

module _ {K V : Type 0} (same : K → K → Bool) (eq : IsEquality same) where
  Agree-delete :
      (key : K) (c : TtlCache K V)
      → 1 ≤ count same key (keys c.data_map)
      → WellFormed same c
      → Agree same (list_remove same key c.lru) (keys (map_delete same key c.data_map))
        × (length (map_delete same key c.data_map) ≤ c.max_entries)
  unfolding WellFormed
  Agree-delete key c there ((len, each), room) =
      let in_list : 1 ≤ count same key c.lru = omega (arith, there, (each key).0) in
      let smaller = length-list_remove same key (keys c.data_map) there in
      let agree = Agree-remove same eq key c.lru (keys c.data_map) in_list (len, each) in
      let renamed = keys-map_delete same eq key c.data_map in
      (
        subst (λ ks. Agree same (list_remove same key c.lru) ks) (sym renamed) agree,
        omega (
          arith,
          room,
          smaller,
          ap length renamed,
          length-keys same eq c.data_map,
          length-keys same eq (map_delete same key c.data_map),
        ),
      )

  -- Get keeps the cache well-formed, whether it hits, misses or drops an expired entry.
  pub get-WellFormed :
      (now : ℕ) (key : K) (c : TtlCache K V)
      → WellFormed same c
      → WellFormed same (get same now key c).1
  unfolding get WellFormed
  get-WellFormed now key c (agree, room) = elim (count-map_get same eq key c.data_map) [
    | inl (none_there, _) ↦ rw (get, none_there) (agree, room)
    | inr (e, there, n) ↦ elim (Bool-cases (leb e.expires_at now)) [
      | inl old ↦ rw (get, there, old) (Agree-delete key c n (agree, room))
      | inr fresh ↦
          rw (get, there, fresh)
            (
              Agree-move same eq key c.lru (keys c.data_map) (omega (arith, n, (agree.1 key).0))
                  agree,
              room,
            )
    ]
  ]

  pub get_with_age-WellFormed :
      (now : ℕ) (key : K) (c : TtlCache K V)
      → WellFormed same c
      → WellFormed same (get_with_age same now key c).1
  unfolding get_with_age WellFormed
  get_with_age-WellFormed now key c (agree, room) = elim (count-map_get same eq key c.data_map) [
    | inl (none_there, _) ↦ rw (get_with_age, none_there) (agree, room)
    | inr (e, there, n) ↦ elim (Bool-cases (leb e.expires_at now)) [
      | inl old ↦ rw (get_with_age, there, old) (Agree-delete key c n (agree, room))
      | inr fresh ↦
          rw (get_with_age, there, fresh)
            (
              Agree-move same eq key c.lru (keys c.data_map) (omega (arith, n, (agree.1 key).0))
                  agree,
              room,
            )
    ]
  ]

  -- Storing under a key that is there.
  WellFormed-replace :
      (key : K) (entry : CacheEntry V) (c : TtlCache K V)
      → 1 ≤ count same key (keys c.data_map)
      → WellFormed same c
      → Agree same (move_to_back same key c.lru) (keys (map_set same key entry c.data_map))
        × (length (map_set same key entry c.data_map) ≤ c.max_entries)
  unfolding WellFormed
  WellFormed-replace key entry c there (agree, room) =
      let kept = keys-map_set_old same eq key entry c.data_map there in
      (
        subst (λ ks. Agree same (move_to_back same key c.lru) ks) (sym kept)
            (Agree-move same eq key c.lru (keys c.data_map) (omega (arith, there, (agree.1 key).0))
              agree),
        omega (
          arith,
          room,
          ap length kept,
          length-keys same eq c.data_map,
          length-keys same eq (map_set same key entry c.data_map),
        ),
      )

  -- Storing under a new key: the list and the map agree before the eviction.
  pub Agree-insert :
      (key : K) (entry : CacheEntry V) (c : TtlCache K V)
      → map_get same key c.data_map ≡ none
      → count same key (keys c.data_map) ≡ 0
      → Agree same c.lru (keys c.data_map)
      → Agree same (c.lru ++ (key ∷ [])) (keys (map_set same key entry c.data_map))
  Agree-insert key entry c none_there n agree =
      subst (λ ks. Agree same (c.lru ++ (key ∷ [])) ks)
        (sym (keys-map_set_new same eq key entry c.data_map none_there))
        (Agree-push same eq key c.lru (keys c.data_map) n agree)

  pub set-WellFormed :
      (now now' : ℕ) (key : K) (val : V) (ttl : ℤ) (entry_type : CacheEntryType) (c : TtlCache K V)
      → WellFormed same c
      → WellFormed same (set same now now' key val ttl entry_type c)
  unfolding set WellFormed evict_oldest
  set-WellFormed now now' key val ttl entry_type c (agree, room) =
      let capped = cap_ttl c ttl entry_type in
      elim (Bool-cases (ltb_ℤ (pos 0) ttl)) [
        | inr skip ↦ rw (set, skip) (agree, room)
        | inl go ↦ elim (Bool-cases (ltb_ℤ (pos 0) capped)) [
          | inr skip ↦ rw (set, go, skip) (agree, room)
          | inl go' ↦ elim (count-map_get same eq key c.data_map) [
            | inr (e, there, n) ↦
                rw (set, go, go', there) (WellFormed-replace key _ c n (agree, room))
            | inl (none_there, n) ↦
                rw (set, go, go', none_there)
                  (evict_loop_lem same eq c.max_entries (c.lru ++ (key ∷ [])) _
                    (Agree-insert key _ c none_there n agree))
          ]
        ]
      ]
