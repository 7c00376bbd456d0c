-- ===== src/Resolvers/Exchange/Pooled.antt =====
-- The pools of UDP connections keep what worked, and do not outgrow their size.
use hydra_dns.Base.{
  ℕ, zero, suc, ◌+◌, ◌≤◌, ◌≡◌, refl, ap, ◌∙◌, ◌⊎◌, inl, inr, arith, [], ◌∷◌, ◌++◌, List, Bool, true,
  false, if◌then◌else◌, length, length-append, Option, none, some, Bytes, Bool-cases, Option-cases,
  bytes_eq,
}
use hydra_dns.Base.Table.{table_get, table_set, table_get-table_set}
use hydra_dns.Resolvers.Exchange.{
  Exchanged, replied, broke, Dialed, dialed, no_dial, Sockets, QuerySettings, Pools, fill_pool,
  ensure_pool, release_connection, udp_exchange, or_tcp, attempt_on, query_one_attempt,
  query_attempts, pool_of, query_one,
}

Dialed-cases :
    {C E : Type 0} (d : Dialed C E) → ((e : E) × (d ≡ no_dial e)) ⊎ ((c : C) × (d ≡ dialed c))
Dialed-cases (no_dial e) = inl (e, refl)
Dialed-cases (dialed c) = inr (c, refl)

Exchanged-cases :
    {E : Type 0} (r : Exchanged E)
    → ((resp : Bytes) × (r ≡ replied resp)) ⊎ ((e : E) × (r ≡ broke e))
Exchanged-cases (replied resp) = inl (resp, refl)
Exchanged-cases (broke e) = inr (e, refl)

module _ {W C E : Type 0} (net : Sockets W C E) (set : QuerySettings) where
  fill_pool-length :
      (n : ℕ) (up : Bytes) (pool : List C) (w : W)
      → length (fill_pool net set n up pool w).0 ≤ length pool + n
  unfolding fill_pool
  fill_pool-length zero up pool w = omega arith
  fill_pool-length (suc n) up pool w = elim (Dialed-cases (net.dial_udp up w).0) [
    | inl (e, is) ↦ rw (fill_pool, is) (omega arith)
    | inr (c, is) ↦
        rw (fill_pool, is)
          (omega (
            arith,
            fill_pool-length n up (pool ++ (c ∷ [])) (net.dial_udp up w).1,
            length-append pool (c ∷ []),
          ))
  ]

  release_connection-length :
      (c : C) (from_pool conn_ok : Bool) (pool : List C) (w : W)
      → length pool ≤ set.pool_size
      → length (release_connection net set c from_pool conn_ok pool w).0 ≤ set.pool_size
  unfolding release_connection
  release_connection-length c from_pool conn_ok pool w h =
      ground (arith, h, length-append pool (c ∷ []))

  -- The connection takes the query and gives a reply.
  unfoldable pub exchange_works : C → Bytes → W → Bool
  exchange_works c req w = elim (net.write c req w).0 [
    | some e ↦ false
    | none ↦ elim (net.read c set.recv_size (net.write c req w).1).0 [
      | broke e ↦ false
      | replied resp ↦ true
    ]
  ]

  -- The attempt ends with the error of the context before it takes a connection.
  unfoldable pub gives_up : Bool → W → Bool
  gives_up takes_done w = elim (net.context_error w) [ none ↦ false | some e ↦ takes_done ]

  -- The world behind an exchange, with that over TCP where there is one.
  unfoldable pub world_after : C → Bytes → Bytes → W → W
  world_after c up req w = (or_tcp net set up req (udp_exchange net set c req w)).2

  -- The free connections behind an attempt, and the world: a connection that worked goes to the end
  -- of the pool, one that did not is closed.
  unfoldable pub pool_after : Bool → Bytes → Bytes → C → List C → W → List C × W
  unfolding exchange_works gives_up world_after
  pool_after takes_done up req c pool w =
      if gives_up takes_done w
      then (c ∷ pool, w)
      else (if exchange_works c req w
          then (pool ++ (c ∷ []), world_after c up req w)
          else (pool, net.close c (world_after c up req w)))

  or_tcp-conn_ok : (up req : Bytes) (r : Exchanged E × Bool × W) → (or_tcp net set up req r).1 ≡ r.1
  unfolding or_tcp
  or_tcp-conn_ok up req (broke e, conn_ok, w) = refl
  or_tcp-conn_ok up req (replied resp, conn_ok, w) = ground arith

  udp_exchange-conn_ok :
      (c : C) (req : Bytes) (w : W) → (udp_exchange net set c req w).1 ≡ exchange_works c req w
  unfolding udp_exchange exchange_works
  udp_exchange-conn_ok c req w = elim (Option-cases (net.write c req w).0) [
    | inr (e, is) ↦ rw (udp_exchange, exchange_works, is) refl
    | inl fine ↦
        let reply = net.read c set.recv_size (net.write c req w).1 in
        elim (Exchanged-cases reply.0) [
          | inl (resp, is) ↦ rw (udp_exchange, exchange_works, fine, is) refl
          | inr (e, is) ↦ rw (udp_exchange, exchange_works, fine, is) refl
        ]
  ]

  attempt_on-pooled :
      (c : C) (up req : Bytes) (pool : List C) (w : W)
      → length (c ∷ pool) ≤ set.pool_size
      → (let r = attempt_on net set c true up req pool w in
          (let pw : List C × W = (r.1, r.2) in pw) ≡ (
            if exchange_works c req w
            then (pool ++ (c ∷ []), world_after c up req w)
            else (pool, net.close c (world_after c up req w))))
  unfolding attempt_on release_connection world_after
  attempt_on-pooled c up req pool w h =
      let same =
        or_tcp-conn_ok up req (udp_exchange net set c req w) ∙ udp_exchange-conn_ok c req w in
      elim (Bool-cases (exchange_works c req w)) [
        | inl works ↦ ground (arith, same, works, h)
        | inr fails ↦ ground (arith, same, fails, h)
      ]

  attempt_on-length :
      (c : C) (from_pool : Bool) (up req : Bytes) (pool : List C) (w : W)
      → length pool ≤ set.pool_size
      → length (attempt_on net set c from_pool up req pool w).1 ≤ set.pool_size
  unfolding attempt_on
  attempt_on-length c from_pool up req pool w h =
      let r = or_tcp net set up req (udp_exchange net set c req w) in
      release_connection-length c from_pool r.1 pool r.2 h

  query_one_attempt-length :
      (takes_done : Bool) (up req : Bytes) (pool : List C) (w : W)
      → length pool ≤ set.pool_size
      → length (query_one_attempt net set takes_done up req pool w).1 ≤ set.pool_size
  unfolding query_one_attempt
  query_one_attempt-length takes_done up req [] w h =
      let none_left : 0 ≤ set.pool_size = omega arith in
      elim (Option-cases (net.context_error w)) [
        | inr (why, e) ↦ rw (query_one_attempt, e) none_left
        | inl e ↦ elim (Option-cases (net.resolve up w).0) [
          | inr (why, e') ↦ rw (query_one_attempt, e, e') none_left
          | inl e' ↦
              let w1 = (net.resolve up w).1 in
              elim (Dialed-cases (net.dial_udp up w1).0) [
                | inl (why, e'') ↦ rw (query_one_attempt, e, e', e'') none_left
                | inr (c, e'') ↦
                    rw (query_one_attempt, e, e', e'')
                      (attempt_on-length c false up req [] (net.dial_udp up w1).1 none_left)
              ]
        ]
      ]
  query_one_attempt-length takes_done up req (c ∷ pool) w h =
      let used = attempt_on-length c true up req pool w (omega (arith, h)) in
      elim (Option-cases (net.context_error w)) [
        | inl e ↦ rw (query_one_attempt, e) used
        | inr (why, e) ↦ rw (query_one_attempt, e) (ground (arith, h, used))
      ]

  query_attempts-length :
      (takes_done : ℕ → Bool) (n : ℕ) (last : Option E) (up req : Bytes) (pool : List C) (w : W)
      → length pool ≤ set.pool_size
      → length (query_attempts net set takes_done n last up req pool w).1 ≤ set.pool_size
  unfolding query_attempts
  query_attempts-length takes_done zero last up req pool w h = h
  query_attempts-length takes_done (suc n) last up req pool w h =
      let r = query_one_attempt net set (takes_done n) up req pool w in
      let after = query_one_attempt-length (takes_done n) up req pool w h in
      elim (Option-cases (net.context_error w)) [
        | inr (why, e) ↦ rw (query_attempts, e) h
        | inl e ↦ elim (Exchanged-cases r.0) [
          | inl (resp, e') ↦ rw (query_attempts, e, e') after
          | inr (why, e') ↦ elim (Bool-cases (net.is_net_error why)) [
            | inl again ↦
                rw (query_attempts, e, e', again)
                  (query_attempts-length takes_done n (some why) up req r.1 r.2 after)
            | inr fatal ↦ rw (query_attempts, e, e', fatal) after
          ]
        ]
      ]

  -- Every pool holds at most as many connections as its size.
  abbrev pub IsPooled : Pools C → Type 0
  IsPooled pools = (u : Bytes) → length (pool_of net set u pools) ≤ set.pool_size

  pool_of-table_set :
      (u up : Bytes) (pool : List C) (pools : Pools C)
      → pool_of net set u (table_set up pool pools)
        ≡ (if bytes_eq up u then pool else pool_of net set u pools)
  unfolding pool_of
  pool_of-table_set u up pool pools =
      ap (λ (o : Option (List C)). elim o [ none ↦ [] | some p ↦ p ])
        (table_get-table_set u up pool pools)
      ∙ ground arith

  IsPooled-table_set :
      (up : Bytes) (pool : List C) (pools : Pools C)
      → length pool ≤ set.pool_size
      → IsPooled pools
      → IsPooled (table_set up pool pools)
  IsPooled-table_set up pool pools h p u = elim (Bool-cases (bytes_eq up u)) [
    | inl e ↦ rw (pool_of-table_set u up pool pools, e) h
    | inr e ↦ rw (pool_of-table_set u up pool pools, e) (p u)
  ]

  IsPooled-ensure_pool :
      (up : Bytes) (pools : Pools C) (w : W)
      → IsPooled pools
      → IsPooled (ensure_pool net set up pools w).1
  unfolding ensure_pool
  IsPooled-ensure_pool up pools w p = elim (Option-cases (table_get up pools)) [
    | inr (pool, e) ↦ rw (ensure_pool, e) p
    | inl e ↦ elim (Option-cases (net.resolve up w).0) [
      | inr (why, e') ↦ rw (ensure_pool, e, e') (IsPooled-table_set up [] pools (omega arith) p)
      | inl e' ↦
          let filled = fill_pool net set set.pool_size up [] (net.resolve up w).1 in
          let fits : length filled.0 ≤ set.pool_size =
            omega (arith, fill_pool-length set.pool_size up [] (net.resolve up w).1) in
          rw (ensure_pool, e, e') (IsPooled-table_set up filled.0 pools fits p)
    ]
  ]

-- A connection that was dialed for one attempt is not kept.
dropped :
    {W C E : Type 0} (net : Sockets W C E) (set : QuerySettings) (takes_done : Bool)
    (up req : Bytes) (w : W)
    → (query_one_attempt net set takes_done up req [] w).1 ≡ []
unfolding query_one_attempt attempt_on release_connection
dropped net set takes_done up req w = elim (Option-cases (net.context_error w)) [
  | inr (why, e) ↦ rw (query_one_attempt, e) refl
  | inl e ↦ elim (Option-cases (net.resolve up w).0) [
    | inr (why, e') ↦ rw (query_one_attempt, e, e') refl
    | inl e' ↦ elim (Dialed-cases (net.dial_udp up (net.resolve up w).1).0) [
      | inl (why, e'') ↦ rw (query_one_attempt, e, e', e'') refl
      | inr (c, e'') ↦ rw (query_one_attempt, e, e', e'') (ground arith)
    ]
  ]
]

-- An attempt from a pool that is not above its size takes the first free connection, unless the
-- context is done and it sees that: afterwards the connection is free again, behind the others, if
-- it took the query and gave a reply, and is closed if not. An attempt from an empty pool leaves it
-- empty: the connection that it dials is not kept.
pub query_one_attempt-pool_after :
    {W C E : Type 0} (net : Sockets W C E) (set : QuerySettings) (takes_done : Bool)
    (up req : Bytes) (c : C) (pool : List C) (w : W)
    → length (c ∷ pool) ≤ set.pool_size
    → (let r = query_one_attempt net set takes_done up req (c ∷ pool) w in
        (r.1 ≡ (pool_after net set takes_done up req c pool w).0)
        × (r.2 ≡ (pool_after net set takes_done up req c pool w).1))
      × ((query_one_attempt net set takes_done up req [] w).1 ≡ [])
unfolding query_one_attempt pool_after gives_up
query_one_attempt-pool_after net set takes_done up req c pool w h =
    let used = attempt_on-pooled net set c up req pool w h in
    (
      elim (Option-cases (net.context_error w)) [
        | inl e ↦
            rw (query_one_attempt, pool_after, gives_up, e) (ap (λ p. p.0) used, ap (λ p. p.1) used)
        | inr (why, e) ↦ elim (Bool-cases takes_done) [
          | inl taken ↦ rw (query_one_attempt, pool_after, gives_up, e, taken) (refl, refl)
          | inr not_taken ↦
              rw (query_one_attempt, pool_after, gives_up, e, not_taken)
                (ap (λ p. p.0) used, ap (λ p. p.1) used)
        ]
      ],
      dropped net set takes_done up req w,
    )

-- A query to an upstream, with all its retries and whatever the sockets do, leaves no more free
-- connections in any pool than its size, if there were no more before.
pub query_one-IsPooled :
    {W C E : Type 0} (net : Sockets W C E) (set : QuerySettings) (takes_done : ℕ → Bool)
    (up req : Bytes) (pools : Pools C) (w : W)
    → IsPooled net set pools
    → IsPooled net set (query_one net set takes_done up req pools w).1
unfolding query_one
query_one-IsPooled net set takes_done up req pools w p =
    let ensured = ensure_pool net set up pools w in
    let p' = IsPooled-ensure_pool net set up pools w p in
    let tried =
      query_attempts net set takes_done set.max_retries none up req (pool_of net set up ensured.1)
        ensured.2 in
    let fits =
      query_attempts-length net set takes_done set.max_retries none up req
        (pool_of net set up ensured.1) ensured.2 (p' up) in
    elim (Option-cases ensured.0) [
      | inr (why, e) ↦ rw (query_one, e) p'
      | inl e ↦ rw (query_one, e) (IsPooled-table_set net set up tried.1 ensured.1 fits p')
    ]
