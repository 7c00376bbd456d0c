-- ===== src/Resolvers/Exchange.antt =====
-- internal/resolvers/forwarding_resolver.go: one query to one upstream, with the pool of its UDP
-- connections, the retries and the fall back to TCP. The sockets are operations on a world, and
-- deadlines are theirs; a pool is used by one query at a time.
pub mod Pooled
use hydra_dns.Base.{
  ℕ, zero, suc, ◌+◌, ◌*◌, ◌/◌, ◌%◌, [], ◌∷◌, ◌++◌, List, Bool, true, false, not, ◌&&◌, ltb, ◌==◌,
  if◌then◌else◌, length, Option, none, some, Bytes, Result, ok, err, put_uint16,
}
use hydra_dns.Base.Int.{ℤ, pos}
use hydra_dns.Base.Table.{table_get, table_set}
use hydra_dns.Convert.{clamp_int_to_uint16}
use hydra_dns.Dns.Edns.{is_truncated}

-- A reply, or an error.
pub data Exchanged (E : Type 0) : Type 0 where
  replied : Bytes → Exchanged E
  broke : E → Exchanged E

pub data Dialed (C E : Type 0) : Type 0 where
  dialed : C → Dialed C E
  no_dial : E → Dialed C E

-- The sockets and the context; `none` is a nil error. A read fills at most so many bytes, and
-- `read_full` exactly so many. `bad_length` is the error of an empty response over TCP.
pub record Sockets (W C E : Type 0) : Type 0 where
  pub context_error : W → Option E
  pub resolve : Bytes → W → Option E × W
  pub dial_udp : Bytes → W → Dialed C E × W
  pub dial_tcp : Bytes → W → Dialed C E × W
  pub write : C → Bytes → W → Option E × W
  pub read : C → ℕ → W → Exchanged E × W
  pub read_full : C → ℕ → W → Exchanged E × W
  pub close : C → W → W
  pub is_net_error : E → Bool
  pub bad_length : E

-- The settings of a resolver that a query reads.
pub record QuerySettings : Type 0 where
  pub pool_size : ℕ
  pub recv_size : ℕ
  pub max_retries : ℕ
  pub tcp_fallback : Bool

-- The map `udpPools`: the free connections of each upstream.
abbrev pub Pools : Type 0 → Type 0
Pools C = List (Bytes × List C)

-- The answer of IsTruncated, which reads two bytes only where four are there.
unfoldable pub tc_is_set : Bytes → Bool
tc_is_set resp = elim (is_truncated resp) [ ok b ↦ b | err e ↦ false ]

-- The length behind the prefix of a TCP message.
unfoldable pub prefix_length : Bytes → ℕ
prefix_length (hi ∷ lo ∷ rest) = hi * 256 + lo
prefix_length few = 0

module _ {W C E : Type 0} (net : Sockets W C E) where
  -- queryUpstreamTCP on the connection, which it closes at the end.
  unfoldable pub read_tcp_body : C → Exchanged E × W → Exchanged E × W
  read_tcp_body c (broke e, w) = (broke e, w)
  read_tcp_body c (replied prefix, w) =
      if prefix_length prefix == 0
      then (broke net.bad_length, w)
      else net.read_full c (prefix_length prefix) w

  unfoldable pub tcp_exchange : C → Bytes → W → Exchanged E × W
  tcp_exchange c req w =
      let (e1, w1) = net.write c (put_uint16 (clamp_int_to_uint16 (pos (length req)))) w in
      let (e2, w2) = net.write c req w1 in
      elim e1 [
        | some e ↦ (broke e, w1)
        | none ↦ elim e2 [ some e ↦ (broke e, w2) | none ↦ read_tcp_body c (net.read_full c 2 w2) ]
      ]

  unfoldable pub query_upstream_tcp : Bytes → Bytes → W → Exchanged E × W
  query_upstream_tcp req host w =
      let (conn, w') = net.dial_tcp host w in
      elim conn [
        | no_dial e ↦ (broke e, w')
        | dialed c ↦ let (reply, w'') = tcp_exchange c req w' in (reply, net.close c w'')
      ]

module _ {W C E : Type 0} (net : Sockets W C E) (set : QuerySettings) where
  -- The loop of ensurePool that dials; it stops at the first failure.
  unfoldable pub fill_pool : ℕ → Bytes → List C → W → List C × W
  fill_pool zero up pool w = (pool, w)
  fill_pool (suc n) up pool w =
      let (conn, w') = net.dial_udp up w in
      elim conn [ no_dial e ↦ (pool, w') | dialed c ↦ fill_pool n up (pool ++ (c ∷ [])) w' ]

  -- ensurePool: its error, and the pools, which have one for the upstream in any case.
  unfoldable pub ensure_pool : Bytes → Pools C → W → Option E × Pools C × W
  ensure_pool up pools w = elim (table_get up pools) [
    | some pool ↦ (none, pools, w)
    | none ↦
        let (failed, w') = net.resolve up w in
        elim failed [
          | some e ↦ (some e, table_set up [] pools, w')
          | none ↦
              let (pool, w'') = fill_pool set.pool_size up [] w' in
              (none, table_set up pool pools, w'')
        ]
  ]

  -- releaseConnection, with the free connections of its pool.
  unfoldable pub release_connection : C → Bool → Bool → List C → W → List C × W
  release_connection c from_pool conn_ok pool w =
      if conn_ok && (from_pool && ltb (length pool) set.pool_size)
      then (pool ++ (c ∷ []), w)
      else (pool, net.close c w)

  -- queryOneAttempt on a connection, up to the test for TC: with the reply comes whether the
  -- connection is still good.
  unfoldable pub udp_exchange : C → Bytes → W → Exchanged E × Bool × W
  udp_exchange c req w =
      let (failed, w1) = net.write c req w in
      let (reply, w2) = net.read c set.recv_size w1 in
      elim failed [
        | some e ↦ (broke e, false, w1)
        | none ↦ elim reply [
          | broke e ↦ (broke e, false, w2)
          | replied resp ↦ (replied resp, true, w2)
        ]
      ]

  -- The reply, or that over TCP where it is truncated.
  unfoldable pub or_tcp : Bytes → Bytes → Exchanged E × Bool × W → Exchanged E × Bool × W
  or_tcp up req (broke e, conn_ok, w) = (broke e, conn_ok, w)
  or_tcp up req (replied resp, conn_ok, w) =
      let (reply, w') = query_upstream_tcp net req up w in
      if set.tcp_fallback && tc_is_set resp
      then (reply, conn_ok, w')
      else (replied resp, conn_ok, w)

  unfoldable pub attempt_on : C → Bool → Bytes → Bytes → List C → W → Exchanged E × List C × W
  attempt_on c from_pool up req pool w =
      let (reply, conn_ok, w') = or_tcp up req (udp_exchange c req w) in
      let (pool', w'') = release_connection c from_pool conn_ok pool w' in (reply, pool', w'')

  -- queryOneAttempt. Where the context is done and a connection is free too, Go's select takes
  -- either: `takes_done` says which.
  unfoldable pub query_one_attempt : Bool → Bytes → Bytes → List C → W → Exchanged E × List C × W
  query_one_attempt takes_done up req [] w = elim (net.context_error w) [
    | some e ↦ (broke e, [], w)
    | none ↦
        let (failed, w1) = net.resolve up w in
        let (conn, w2) = net.dial_udp up w1 in
        elim failed [
          | some e ↦ (broke e, [], w1)
          | none ↦ elim conn [
            | no_dial e ↦ (broke e, [], w2)
            | dialed c ↦ attempt_on c false up req [] w2
          ]
        ]
  ]
  query_one_attempt takes_done up req (c ∷ pool) w =
      let on_pooled = attempt_on c true up req pool w in
      elim (net.context_error w) [
        | none ↦ on_pooled
        | some e ↦ if takes_done then (broke e, c ∷ pool, w) else on_pooled
      ]

  -- The end of queryOne: no error and no reply where it makes no attempt.
  unfoldable pub last_outcome : Option E → Exchanged E
  last_outcome none = replied []
  last_outcome (some e) = broke e

  -- queryOne's loop. `takes_done i` is for the attempt with i more behind it.
  unfoldable pub query_attempts :
      (ℕ → Bool) → ℕ → Option E → Bytes → Bytes → List C → W → Exchanged E × List C × W
  query_attempts takes_done zero last up req pool w = (last_outcome last, pool, w)
  query_attempts takes_done (suc n) last up req pool w =
      let (reply, pool', w') = query_one_attempt (takes_done n) up req pool w in
      elim (net.context_error w) [
        | some e ↦ (broke e, pool, w)
        | none ↦ elim reply [
          | replied resp ↦ (replied resp, pool', w')
          | broke e ↦
              if net.is_net_error e
              then query_attempts takes_done n (some e) up req pool' w'
              else (broke e, pool', w')
        ]
      ]

  unfoldable pub pool_of : Bytes → Pools C → List C
  pool_of up pools = elim (table_get up pools) [ none ↦ [] | some pool ↦ pool ]

  unfoldable pub query_one : (ℕ → Bool) → Bytes → Bytes → Pools C → W → Exchanged E × Pools C × W
  query_one takes_done up req pools w =
      let (failed, pools', w') = ensure_pool up pools w in
      let (reply, pool, w'') =
        query_attempts takes_done set.max_retries none up req (pool_of up pools') w' in
      elim failed [ some e ↦ (broke e, pools', w') | none ↦ (reply, table_set up pool pools', w'') ]
