-- ===== src/Server/Tcp/Connections.antt =====
-- The connections that are counted for each client.
use hydra_dns.Base.{
  ℕ, ◌+◌, ◌-◌, ◌≤◌, ◌≡◌, refl, ◌∙◌, arith, [], ◌∷◌, ◌++◌, List, true, false, leb, if◌then◌else◌,
  Bool-cases, inl, inr, Bytes, bytes_eq, bytes_eq_iff,
}
use hydra_dns.Base.Table.{bytes_eq_apart}
use hydra_dns.Server.Tcp.{
  Connections, conn_count, conn_set, conn_delete, try_acquire_conn, release_conn,
}

-- How many of the connections are this client's.
unfoldable pub occurrences : Bytes → List Bytes → ℕ
occurrences ip [] = 0
occurrences ip (x ∷ xs) = (if bytes_eq x ip then 1 else 0) + occurrences ip xs

-- What any accepted, refused and ended connections lead to: the clients of the open connections,
-- and the map.
pub data ConnReachable : List Bytes → Connections → Type 0 where
  no_conns : ConnReachable [] []
  accepted :
      (ip : Bytes) (live : List Bytes) (conns : Connections)
      → ConnReachable live conns
      → (try_acquire_conn ip conns).0 ≡ true
      → ConnReachable (ip ∷ live) (try_acquire_conn ip conns).1
  refused :
      (ip : Bytes) (live : List Bytes) (conns : Connections)
      → ConnReachable live conns
      → (try_acquire_conn ip conns).0 ≡ false
      → ConnReachable live (try_acquire_conn ip conns).1
  ended :
      (ip : Bytes) (before after : List Bytes) (conns : Connections)
      → ConnReachable (before ++ (ip ∷ after)) conns
      → ConnReachable (before ++ after) (release_conn ip conns)

conn_count-conn_set :
    (j ip : Bytes) (n : ℕ) (conns : Connections)
    → conn_count j (conn_set ip n conns) ≡ (if bytes_eq ip j then n else conn_count j conns)
unfolding conn_count conn_set
conn_count-conn_set j ip n [] = refl
conn_count-conn_set j ip n ((x, m) ∷ rest) = elim (Bool-cases (bytes_eq x ip)) [
  | inl e ↦ let same : x ≡ ip = (bytes_eq_iff x ip).0 e in rw (e, same) (ground arith)
  | inr e ↦
      let differ : bytes_eq x j ≡ true → bytes_eq ip j ≡ false = bytes_eq_apart x ip j e in
      rw (e, conn_count-conn_set j ip n rest) (ground (arith, differ))
]

conn_count-conn_delete :
    (j ip : Bytes) (conns : Connections)
    → conn_count j (conn_delete ip conns) ≡ (if bytes_eq ip j then 0 else conn_count j conns)
unfolding conn_count conn_delete
conn_count-conn_delete j ip [] = ground arith
conn_count-conn_delete j ip ((x, m) ∷ rest) = elim (Bool-cases (bytes_eq x ip)) [
  | inl e ↦
      let same : x ≡ ip = (bytes_eq_iff x ip).0 e in
      rw (e, same) (conn_count-conn_delete j ip rest ∙ ground arith)
  | inr e ↦
      let differ : bytes_eq x j ≡ true → bytes_eq ip j ≡ false = bytes_eq_apart x ip j e in
      rw (e, conn_count-conn_delete j ip rest) (ground (arith, differ))
]

occurrences-append :
    (ip : Bytes) (xs ys : List Bytes)
    → occurrences ip (xs ++ ys) ≡ occurrences ip xs + occurrences ip ys
unfolding occurrences
occurrences-append ip [] ys = omega arith
occurrences-append ip (x ∷ xs) ys = ground (arith, occurrences-append ip xs ys)

conn_count-release_conn :
    (j ip : Bytes) (conns : Connections)
    → conn_count j (release_conn ip conns)
      ≡ (if bytes_eq ip j then conn_count j conns - 1 else conn_count j conns)
unfolding release_conn
conn_count-release_conn j ip conns = elim (Bool-cases (leb (conn_count ip conns) 1)) [
  | inl last ↦
      rw (release_conn, last, conn_count-conn_delete j ip conns)
        (elim (Bool-cases (bytes_eq ip j)) [
          | inl mine ↦ rw (mine, ← (bytes_eq_iff ip j).0 mine) (ground (arith, last))
          | inr other ↦ rw other refl
        ])
  | inr more ↦
      rw (release_conn, more, conn_count-conn_set j ip (conn_count ip conns - 1) conns)
        (elim (Bool-cases (bytes_eq ip j)) [
          | inl mine ↦ rw (mine, (bytes_eq_iff ip j).0 mine) refl
          | inr other ↦ rw other refl
        ])
]

-- After any accepted, refused and ended connections, where a connection ends once: each client's
-- count in the map is the number of its open connections, and at most 10.
pub ConnReachable-counted :
    (live : List Bytes) (conns : Connections)
    → ConnReachable live conns
    → (ip : Bytes) → (conn_count ip conns ≡ occurrences ip live) × (occurrences ip live ≤ 10)
unfolding conn_count occurrences try_acquire_conn release_conn
ConnReachable-counted _ _ no_conns j = (refl, omega arith)
ConnReachable-counted _ _ (accepted ip live conns h e) j =
    let counted = ConnReachable-counted live conns h in
    elim (Bool-cases (leb 10 (conn_count ip conns))) [
      | inl full ↦ absurd (ground (arith, full, e))
      | inr room ↦
          rw (try_acquire_conn, room, conn_count-conn_set j ip (conn_count ip conns + 1) conns)
            (elim (Bool-cases (bytes_eq ip j)) [
              | inl mine ↦
                  let same = (bytes_eq_iff ip j).0 mine in
                  rw (mine, same) (ground (arith, room, same, counted j))
              | inr other ↦ rw other (ground (arith, counted j))
            ])
    ]
ConnReachable-counted _ _ (refused ip live conns h e) j =
    elim (Bool-cases (leb 10 (conn_count ip conns))) [
      | inl full ↦ rw (try_acquire_conn, full) (ConnReachable-counted live conns h j)
      | inr room ↦ absurd (ground (arith, room, e))
    ]
ConnReachable-counted _ _ (ended ip before after conns h) j =
    let counted = ConnReachable-counted (before ++ (ip ∷ after)) conns h in
    let one = occurrences-append j before (ip ∷ after) in
    let rest = occurrences-append j before after in
    rw (conn_count-release_conn j ip conns) (elim (Bool-cases (bytes_eq ip j)) [
      | inl mine ↦ rw mine (ground (arith, mine, one, rest, counted j))
      | inr other ↦ rw other (ground (arith, other, one, rest, counted j))
    ])
