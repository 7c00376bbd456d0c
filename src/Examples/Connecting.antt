-- ===== src/Examples/Connecting.antt =====
-- A TCP connection with two queries, and the connections of one client.
use hydra_dns.Base.{ℕ, ◌≤◌, ◌≡◌, refl, [], ◌∷◌, true, Bytes}
use hydra_dns.Server.Handler.{Outcome, timer_fired}
use hydra_dns.Server.Tcp.{Connections, conn_count, try_acquire_conn, release_conn}
use hydra_dns.Server.Tcp.Connections.{occurrences, no_conns, accepted, ended, ConnReachable-counted}

abbrev timeouts : ℕ → Outcome
timeouts i = timer_fired

-- "::1"
abbrev client : Bytes
client = 58 ∷ 58 ∷ 49 ∷ []

abbrev one_conn : Connections
one_conn = (try_acquire_conn client []).1

client_accepted : (try_acquire_conn client []).0 ≡ true
unfolding try_acquire_conn conn_count
client_accepted = refl

ConnReachable-counted_example :
    (conn_count client (release_conn client one_conn) ≡ occurrences client [])
    × (occurrences client [] ≤ 10)
ConnReachable-counted_example =
    ConnReachable-counted [] (release_conn client one_conn)
      (ended client [] [] one_conn (accepted client [] [] no_conns client_accepted)) client
