-- ===== src/Server/Tcp.antt =====
-- internal/server/tcp_server.go: messages behind a length on a connection, and the connections of
-- each client. The bytes that a connection delivers before it ends or times out are a list, and so
-- are those that are written; the socket itself, and deadlines, are left out.
pub mod Framing
pub mod Pipeline
pub mod Connections
use hydra_dns.Base.{
  ℕ, zero, suc, ◌+◌, ◌-◌, [], ◌∷◌, ◌++◌, List, length, take, drop, Option, none, some, Bool, true,
  false, ltb, leb, ◌==◌, if◌then◌else◌, Result, ok, err, Bytes, bytes_eq, uint16_at, put_uint16,
}
use hydra_dns.Server.Handler.{Outcome, handle}

abbrev pub max_tcp_message_size : ℕ
max_tcp_message_size = 65535

abbrev pub max_tcp_connections_per_ip : ℕ
max_tcp_connections_per_ip = 10

abbrev pub max_queries_per_connection : ℕ
max_queries_per_connection = 100

-- What readMessage returns, with the bytes that are left: (nil, false), (nil, true) or a message.
pub data Received : Type 0 where
  closed : Received
  empty_message : Bytes → Received
  message : Bytes → Bytes → Received

unfoldable pub read_message : Bytes → Received
read_message stream = elim (uint16_at stream 0) [
  | err e ↦ closed
  | ok msg_len ↦
      if msg_len == 0
      then empty_message (drop 2 stream)
      else if ltb max_tcp_message_size msg_len
      then closed
      else if ltb (length stream) (2 + msg_len)
      then closed
      else message (take msg_len (drop 2 stream)) (drop msg_len (drop 2 stream))
]

-- The bytes that are written; `none` if the response is not sent.
unfoldable pub write_message : Bytes → Option Bytes
write_message response =
    if ltb max_tcp_message_size (length response)
    then none
    else some (put_uint16 (length response) ++ response)

-- What is written for one message, and after it; a nil or empty response is not written.
unfoldable pub written_then : Option Bytes → Bytes → Bytes
unfolding write_message
written_then none later = later
written_then (some []) later = later
written_then (some (b ∷ bs)) later = elim (write_message (b ∷ bs)) [
  | none ↦ []
  | some out ↦ out ++ later
]

-- The loop of handleConnection: all that is written in so many rounds. `outcomes i` is what the
-- resolver comes to for the i-th message, `cancelled i` whether the context is done in the i-th
-- round.
unfoldable pub connection_loop : ℕ → (ℕ → Bool) → (ℕ → Outcome) → Bytes → Bytes
unfolding written_then
connection_loop zero cancelled outcomes stream = []
connection_loop (suc n) cancelled outcomes stream =
    if cancelled 0 then [] else elim (read_message stream) [
      | closed ↦ []
      | empty_message rest ↦ connection_loop n (λ i. cancelled (suc i)) outcomes rest
      | message msg rest ↦
          let later = connection_loop n (λ i. cancelled (suc i)) (λ i. outcomes (suc i)) rest in
          written_then (handle msg (outcomes 0)).response_bytes later
    ]

unfoldable pub handle_connection : (ℕ → Bool) → (ℕ → Outcome) → Bytes → Bytes
unfolding connection_loop
handle_connection = connection_loop max_queries_per_connection

-- The map connPerIP; a missing key reads as 0.
abbrev pub Connections : Type 0
Connections = List (Bytes × ℕ)

unfoldable pub conn_count : Bytes → Connections → ℕ
conn_count ip [] = 0
conn_count ip ((x, n) ∷ rest) =
    let others = conn_count ip rest in if bytes_eq x ip then n else others

unfoldable pub conn_set : Bytes → ℕ → Connections → Connections
conn_set ip n [] = (ip, n) ∷ []
conn_set ip n ((x, m) ∷ rest) =
    let later = (x, m) ∷ conn_set ip n rest in if bytes_eq x ip then (x, n) ∷ rest else later

unfoldable pub conn_delete : Bytes → Connections → Connections
conn_delete ip [] = []
conn_delete ip ((x, m) ∷ rest) =
    let others = conn_delete ip rest in if bytes_eq x ip then others else (x, m) ∷ others

unfoldable pub try_acquire_conn : Bytes → Connections → Bool × Connections
try_acquire_conn ip conns =
    let cur = conn_count ip conns in
    if leb max_tcp_connections_per_ip cur
    then (false, conns)
    else (true, conn_set ip (cur + 1) conns)

unfoldable pub release_conn : Bytes → Connections → Connections
release_conn ip conns =
    let cur = conn_count ip conns in
    if leb cur 1 then conn_delete ip conns else conn_set ip (cur - 1) conns
