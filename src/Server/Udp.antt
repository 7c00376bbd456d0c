-- ===== src/Server/Udp.antt =====
-- internal/server/udp_server.go: what a worker does with one datagram. The buffer pool and the
-- sockets are left out.
pub mod Sent
use hydra_dns.Base.{[], ◌∷◌, Option, none, some, Result, ok, ◌>>=◌, Bytes, min}
use hydra_dns.Base.Int.{pos}
use hydra_dns.Dns.Edns.{client_max_udp_size, edns_max_udp_payload_size}
use hydra_dns.Server.Truncate.{truncate_udp_response}
use hydra_dns.Server.Handler.{Outcome, HandleResult, handle}

-- What is written to the client of a handled datagram; `none` if nothing is.
unfoldable pub sent_response : HandleResult → Result (Option Bytes)
sent_response res = elim res.response_bytes [
  | none ↦ ok none
  | some [] ↦ ok none
  | some (b ∷ bs) ↦ elim res.parsed [
    | none ↦ ok (some (b ∷ bs))
    | some parsed ↦
        client_max_udp_size parsed
        >>= (λ size. truncate_udp_response (b ∷ bs) (pos (min size edns_max_udp_payload_size)))
        >>= (λ cut. ok (some cut))
  ]
]

unfoldable pub handle_packet : Outcome → Bytes → Result (Option Bytes)
unfolding sent_response
handle_packet outcome payload = sent_response (handle payload outcome)
