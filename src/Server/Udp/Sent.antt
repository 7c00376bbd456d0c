-- ===== src/Server/Udp/Sent.antt =====
-- How much is sent.
use hydra_dns.Base.{
  ℕ, ◌≤◌, ◌≡◌, inl, inr, refl, arith, ◌∷◌, Option, none, some, ok, Succeeds, Succeeds-value, Bytes,
  min, max, length, All, IsByte,
}
use hydra_dns.Base.Int.{pos}
use hydra_dns.Dns.Header.{Header, parse_header}
use hydra_dns.Dns.Packet.{Packet}
use hydra_dns.Dns.Request.{parse_request_bounded}
use hydra_dns.Dns.Edns.{edns_max_udp_payload_size}
use hydra_dns.Dns.Edns.Opt.{advertised, client_max_udp_size_total}
use hydra_dns.Server.Truncate.{truncate_udp_response, size_limit}
use hydra_dns.Server.Truncate.Bound.{truncate_udp_response_bounded}
use hydra_dns.Server.Handler.{Resolution, HandleResult, resolved, resolve_with_timeout, handle}
use hydra_dns.Server.Udp.{sent_response, handle_packet}

-- Something is sent, of at most 4096 bytes.
abbrev pub IsSmall : Option Bytes → Type 0
IsSmall none = ⊥
IsSmall (some out) = length out ≤ 4096

size_limit_bounded : (n : ℕ) → size_limit (pos n) ≤ max n 512
unfolding size_limit
size_limit_bounded n = ground arith

sent_response-IsSmall :
    (res : HandleResult) (b : ℕ) (bs : Bytes) (h : Header) (p : Packet)
    → res.response_bytes ≡ some (b ∷ bs)
    → res.parsed ≡ some p
    → All IsByte (b ∷ bs)
    → parse_header (b ∷ bs) 0 ≡ ok (h, 12)
    → Succeeds IsSmall (sent_response res)
unfolding sent_response
sent_response-IsSmall res b bs h p sent parsed bytes head =
    let (found, _, e) = client_max_udp_size_total p in
    let size = min (advertised found) edns_max_udp_payload_size in
    let (out, cut, fits) =
      Succeeds-value _ (truncate_udp_response (b ∷ bs) (pos size))
        (truncate_udp_response_bounded (b ∷ bs) h (pos size) bytes head) in
    let limit = size_limit_bounded size in
    rw (sent_response, sent, parsed, e, cut)
      (elim fits [
        | inl (whole, same) ↦ rw same (omega (arith, limit))
        | inr (_, short, _) ↦ omega (arith, limit)
      ])

-- For a datagram that parses as a request, and a response from the resolver that is bytes with a
-- header, the worker sends something, and at most 4096 bytes of it, whatever the length of the
-- response and the size that the client advertises.
pub handle_packet-IsSmall :
    (payload : Bytes) (p : Packet) (r : Resolution) (b : ℕ) (bs : Bytes) (h : Header)
    → parse_request_bounded payload ≡ ok p
    → r.response_bytes ≡ some (b ∷ bs)
    → All IsByte (b ∷ bs)
    → parse_header (b ∷ bs) 0 ≡ ok (h, 12)
    → Succeeds IsSmall (handle_packet (resolved r) payload)
unfolding handle_packet handle resolve_with_timeout
handle_packet-IsSmall payload p r b bs h parsed answered bytes head =
    sent_response-IsSmall (handle payload (resolved r)) b bs h p
      (rw (handle, parsed, resolve_with_timeout) answered) (rw (handle, parsed) refl) bytes head
