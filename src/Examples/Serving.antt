-- ===== src/Examples/Serving.antt =====
-- Requests answered and responses cut.
use hydra_dns.Base.{
  ℕ, ◌+◌, ◌*◌, ◌/◌, ◌%◌, ◌≤◌, ◌<◌, max, ◌≡◌, ◌↔◌, ◌⊎◌, refl, [], ◌∷◌, ◌++◌, Option, none, some,
  arith, length, take, replicate, All, All-append, Result, ok, err, Returns, Succeeds, Bytes,
  IsByte,
}
use hydra_dns.Base.Int.{pos}
use hydra_dns.Dns.Enums.{rcode_form_err, rcode_serv_fail}
use hydra_dns.Dns.Header.{Header, marshal, parse_header}
use hydra_dns.Dns.Packet.{parse_packet}
use hydra_dns.Dns.Request.{parse_request_bounded, build_response_flags, build_error_response}
use hydra_dns.Dns.Request.Bounds.{IsAdmissible, parse_request_bounded_iff}
use hydra_dns.Server.Truncate.{truncate_udp_response, size_limit}
use hydra_dns.Server.Truncate.Bound.{truncated_header, truncate_udp_response_bounded}
use hydra_dns.Server.Handler.{
  handle, resolve_with_timeout, build_error_result, must_marshal, timer_fired, Source, Resolution,
  resolved,
}
use hydra_dns.Server.Handler.Answers.{error_header, handle-header}
use hydra_dns.Server.Udp.{handle_packet}
use hydra_dns.Server.Udp.Sent.{IsSmall, handle_packet-IsSmall}
use hydra_dns.Examples.Messages.{
  query, query_header, query_wire, query_wire-IsByte, response_wire, response_wire-IsByte,
}

parse_request_bounded_iff_example : (parse_request_bounded query_wire ≡ ok query) ↔ (
    (length query_wire ≤ 4096) × (parse_packet query_wire ≡ ok query) × IsAdmissible query.header)
parse_request_bounded_iff_example = parse_request_bounded_iff query_wire query query_wire-IsByte

abbrev servfail_wire : Bytes
servfail_wire =
    0x12 ∷ 0x34 ∷ 0x81 ∷ 0x02 ∷ 0 ∷ 1 ∷ 0 ∷ 0 ∷ 0 ∷ 0 ∷ 0 ∷ 0 ∷ 1 ∷ 97 ∷ 0 ∷ 0 ∷ 1 ∷ 0 ∷ 1 ∷ []

servfail_sent : must_marshal (build_error_response query rcode_serv_fail) ≡ some servfail_wire
unfolding must_marshal hydra_dns.Dns.Packet.marshal_packet hydra_dns.Dns.Packet.marshal_all
    build_error_response hydra_dns.Dns.Question.marshal_question hydra_dns.Dns.Name.encode_name
    hydra_dns.Dns.Name.encode_trimmed hydra_dns.Dns.Name.trim_dot hydra_dns.Dns.Name.encode_loop
    hydra_dns.Dns.Name.append_label hydra_dns.Dns.Name.any_non_ascii marshal
    hydra_dns.Base.put_uint16 hydra_dns.Dns.Packet.counted_header build_response_flags
    hydra_dns.Convert.clamp_int_to_uint16
servfail_sent = refl

query_parsed : parse_header query_wire 0 ≡ ok (query_header, 12)
unfolding parse_header hydra_dns.Base.uint16_at hydra_dns.Base.byte_at
query_parsed = refl

query_accepted : parse_request_bounded query_wire ≡ ok query
unfolding parse_request_bounded parse_packet parse_header hydra_dns.Base.uint16_at
    hydra_dns.Base.byte_at hydra_dns.Dns.Packet.parse_many hydra_dns.Dns.Question.parse_question
    hydra_dns.Dns.Name.decode_name hydra_dns.Dns.Name.decode_name_at hydra_dns.Dns.Name.decode_loop
    hydra_dns.Dns.Name.is_compression_pointer hydra_dns.Dns.Name.has_reserved_bits
    hydra_dns.Dns.Name.read_label hydra_dns.Base.slice hydra_dns.Dns.Name.any_non_ascii
    hydra_dns.Dns.Request.is_response_flags hydra_dns.Dns.Request.extract_opcode
    hydra_dns.Dns.Request.validate_section_counts hydra_dns.Dns.Name.join_labels
    hydra_dns.Dns.Name.normalize_name hydra_dns.Dns.Name.to_lower hydra_dns.Dns.Name.lower_byte
    hydra_dns.Dns.Name.trim_suffix_dot
query_accepted = refl

timeout_answered : (handle query_wire timer_fired).response_bytes ≡ some servfail_wire
unfolding handle resolve_with_timeout build_error_result
timeout_answered = rw (handle, query_accepted) servfail_sent

handle-header_example :
    (n : ℕ) × (n ≤ 1)
    × (parse_header servfail_wire 0
        ≡ ok (
          error_header query_header
              (elim (parse_request_bounded query_wire) [
                | ok p ↦ rcode_serv_fail
                | err e ↦ rcode_form_err
              ])
              n,
          12,
        ))
handle-header_example =
    handle-header query_wire servfail_wire query_header timer_fired query_wire-IsByte query_parsed
      tt timeout_answered

abbrev response_header : Header
response_header = record query_header { flags = 0x8100 }

response_parsed : parse_header response_wire 0 ≡ ok (response_header, 12)
unfolding parse_header hydra_dns.Base.uint16_at hydra_dns.Base.byte_at
response_parsed = refl

-- Nineteen bytes into fifteen.
truncate_udp_response_bounded_example :
    Succeeds
      (λ out.
        ((length response_wire ≤ size_limit (pos 15)) × (out ≡ response_wire))
        ⊎ ((size_limit (pos 15) < length response_wire)
            × (length out ≤ max (size_limit (pos 15)) 12)
            × (take 12 out ≡ marshal (truncated_header response_header))))
      (truncate_udp_response response_wire (pos 15))
truncate_udp_response_bounded_example =
    truncate_udp_response_bounded response_wire response_header (pos 15) response_wire-IsByte
      response_parsed

abbrev passed_on : Resolution
passed_on = record { response_bytes = some response_wire; source = Source.resolver [] }

handle_packet-IsSmall_example : Succeeds IsSmall (handle_packet (resolved passed_on) query_wire)
handle_packet-IsSmall_example =
    handle_packet-IsSmall query_wire query passed_on 0x12
      (0x34 ∷ 0x81 ∷ 0x00 ∷ 0 ∷ 1 ∷ 0 ∷ 0 ∷ 0 ∷ 0 ∷ 0 ∷ 0 ∷ 1 ∷ 97 ∷ 0 ∷ 0 ∷ 1 ∷ 0 ∷ 1 ∷ [])
      response_header query_accepted refl response_wire-IsByte response_parsed
