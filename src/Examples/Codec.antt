-- ===== src/Examples/Codec.antt =====
-- The codec on concrete messages.
use hydra_dns.Base.{
  ℕ, ◌+◌, ◌*◌, ◌/◌, ◌%◌, ◌≤◌, ◌<◌, ◌≡◌, ◌↔◌, refl, [], ◌∷◌, ◌++◌, true, false, arith, length, All,
  Result, ok, err, Returns, Bytes, IsByte, empty_name, label_too_long, pointer_loop, replicate,
}
use hydra_dns.Convert.{clamp_int, clamp_int_bounds}
use hydra_dns.Dns.Header.{marshal}
use hydra_dns.Dns.Name.{encode_name, decode_name, trim_dot, is_empty}
use hydra_dns.Dns.Name.Decode.{IsAscii, decode_name-Returns}
use hydra_dns.Dns.Name.Encode.{encode_name_iff, IsName, name_wire}
use hydra_dns.Dns.Name.RoundTrip.{decode_name-encode_name}
use hydra_dns.Dns.Question.{marshal_question}
use hydra_dns.Dns.Record.{parse_record, marshal_record}
use hydra_dns.Dns.Packet.{parse_packet, marshal_packet}
use hydra_dns.Dns.Packet.Returned.{Fits, parse_packet-Returns}
use hydra_dns.Dns.Packet.RoundTrip.{parse_packet-marshal_packet, received_packet}
use hydra_dns.Examples.Messages.{
  a_dot_b, a_dot_b_wire, question, question_wire, query, query_wire, address, address_wire,
}

encode_a_dot_b : encode_name a_dot_b ≡ ok a_dot_b_wire
unfolding encode_name hydra_dns.Dns.Name.encode_trimmed trim_dot hydra_dns.Dns.Name.encode_loop
    hydra_dns.Dns.Name.append_label hydra_dns.Dns.Name.any_non_ascii
encode_a_dot_b = refl

-- The root domain has no encoding.
encode_root : encode_name [] ≡ err empty_name
unfolding encode_name
encode_root = refl

-- A label that is a pointer to itself.
decode_self_pointer : decode_name (0xC0 ∷ 0 ∷ []) 0 ≡ err pointer_loop
unfolding decode_name hydra_dns.Dns.Name.decode_name_at hydra_dns.Dns.Name.decode_loop
    hydra_dns.Base.byte_at hydra_dns.Dns.Name.is_compression_pointer
    hydra_dns.Dns.Name.follow_compression_pointer hydra_dns.Base.uint16_at
    hydra_dns.Dns.Name.visited_before
decode_self_pointer = refl

marshal_query : marshal_packet query ≡ ok query_wire
unfolding marshal_packet hydra_dns.Dns.Packet.marshal_all marshal_question encode_name
    hydra_dns.Dns.Name.encode_trimmed trim_dot hydra_dns.Dns.Name.encode_loop
    hydra_dns.Dns.Name.append_label hydra_dns.Dns.Name.any_non_ascii marshal
    hydra_dns.Base.put_uint16 hydra_dns.Dns.Packet.counted_header
    hydra_dns.Convert.clamp_int_to_uint16
marshal_query = refl

marshal_address : marshal_record address ≡ ok address_wire
unfolding marshal_record hydra_dns.Dns.Record.marshal_rdata hydra_dns.Dns.Record.to4
    hydra_dns.Dns.Record.marshal_record_with_rdata hydra_dns.Dns.Record.record_type encode_name
    hydra_dns.Dns.Record.record_header hydra_dns.Dns.Name.encode_trimmed trim_dot
    hydra_dns.Dns.Name.encode_loop hydra_dns.Dns.Name.append_label hydra_dns.Dns.Name.any_non_ascii
    hydra_dns.Base.put_uint16 hydra_dns.Base.put_uint32 hydra_dns.Convert.clamp_int_to_uint16
marshal_address = refl

marshal_question_a : marshal_question question ≡ ok question_wire
unfolding marshal_question encode_name hydra_dns.Dns.Name.encode_trimmed trim_dot
    hydra_dns.Dns.Name.encode_loop hydra_dns.Dns.Name.append_label hydra_dns.Dns.Name.any_non_ascii
    hydra_dns.Base.put_uint16
marshal_question_a = refl

encode_name_iff_example : (encode_name a_dot_b ≡ ok a_dot_b_wire) ↔ (
    (is_empty a_dot_b ≡ false)
    × IsName (trim_dot a_dot_b)
    × (a_dot_b_wire ≡ name_wire (trim_dot a_dot_b)))
encode_name_iff_example = encode_name_iff a_dot_b a_dot_b_wire

decode_name-Returns_example :
    Returns
      (λ r. (12 < r.1) × (r.1 ≤ length query_wire) × All IsAscii r.0)
      (decode_name query_wire 12)
decode_name-Returns_example = decode_name-Returns query_wire 12

decode_name-encode_name_example :
    decode_name (7 ∷ (a_dot_b_wire ++ (9 ∷ []))) 1 ≡ ok (trim_dot a_dot_b, 6)
decode_name-encode_name_example =
    decode_name-encode_name a_dot_b a_dot_b_wire (7 ∷ []) (9 ∷ []) encode_a_dot_b

parse_packet-Returns_example : Returns (Fits query_wire) (parse_packet query_wire)
parse_packet-Returns_example = parse_packet-Returns query_wire

parse_packet-marshal_packet_example :
    parse_packet (query_wire ++ (9 ∷ [])) ≡ ok (received_packet query)
parse_packet-marshal_packet_example =
    parse_packet-marshal_packet query query_wire (9 ∷ [])
      (record {
        id_fits = omega arith;
        flags_fits = omega arith;
        qd_fits = omega arith;
        an_fits = omega arith;
        ns_fits = omega arith;
        ar_fits = omega arith;
        questions_fit = ground arith;
        answers_fit = tt;
        authorities_fit = tt;
        additionals_fit = tt;
      })
      marshal_query
