-- ===== src/Dns/Request.antt =====
-- internal/dns/parsing.go: bounded parsing of requests, and error responses.
pub mod Bounds
pub mod Response
use hydra_dns.Base.{
  ℕ, ◌+◌, ◌/◌, [], Bool, true, false, not, ◌||◌, ltb, ◌==◌, if◌then◌else◌, length, Result, ok,
  ◌>>=◌, ◌>>◌, fail_if, Bytes, bit_and, bit_or, bit_clear16, message_too_large, qr_set, bad_opcode,
  too_many_questions, bad_question_count, too_many_records, too_many_total_records,
}
use hydra_dns.Base.Int.{pos}
use hydra_dns.Convert.{clamp_int_to_uint16}
use hydra_dns.Dns.Enums.{qr_flag, opcode_mask, rd_flag, rcode_mask}
use hydra_dns.Dns.Header.{Header}
use hydra_dns.Dns.Packet.{Packet, parse_packet}

abbrev pub max_incoming_dns_message_size : ℕ
max_incoming_dns_message_size = 4096

abbrev pub max_questions : ℕ
max_questions = 4

abbrev pub max_rr_per_section : ℕ
max_rr_per_section = 100

abbrev pub max_total_rr : ℕ
max_total_rr = 200

unfoldable pub is_response_flags : ℕ → Bool
is_response_flags flags = not (bit_and flags qr_flag == 0)

-- `>> 11`
unfoldable pub extract_opcode : ℕ → ℕ
extract_opcode flags = bit_and flags opcode_mask / 2048

unfoldable pub validate_section_counts : Header → Result (Unit {0})
validate_section_counts h = do
  fail_if (ltb max_questions h.qd_count) too_many_questions
  fail_if (not (h.qd_count == 1)) bad_question_count
  fail_if
      (ltb max_rr_per_section h.an_count
        || (ltb max_rr_per_section h.ns_count || ltb max_rr_per_section h.ar_count))
      too_many_records
  fail_if (ltb max_total_rr (h.an_count + h.ns_count + h.ar_count)) too_many_total_records
  ok tt

unfoldable pub parse_request_bounded : Bytes → Result Packet
parse_request_bounded msg = do
  fail_if (ltb max_incoming_dns_message_size (length msg)) message_too_large
  p ← parse_packet msg
  fail_if (is_response_flags p.header.flags) qr_set
  let opcode = extract_opcode p.header.flags
  fail_if (not (opcode == 0)) (bad_opcode opcode)
  validate_section_counts p.header
  ok p

unfoldable pub build_response_flags : ℕ → ℕ → ℕ
unfolding bit_clear16
build_response_flags req_flags rcode =
    let flags = bit_or qr_flag (bit_and req_flags rd_flag) in
    bit_or (bit_clear16 flags rcode_mask) (bit_and rcode rcode_mask)

unfoldable pub build_error_response : Packet → ℕ → Packet
build_error_response req rcode = record {
  header = record {
    id = req.header.id;
    flags = build_response_flags req.header.flags rcode;
    qd_count = clamp_int_to_uint16 (pos (length req.questions));
    an_count = 0;
    ns_count = 0;
    ar_count = 0;
  };
  questions = req.questions;
  answers = [];
  authorities = [];
  additionals = [];
}
