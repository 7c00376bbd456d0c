-- ===== src/Dns/Request/Bounds.antt =====
-- What ParseRequestBounded lets through.
use hydra_dns.Base.{
  ℕ, ◌+◌, ◌*◌, ◌/◌, ◌%◌, ◌≤◌, ◌<◌, ◌≡◌, ◌↔◌, refl, arith, length, inl, inr, ok, Result-cases,
  Returns, Returns-eq, Bytes, false, bit_and, agree_on_words, agree_on_words→eq, IsU16, IsByte, All,
}
use hydra_dns.Dns.Enums.{qr_flag, opcode_mask}
use hydra_dns.Dns.Header
use hydra_dns.Dns.Header.{Header, parse_header}
use hydra_dns.Dns.Header.RoundTrip.{parse_header-IsValid}
use hydra_dns.Dns.Packet.{Packet, parse_packet}
use hydra_dns.Dns.Packet.Returned.{parse_packet-Returns, parse_packet_header}
use hydra_dns.Dns.Request.{
  is_response_flags, extract_opcode, validate_section_counts, parse_request_bounded,
}

pub and_qr : (x : ℕ) → x < 65536 → bit_and x qr_flag ≡ x / 32768 * 32768
unfolding agree_on_words
and_qr = agree_on_words→eq _ _ refl

pub and_opcode : (x : ℕ) → x < 65536 → bit_and x opcode_mask ≡ x / 2048 % 16 * 2048
unfolding agree_on_words
and_opcode = agree_on_words→eq _ _ refl

-- A standard query: QR and opcode, the top five bits of the flags, are zero.
abbrev pub IsAdmissible : Header → Type 0
IsAdmissible h =
    (h.flags < 2048)
    × (h.qd_count ≡ 1)
    × (h.an_count ≤ 100)
    × (h.ns_count ≤ 100)
    × (h.ar_count ≤ 100)
    × (h.an_count + h.ns_count + h.ar_count ≤ 200)

validate_section_counts_iff :
    (h : Header)
    → (validate_section_counts h ≡ ok tt) ↔ (
        (h.qd_count ≡ 1)
        × (h.an_count ≤ 100)
        × (h.ns_count ≤ 100)
        × (h.ar_count ≤ 100)
        × (h.an_count + h.ns_count + h.ar_count ≤ 200))
unfolding validate_section_counts
validate_section_counts_iff h = ground arith

flags_iff :
    (f : ℕ) → IsU16 f → ((is_response_flags f ≡ false) × (extract_opcode f ≡ 0)) ↔ (f < 2048)
unfolding is_response_flags extract_opcode
flags_iff f fits = ground (arith, and_qr f fits, and_opcode f fits)

-- The flags of a packet parsed from bytes are a word.
pub parse_packet-IsU16 :
    (msg : Bytes) (p : Packet) → All IsByte msg → parse_packet msg ≡ ok p → IsU16 p.header.flags
parse_packet-IsU16 msg p bytes e =
    (Returns-eq (λ r. Header.IsValid r.0) (parse_header msg 0) (p.header, 12)
      (parse_header-IsValid msg 0 bytes) (parse_packet_header msg p e)).flags_fits

-- On bytes, ParseRequestBounded accepts exactly the messages of at most 4096 bytes that ParsePacket
-- accepts and whose header is a standard query: QR and opcode zero, one question, at most 100
-- records in each section and 200 in all. It then answers ParsePacket's packet.
pub parse_request_bounded_iff :
    (msg : Bytes) (p : Packet)
    → All IsByte msg
    → (parse_request_bounded msg ≡ ok p)
      ↔ ((length msg ≤ 4096) × (parse_packet msg ≡ ok p) × IsAdmissible p.header)
unfolding parse_request_bounded
parse_request_bounded_iff msg p bytes = (there, back)
  where
    there :
        parse_request_bounded msg ≡ ok p
        → (length msg ≤ 4096) × (parse_packet msg ≡ ok p) × IsAdmissible p.header
    there e = elim (Result-cases (parse_packet msg)) [
      | inl (q, e') ↦ ground (
        arith,
        e,
        e',
        flags_iff q.header.flags (parse_packet-IsU16 msg q bytes e'),
        validate_section_counts_iff q.header,
      )
      | inr (why, e') ↦ ground (arith, e, e')
    ]

    back :
        (length msg ≤ 4096) × (parse_packet msg ≡ ok p) × IsAdmissible p.header
        → parse_request_bounded msg ≡ ok p
    back h = ground (
      arith,
      h,
      flags_iff p.header.flags (parse_packet-IsU16 msg p bytes h.1),
      validate_section_counts_iff p.header,
    )

Returns-validate_section_counts :
    (h : Header) → Returns (λ u. h.qd_count ≡ 1) (validate_section_counts h)
unfolding validate_section_counts
Returns-validate_section_counts h = ground arith

-- ParseRequestBounded returns on every message. A packet that it accepts has exactly one question
-- and as many records in each section as its header says.
pub parse_request_bounded-Returns :
    (msg : Bytes)
    → Returns
        (λ p.
          (length p.questions ≡ 1)
          × (length p.answers ≡ p.header.an_count)
          × (length p.authorities ≡ p.header.ns_count)
          × (length p.additionals ≡ p.header.ar_count))
        (parse_request_bounded msg)
unfolding parse_request_bounded
parse_request_bounded-Returns msg = elim (Result-cases (parse_packet msg)) [
  | inl (q, e) ↦
      ground (arith, e, parse_packet-Returns msg, Returns-validate_section_counts q.header)
  | inr (why, e) ↦ ground (arith, e, parse_packet-Returns msg)
]
