-- ===== src/Resolvers/Custom/Answers.antt =====
-- What a client reads from an answer to an address query.
use hydra_dns.Base.{
  ℕ, ◌≤◌, ◌≡◌, refl, sym, ap, ◌∙◌, arith, [], ◌∷◌, append-nil, List, map, All, Bool-cases,
  List-cases, Option-cases, inl, inr, none, some, Result, ok, err, length, Bytes, IsU16, false,
  ◌==◌, if◌then◌else◌,
}
use hydra_dns.Dns.Question.{Question}
use hydra_dns.Dns.Question.RoundTrip.{received_question}
use hydra_dns.Convert.{clamp_int_to_uint16_small}
use hydra_dns.Dns.Name.{to_lower, trim_dot}
use hydra_dns.Dns.Record.{Record, ip_record, ip_type, to4, record_header}
use hydra_dns.Dns.Record.Written.{
  IsRecord, received_addr, received_owner, received_header, received_record,
}
use hydra_dns.Dns.Packet.{Packet, marshal_packet, parse_packet, counted_header}
use hydra_dns.Dns.Packet.RoundTrip.{received_packet, IsPacket, parse_packet-marshal_packet}
use hydra_dns.Resolvers.Answer.{answered, failed, cannot_marshal, custom_dns, Origin}
use hydra_dns.Base.Table.{table_get}
use hydra_dns.Resolvers.Custom.{
  Addr, v4, v6, CustomDnsResolver, normalize_host, matches_query_type, matching_records,
  custom_packet, send, build_address_response, custom_resolve,
}

matching_records-IsRecord :
    (name : Bytes) (class qtype : ℕ) (addrs : List Addr)
    → IsU16 class
    → All IsRecord (matching_records name class qtype addrs)
unfolding matching_records record_header
matching_records-IsRecord name class qtype [] c = tt
matching_records-IsRecord name class qtype (a ∷ addrs) c =
    let rest = matching_records-IsRecord name class qtype addrs c in
    elim (Bool-cases (matches_query_type a qtype)) [
      | inl e ↦ rw e (record { class_fits = c; ttl_fits = omega arith; type_fits = tt }, rest)
      | inr e ↦ rw e rest
    ]

length-matching_records :
    (name : Bytes) (class qtype : ℕ) (addrs : List Addr)
    → length (matching_records name class qtype addrs) ≤ length addrs
unfolding matching_records
length-matching_records name class qtype [] = omega arith
length-matching_records name class qtype (a ∷ addrs) =
    ground (
      arith,
      length-matching_records name class qtype addrs,
      Bool-cases (matches_query_type a qtype),
    )

custom_packet-IsPacket :
    (req : Packet) (q : Question) (addrs : List Addr)
    → IsU16 req.header.id
    → IsU16 q.type
    → IsU16 q.class
    → length addrs ≤ 65535
    → IsPacket (custom_packet req q (matching_records q.name q.class q.type addrs) [])
unfolding custom_packet
custom_packet-IsPacket req q addrs i t c n = record {
  id_fits = i;
  flags_fits = omega arith;
  qd_fits = omega arith;
  an_fits = omega (arith, n, length-matching_records q.name q.class q.type addrs);
  ns_fits = omega arith;
  ar_fits = omega arith;
  questions_fit = ((t, c), tt);
  answers_fit = matching_records-IsRecord q.name q.class q.type addrs c;
  authorities_fit = tt;
  additionals_fit = tt;
}

sent-parsed :
    (p : Packet) (out : Bytes) (o : Origin)
    → IsPacket p
    → send p ≡ answered out o
    → parse_packet out ≡ ok (received_packet p)
unfolding send
sent-parsed p out o v e =
    let round = parse_packet-marshal_packet p out [] v (marshalled (marshal_packet p) e) in
    rw append-nil at round
  where
    marshalled :
        (r : Result Bytes)
        → elim r [ ok b ↦ answered b custom_dns | err e ↦ failed cannot_marshal ] ≡ answered out o
        → r ≡ ok out
    marshalled (ok b) e = ground (arith, e)
    marshalled (err why) e = ground (arith, e)

-- An address as a client reads it: an IPv4-mapped one is read in its 4 bytes, as an A record.
unfoldable pub address_record : Bytes → ℕ → Bytes → Record
address_record name class addr =
    ip_record (record { name = trim_dot name; class = class; ttl = 3600 }) (received_addr addr)

-- The addresses of the asked family: those of IPv4 for the type 1 and those of IPv6 for 28.
unfoldable pub family_answers : Bytes → ℕ → ℕ → List Addr → List Record
unfolding address_record
family_answers name class qtype [] = []
family_answers name class qtype (v4 b ∷ addrs) =
    let rest = family_answers name class qtype addrs in
    if qtype == 1 then address_record name class b ∷ rest else rest
family_answers name class qtype (v6 b ∷ addrs) =
    let rest = family_answers name class qtype addrs in
    if qtype == 28 then address_record name class b ∷ rest else rest

-- The packet that a client reads: 0x8400 are QR and AA.
unfoldable pub answer_packet : Packet → Question → List Addr → Packet
unfolding family_answers
answer_packet req q addrs = record {
  header = record {
    id = req.header.id;
    flags = 0x8400;
    qd_count = 1;
    an_count = length (family_answers q.name q.class q.type addrs);
    ns_count = 0;
    ar_count = 0;
  };
  questions = record q { name = to_lower (trim_dot q.name) } ∷ [];
  answers = family_answers q.name q.class q.type addrs;
  authorities = [];
  additionals = [];
}

address_record_lem :
    (name : Bytes) (class : ℕ) (b : Bytes)
    → received_record (ip_record (record { name = name; class = class; ttl = 3600 }) b)
      ≡ address_record name class b
unfolding received_record address_record received_header received_owner ip_type
address_record_lem name class b = elim (Option-cases (to4 b)) [
  | inl e ↦ rw (address_record, received_record, ip_type, e) refl
  | inr (a, e) ↦ rw (address_record, received_record, ip_type, e) refl
]

received-matching_records :
    (name : Bytes) (class qtype : ℕ) (addrs : List Addr)
    → map received_record (matching_records name class qtype addrs)
      ≡ family_answers name class qtype addrs
unfolding matching_records matches_query_type family_answers
received-matching_records name class qtype [] = refl
received-matching_records name class qtype (v4 b ∷ addrs) =
    let rest = received-matching_records name class qtype addrs in
    elim (Bool-cases (qtype == 1)) [
      | inl e ↦ rw (e, address_record_lem name class b, rest) refl
      | inr e ↦ rw (e, rest) refl
    ]
received-matching_records name class qtype (v6 b ∷ addrs) =
    let rest = received-matching_records name class qtype addrs in
    elim (Bool-cases (qtype == 28)) [
      | inl e ↦
          let not_four : (qtype == 1) ≡ false = ground (arith, e) in
          rw (not_four, e, address_record_lem name class b, rest) refl
      | inr e ↦ elim (Bool-cases (qtype == 1)) [
        | inl four ↦ rw (four, e, rest) refl
        | inr other ↦ rw (other, e, rest) refl
      ]
    ]

length-family_answers :
    (name : Bytes) (class qtype : ℕ) (addrs : List Addr)
    → length (family_answers name class qtype addrs) ≤ length addrs
unfolding family_answers
length-family_answers name class qtype [] = omega arith
length-family_answers name class qtype (v4 b ∷ addrs) =
    ground (arith, length-family_answers name class qtype addrs)
length-family_answers name class qtype (v6 b ∷ addrs) =
    ground (arith, length-family_answers name class qtype addrs)

length-map-received : (rs : List Record) → length (map received_record rs) ≡ length rs
length-map-received [] = refl
length-map-received (r ∷ rs) = omega (arith, length-map-received rs)

received-custom_packet :
    (req : Packet) (q : Question) (addrs : List Addr)
    → length addrs ≤ 65535
    → received_packet (custom_packet req q (matching_records q.name q.class q.type addrs) [])
      ≡ answer_packet req q addrs
unfolding received_packet counted_header custom_packet answer_packet received_question
received-custom_packet req q addrs n =
    let answers = received-matching_records q.name q.class q.type addrs in
    let fits = length-family_answers q.name q.class q.type addrs in
    let count : length (matching_records q.name q.class q.type addrs)
        ≡ length (family_answers q.name q.class q.type addrs) =
      sym (length-map-received (matching_records q.name q.class q.type addrs))
      ∙ ap length answers in
    rw
      (
        answers,
        count,
        clamp_int_to_uint16_small (length (family_answers q.name q.class q.type addrs))
            (omega (arith, n, fits)),
        clamp_int_to_uint16_small 0 (omega arith),
        clamp_int_to_uint16_small 1 (omega arith),
      )
      refl

-- For a request with 16-bit words whose first question's name has addresses in the configuration, at
-- most 65535 of them, and no alias: an answer of the custom resolver parses, to a packet with the
-- request's id, the flags QR and AA, that question, and in the answers the addresses of the asked
-- family, in the order of the configuration, under the name that was asked and with a TTL of 3600;
-- an IPv4-mapped address is read in its 4 bytes.
pub custom_resolve-parsed :
    (r : CustomDnsResolver) (req : Packet) (q : Question) (qs : List Question) (addrs : List Addr)
    (out : Bytes) (o : Origin)
    → req.questions ≡ q ∷ qs
    → table_get (normalize_host q.name) r.cnames ≡ none
    → table_get (normalize_host q.name) r.hosts ≡ some addrs
    → IsU16 req.header.id
    → IsU16 q.type
    → IsU16 q.class
    → length addrs ≤ 65535
    → custom_resolve r req ≡ answered out o
    → parse_packet out ≡ ok (answer_packet req q addrs)
unfolding custom_resolve build_address_response
custom_resolve-parsed r req q qs addrs out o asked plain known i t c n e =
    let valid = custom_packet-IsPacket req q addrs i t c n in
    let step : custom_resolve r req ≡ build_address_response req q addrs =
      simp (custom_resolve, asked, plain, known) in
    elim (List-cases (matching_records q.name q.class q.type addrs)) [
      | inl empty ↦ absurd (ground (arith, rw (build_address_response, empty) at (sym step ∙ e)))
      | inr (a, rest, found) ↦
          let sent : send (custom_packet req q (a ∷ rest) []) ≡ answered out o =
            rw (build_address_response, found) at (sym step ∙ e) in
          sent-parsed _ out o valid (rw found sent) ∙ ap ok (received-custom_packet req q addrs n)
    ]
