-- ===== src/Resolvers/Filtered/Blocked.antt =====
-- What the filtering resolver answers.
use hydra_dns.Base.{
  ℕ, ◌+◌, ◌*◌, ◌/◌, ◌%◌, ◌<◌, ◌≤◌, ◌≡◌, refl, arith, ◌∷◌, List, Bool, true, false, if◌then◌else◌,
  ok, err, Bytes, IsU16, length, agree_on_words, agree_on_words→eq, Result,
}
use hydra_dns.Convert.{clamp_int_to_uint16_small}
use hydra_dns.Dns.Enums.{rcode_nx_domain}
use hydra_dns.Dns.Header.{Header, IsValid, parse_header}
use hydra_dns.Dns.Question.{Question}
use hydra_dns.Dns.Packet.{Packet, marshal_packet, counted_header}
use hydra_dns.Dns.Packet.Front.{parse_header-marshal_packet}
use hydra_dns.Filtering.Policy.{PolicyEngine, evaluate, block, allow}
use hydra_dns.Resolvers.Answer.{
  answered, failed, cannot_marshal, filtered_blocked, Origin, Resolver,
}
use hydra_dns.Resolvers.Filtered.{
  build_blocked_flags, build_blocked_response, blocked_answer, filtering_resolve,
}

-- QR set, the request's opcode, RD and RA exactly if the request has RD, NXDOMAIN.
build_blocked_flags_lem :
    (f : ℕ)
    → f < 65536
    → build_blocked_flags f ≡ 32768 + f / 2048 % 16 * 2048 + f / 256 % 2 * 384 + 3
unfolding agree_on_words build_blocked_flags
build_blocked_flags_lem = agree_on_words→eq _ _ refl

-- The header of a blocked response to a request with this header, with so many questions.
unfoldable pub blocked_header : Header → ℕ → Header
blocked_header h questions = record {
  id = h.id;
  flags = 32768 + h.flags / 2048 % 16 * 2048 + h.flags / 256 % 2 * 384 + rcode_nx_domain;
  qd_count = questions;
  an_count = 0;
  ns_count = 0;
  ar_count = 0;
}

counted_header-blocked :
    (req : Packet)
    → IsU16 req.header.flags
    → length req.questions ≤ 65535
    → counted_header (build_blocked_response req) ≡ blocked_header req.header (length req.questions)
unfolding counted_header build_blocked_response blocked_header
counted_header-blocked req f n =
    rw
      (
        build_blocked_flags_lem req.header.flags f,
        clamp_int_to_uint16_small (length req.questions) n,
        clamp_int_to_uint16_small 0 (omega arith),
      )
      refl

blocked_header-IsValid :
    (h : Header) (questions : ℕ)
    → IsU16 h.id
    → questions ≤ 65535
    → IsValid (blocked_header h questions)
unfolding blocked_header
blocked_header-IsValid h questions i n = record {
  id_fits = i;
  flags_fits = omega arith;
  qd_fits = omega arith;
  an_fits = omega arith;
  ns_fits = omega arith;
  ar_fits = omega arith;
}

-- For a request of 16-bit id and flags with at most 65535 questions, a blocked answer that is sent
-- has the request's id, QR set, the request's opcode, RD and RA exactly if the request has RD, the
-- code NXDOMAIN, the request's number of questions and no records.
pub parse_header-blocked_answer :
    (req : Packet) (out : Bytes) (origin : Origin)
    → IsU16 req.header.id
    → IsU16 req.header.flags
    → length req.questions ≤ 65535
    → blocked_answer req ≡ answered out origin
    → parse_header out 0 ≡ ok (blocked_header req.header (length req.questions), 12)
unfolding blocked_answer
parse_header-blocked_answer req out origin i f n e =
    let counted = counted_header-blocked req f n in
    let valid = blocked_header-IsValid req.header (length req.questions) i n in
    rw counted at (
      parse_header-marshal_packet (build_blocked_response req) out (rw counted valid)
        (marshalled (marshal_packet (build_blocked_response req)) e))
  where
    marshalled :
        (r : Result Bytes)
        → elim r [ ok b ↦ answered b filtered_blocked | err e ↦ failed cannot_marshal ]
          ≡ answered out origin
        → r ≡ ok out
    marshalled (ok b) e = ground (arith, e)
    marshalled (err why) e = ground (arith, e)

-- In front of any resolver: a request with a question whose name the policy blocks gets the blocked
-- answer and the next resolver is not asked, so that its state stays; one whose name it allows gets
-- what the next resolver answers, and leaves that resolver's state as it leaves it. The policy has
-- evaluated the name once.
pub filtering_resolve-evaluate :
    {W : Type 0} (next : Resolver W) (policy : PolicyEngine) (req : Packet) (req_bytes : Bytes)
    (w : W) (q : Question) (qs : List Question) (blocked : Bool)
    → req.questions ≡ q ∷ qs
    → (evaluate q.name policy).0.action ≡ (if blocked then block else allow)
    → (let r = filtering_resolve next req req_bytes (policy, w) in
        (r.0 ≡ (if blocked then blocked_answer req else (next req req_bytes w).0))
        × (r.1.0 ≡ (evaluate q.name policy).1)
        × (r.1.1 ≡ (if blocked then w else (next req req_bytes w).1)))
unfolding filtering_resolve
filtering_resolve-evaluate next policy req req_bytes w q qs true e acts =
    simp (filtering_resolve, e, acts) (refl, refl, refl)
filtering_resolve-evaluate next policy req req_bytes w q qs false e acts =
    simp (filtering_resolve, e, acts) (refl, refl, refl)
