-- ===== src/Resolvers/Filtered.antt =====
-- internal/resolvers/filtering_resolver.go: the policy in front of another resolver. The state of
-- the resolver is the engine beside the state of the next one.
pub mod Blocked
use hydra_dns.Base.{
  ℕ, [], ◌∷◌, Bool, true, false, not, if◌then◌else◌, ◌==◌, bit_and, bit_or, Result, ok, err, Bytes,
}
use hydra_dns.Dns.Enums.{rcode_nx_domain, opcode_mask, rd_flag, ra_flag, qr_flag}
use hydra_dns.Dns.Packet.{Packet, marshal_packet}
use hydra_dns.Filtering.Policy.{PolicyEngine, evaluate, Action, allow, block, log}
use hydra_dns.Resolvers.Answer.{
  Answer, answered, failed, cannot_marshal, filtered_blocked, Resolver,
}

unfoldable pub build_blocked_flags : ℕ → ℕ
build_blocked_flags req_flags =
    let flags = bit_or qr_flag (bit_and req_flags opcode_mask) in
    let with_rd = bit_or (bit_or flags rd_flag) ra_flag in
    bit_or (if not (bit_and req_flags rd_flag == 0) then with_rd else flags) rcode_nx_domain

unfoldable pub build_blocked_response : Packet → Packet
build_blocked_response req = record {
  header = record {
    id = req.header.id;
    flags = build_blocked_flags req.header.flags;
    qd_count = 0;
    an_count = 0;
    ns_count = 0;
    ar_count = 0;
  };
  questions = req.questions;
  answers = [];
  authorities = [];
  additionals = [];
}

unfoldable pub blocked_answer : Packet → Answer
blocked_answer req = elim (marshal_packet (build_blocked_response req)) [
  | ok b ↦ answered b filtered_blocked
  | err e ↦ failed cannot_marshal
]

unfoldable pub filtering_resolve : {W : Type 0} → Resolver W → Resolver (PolicyEngine × W)
filtering_resolve next req req_bytes (policy, w) = elim req.questions [
  | [] ↦ let (answer, w') = next req req_bytes w in (answer, (policy, w'))
  | q ∷ qs ↦
      let (result, policy') = evaluate q.name policy in
      elim result.action [
        | block ↦ (blocked_answer req, (policy', w))
        | log ↦ let (answer, w') = next req req_bytes w in (answer, (policy', w'))
        | allow ↦ let (answer, w') = next req req_bytes w in (answer, (policy', w'))
      ]
]
