-- ===== src/Server/Truncate/Skip.antt =====
-- Skipping names and questions on any message.
use hydra_dns.Base.{
  ℕ, zero, suc, ◌+◌, ◌≤◌, ◌<◌, arith, length, get_or, inl, inr, Result-cases, Succeeds,
  Succeeds-value, Bytes, byte_at_lem,
}
use hydra_dns.Server.Truncate.{skip_qname_loop, skip_qname, question_section_loop}

-- Skipping a name ends, and stays between where it began and the end of the message.
Succeeds-skip_qname_loop :
    (fuel : ℕ) (msg : Bytes) (at : ℕ)
    → length msg < fuel + at
    → at ≤ length msg
    → Succeeds (λ r. (at ≤ r) × (r ≤ length msg)) (skip_qname_loop fuel msg at)
unfolding skip_qname_loop
Succeeds-skip_qname_loop zero msg at h inside = absurd (omega arith)
Succeeds-skip_qname_loop (suc fuel) msg at h inside =
    let len = get_or msg at 0 in
    let next = skip_qname_loop fuel msg (at + 1 + len) in
    elim (Result-cases next) [
      | inl (r, e) ↦ ground (
        arith,
        byte_at_lem msg at,
        e,
        λ (room : at + 1 + len ≤ length msg).
            Succeeds-skip_qname_loop fuel msg (at + 1 + len) (omega arith) room,
      )
      | inr (why, e) ↦ ground (
        arith,
        byte_at_lem msg at,
        e,
        λ (room : at + 1 + len ≤ length msg).
            Succeeds-skip_qname_loop fuel msg (at + 1 + len) (omega arith) room,
      )
    ]

pub Succeeds-question_section_loop :
    (count : ℕ) (msg : Bytes) (at : ℕ)
    → at ≤ length msg
    → Succeeds (λ r. (at ≤ r) × (r ≤ length msg)) (question_section_loop count msg at)
unfolding question_section_loop skip_qname
Succeeds-question_section_loop zero msg at inside = omega arith
Succeeds-question_section_loop (suc count) msg at inside =
    let skipped = Succeeds-skip_qname_loop (suc (length msg)) msg at (omega arith) inside in
    let (at', e, a) = Succeeds-value (λ r. (at ≤ r) × (r ≤ length msg)) _ skipped in
    ground (
      arith,
      e,
      a,
      λ (room : at' + 4 ≤ length msg). Succeeds-question_section_loop count msg (at' + 4) room,
    )
