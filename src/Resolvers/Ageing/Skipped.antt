-- ===== src/Resolvers/Ageing/Skipped.antt =====
-- Where the offset goes over questions and RDATA.
use hydra_dns.Base.{
  ℕ, zero, suc, ◌+◌, ◌≤◌, arith, ltb, length, Option, none, some, Bool-cases, Option-cases, inl,
  inr, Result-cases, Succeeds, Bytes, uint16_at_lem,
}
use hydra_dns.Dns.Name.{decode_name}
use hydra_dns.Dns.Name.Decode.{decode_name-Returns}
use hydra_dns.Resolvers.Ageing.{skip_question, skip_questions, skip_rdata}

-- The next offset lies in the bytes, and not before the last one.
abbrev pub Advances : Bytes → ℕ → Option ℕ → Type 0
Advances b off none = Unit {0}
Advances b off (some next) = (off ≤ next) × (next ≤ length b)

skip_question-Advances : (b : Bytes) (off : ℕ) → Advances b off (skip_question b off)
unfolding skip_question
skip_question-Advances b off = elim (Result-cases (decode_name b off)) [
  | inr (e, h) ↦ rw (skip_question, h) tt
  | inl ((name, off'), h) ↦
      ground (arith, h, decode_name-Returns b off, Bool-cases (ltb (length b) (off' + 4)))
]

pub skip_questions-Advances :
    (n : ℕ) (b : Bytes) (off : ℕ) → off ≤ length b → Advances b off (skip_questions n b off)
unfolding skip_questions
skip_questions-Advances zero b off h = omega arith
skip_questions-Advances (suc n) b off h = elim (Option-cases (skip_question b off)) [
  | inl e ↦ rw (skip_questions, e) tt
  | inr (off', e) ↦
      let first = rw e at (skip_question-Advances b off) in
      let rest = skip_questions-Advances n b off' first.1 in
      elim (Option-cases (skip_questions n b off')) [
        | inl none' ↦ rw (skip_questions, e, none') tt
        | inr (last, found) ↦
            rw (skip_questions, e, found) (ground (arith, first, rw found at rest))
      ]
]

pub skip_rdata-Advances : (b : Bytes) (off : ℕ) → Succeeds (Advances b off) (skip_rdata b off)
unfolding skip_rdata
skip_rdata-Advances b off = elim (Bool-cases (ltb (length b) (off + 2))) [
  | inl short ↦ rw short tt
  | inr enough ↦
      let inside : off + 2 ≤ length b = ground (arith, enough) in
      rw (enough, uint16_at_lem b off inside) (ground arith)
]
