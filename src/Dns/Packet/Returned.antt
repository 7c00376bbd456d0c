-- ===== src/Dns/Packet/Returned.antt =====
-- ParsePacket on any message.
use hydra_dns.Base.{
  ℕ, zero, suc, ◌+◌, ◌*◌, ◌≤◌, ◌≡◌, arith, length, inl, inr, Result, ok, err, Result-cases, Returns,
  Bytes, ◌>>=◌, >>=-eq-ok,
}
use hydra_dns.Dns.Header.{parse_header}
use hydra_dns.Dns.Header.RoundTrip.{parse_header-Returns}
use hydra_dns.Dns.Question.{parse_question}
use hydra_dns.Dns.Question.RoundTrip.{parse_question-Returns}
use hydra_dns.Dns.Record.{parse_record}
use hydra_dns.Dns.Record.Returned.{parse_record-Returns}
use hydra_dns.Dns.Packet.{Packet, parse_many, parse_packet}

Returns-parse_many {ℓ} :
    {A : Type ℓ} (least : ℕ) (parse_one : Bytes → ℕ → Result (A × ℕ)) (msg : Bytes)
    → ((off : ℕ) → Returns (λ r. (off + least ≤ r.1) × (r.1 ≤ length msg)) (parse_one msg off))
    → (count off : ℕ) → off ≤ length msg
    → Returns
        (λ r. (length r.0 ≡ count) × (off + count * least ≤ r.1) × (r.1 ≤ length msg))
        (parse_many parse_one count msg off)
unfolding parse_many
Returns-parse_many least parse_one msg h zero off inside = omega arith
Returns-parse_many least parse_one msg h (suc count) off inside =
    elim (Result-cases (parse_one msg off)) [
      | inl ((x, off'), e) ↦
          grind (arith, e, h off, Returns-parse_many least parse_one msg h count off')
      | inr (why, e) ↦ ground (arith, e, h off)
    ]

-- As many elements as the header counts, each from its own bytes of the message.
abbrev pub Fits : Bytes → Packet → Type 0
Fits msg p =
    (length p.questions ≡ p.header.qd_count)
    × (length p.answers ≡ p.header.an_count)
    × (length p.authorities ≡ p.header.ns_count)
    × (length p.additionals ≡ p.header.ar_count)
    × (12
          + length p.questions * 5
          + (length p.answers + length p.authorities + length p.additionals) * 11
        ≤ length msg)

Returns-bind {ℓ} :
    {A : Type ℓ} {B : Type 0} (P : A → Type 0) (Q : B → Type 0) (m : Result A) (f : A → Result B)
    → Returns P m
    → ((a : A) → P a → Returns Q (f a))
    → Returns Q (m >>= f)
Returns-bind P Q (ok a) f h k = k a h
Returns-bind P Q (err e) f h k = h

-- ParsePacket returns on every message: it never indexes out of range and its loops end. A packet
-- that it returns has in each section as many elements as its header says, and the message is long
-- enough to hold 12 bytes of header, 5 bytes for each question and 11 for each record.
pub parse_packet-Returns : (msg : Bytes) → Returns (Fits msg) (parse_packet msg)
unfolding parse_packet
parse_packet-Returns msg =
    Returns-bind _ (Fits msg) (parse_header msg 0) _ (parse_header-Returns msg 0) λ h a.
      Returns-bind _ (Fits msg) (parse_many parse_question h.0.qd_count msg h.1) _
        (Returns-parse_many 5 parse_question msg (parse_question-Returns msg) _ _ a.1)
        λ qs b.
          Returns-bind _ (Fits msg) (parse_many parse_record h.0.an_count msg qs.1) _
            (records h.0.an_count qs.1 b.2)
            λ an c.
              Returns-bind _ (Fits msg) (parse_many parse_record h.0.ns_count msg an.1) _
                (records h.0.ns_count an.1 c.2)
                λ ns d.
                  Returns-bind _ (Fits msg) (parse_many parse_record h.0.ar_count msg ns.1) _
                    (records h.0.ar_count ns.1 d.2) λ ar e. grind arith
  where
    records :
        (count off : ℕ)
        → off ≤ length msg
        → Returns
            (λ r. (length r.0 ≡ count) × (off + count * 11 ≤ r.1) × (r.1 ≤ length msg))
            (parse_many parse_record count msg off)
    records count off h =
        Returns-parse_many 11 parse_record msg (parse_record-Returns msg) count off h

-- The header of a parsed packet is the one at the front of the message.
pub parse_packet_header :
    (msg : Bytes) (p : Packet) → parse_packet msg ≡ ok p → parse_header msg 0 ≡ ok (p.header, 12)
unfolding parse_packet
parse_packet_header msg p e =
    let ((h, off), a, e1) = >>=-eq-ok (parse_header msg 0) _ e in
    let (qs, b, e2) = >>=-eq-ok (parse_many parse_question h.qd_count msg off) _ e1 in
    let (an, c, e3) = >>=-eq-ok (parse_many parse_record h.an_count msg qs.1) _ e2 in
    let (ns, d, e4) = >>=-eq-ok (parse_many parse_record h.ns_count msg an.1) _ e3 in
    let (ar, f, e5) = >>=-eq-ok (parse_many parse_record h.ar_count msg ns.1) _ e4 in
    ground (arith, a, e5, parse_header-Returns msg 0)
