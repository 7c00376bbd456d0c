-- ===== src/Dns/Packet/RoundTrip.antt =====
-- ParsePacket reads back what Packet.Marshal wrote.
use hydra_dns.Base.{
  ℕ, ◌+◌, ◌≤◌, ◌≡◌, refl, sym, ap, [], ◌∷◌, ◌++◌, List, map, append_assoc, arith, length,
  length-append, All, Result, ok, >>=-eq-ok, Bytes, IsU16,
}
use hydra_dns.Convert.{clamp_int_to_uint16_small}
use hydra_dns.Dns.Header.{Header, marshal, parse_header}
use hydra_dns.Dns.Header
use hydra_dns.Dns.Header.RoundTrip.{parse_header-marshal, length-marshal}
use hydra_dns.Dns.Question.{Question, marshal_question, parse_question}
use hydra_dns.Dns.Question.RoundTrip.{
  IsQuestion, received_question, parse_question-marshal_question,
}
use hydra_dns.Dns.Record.{Record, marshal_record, parse_record}
use hydra_dns.Dns.Record.Written.{IsRecord, received_record}
use hydra_dns.Dns.Record.RoundTrip.{parse_record-marshal_record}
use hydra_dns.Dns.Packet.{
  Packet, marshal_all, counted_header, marshal_packet, parse_many, parse_packet,
}

-- Whatever reads back one element reads back a section.
parse_many-marshal_all {ℓ} :
    {A : Type ℓ} (IsOne : A → Type 0) (received : A → A) (marshal_one : A → Result Bytes)
    (parse_one : Bytes → ℕ → Result (A × ℕ))
    → ((x : A) (w pre post : Bytes)
        → IsOne x
        → marshal_one x ≡ ok w
        → parse_one (pre ++ (w ++ post)) (length pre) ≡ ok (received x, length pre + length w))
    → (xs : List A) (w pre post : Bytes) → All IsOne xs
    → marshal_all marshal_one xs ≡ ok w
    → parse_many parse_one (length xs) (pre ++ (w ++ post)) (length pre)
      ≡ ok (map received xs, length pre + length w)
unfolding parse_many marshal_all
parse_many-marshal_all IsOne received marshal_one parse_one one [] w pre post v h = ground arith
parse_many-marshal_all IsOne received marshal_one parse_one one (x ∷ xs) w pre post v h =
    let (b, e, h') = >>=-eq-ok (marshal_one x) _ h in
    let (bs, e', h'') = >>=-eq-ok (marshal_all marshal_one xs) _ h' in
    let written : b ++ bs ≡ w = ground (arith, h'') in
    let first = one x b pre (bs ++ post) v.0 e in
    let rest =
      rw (append_assoc pre b (bs ++ post), length-append pre b) at
        (parse_many-marshal_all IsOne received marshal_one parse_one one xs bs (pre ++ b) post v.1
          e') in
    rw (← written, append_assoc b bs post, first, rest)
      (ap ok (λ i. (received x ∷ map received xs, total b bs i)))
  where
    total : (b bs : Bytes) → length pre + length b + length bs ≡ length pre + length (b ++ bs)
    total b bs = omega (arith, length-append b bs)

-- What the receiver of a packet sees.
unfoldable pub received_packet : Packet → Packet
received_packet p = record {
  header = counted_header p;
  questions = map received_question p.questions;
  answers = map received_record p.answers;
  authorities = map received_record p.authorities;
  additionals = map received_record p.additionals;
}

-- Words in range, sections that the 16-bit counts can count, and elements in range.
pub record IsPacket (p : Packet) : Type 0 where
  pub id_fits : IsU16 p.header.id
  pub flags_fits : IsU16 p.header.flags
  pub qd_fits : length p.questions ≤ 65535
  pub an_fits : length p.answers ≤ 65535
  pub ns_fits : length p.authorities ≤ 65535
  pub ar_fits : length p.additionals ≤ 65535
  pub questions_fit : All IsQuestion p.questions
  pub answers_fit : All IsRecord p.answers
  pub authorities_fit : All IsRecord p.authorities
  pub additionals_fit : All IsRecord p.additionals

counted_header-IsValid : (p : Packet) → IsPacket p → Header.IsValid (counted_header p)
unfolding counted_header
counted_header-IsValid p v = record {
  id_fits = v.id_fits;
  flags_fits = v.flags_fits;
  qd_fits = omega (arith, clamp_int_to_uint16_small (length p.questions) v.qd_fits);
  an_fits = omega (arith, clamp_int_to_uint16_small (length p.answers) v.an_fits);
  ns_fits = omega (arith, clamp_int_to_uint16_small (length p.authorities) v.ns_fits);
  ar_fits = omega (arith, clamp_int_to_uint16_small (length p.additionals) v.ar_fits);
}

-- ParsePacket from the results of its steps.
parse_packet_steps :
    (msg : Bytes) (h : Header) (off off1 off2 off3 off4 : ℕ) (qs : List Question)
    (an ns ar : List Record)
    → parse_header msg 0 ≡ ok (h, off)
    → parse_many parse_question h.qd_count msg off ≡ ok (qs, off1)
    → parse_many parse_record h.an_count msg off1 ≡ ok (an, off2)
    → parse_many parse_record h.ns_count msg off2 ≡ ok (ns, off3)
    → parse_many parse_record h.ar_count msg off3 ≡ ok (ar, off4)
    → parse_packet msg
      ≡ ok (record { header = h; questions = qs; answers = an; authorities = ns; additionals = ar })
unfolding parse_packet
parse_packet_steps msg h off off1 off2 off3 off4 qs an ns ar a b c d e = rw (a, b, c, d, e)

-- A section read where it stands, behind what has been read.
section_here {ℓ} :
    {A : Type ℓ} (parse_one : Bytes → ℕ → Result (A × ℕ)) (xs ys : List A) (count : ℕ)
    (pre w post msg : Bytes) (off : ℕ)
    → parse_many parse_one (length xs) (pre ++ (w ++ post)) (length pre)
      ≡ ok (ys, length pre + length w)
    → count ≡ length xs
    → msg ≡ pre ++ (w ++ post)
    → off ≡ length pre
    → parse_many parse_one count msg off ≡ ok (ys, off + length w)
section_here parse_one xs ys count pre w post msg off h e m o = rw (e, m, o) h

-- The sections of a successful Packet.Marshal.
pub marshal_packet_parts :
    (p : Packet) (w : Bytes)
    → marshal_packet p ≡ ok w
    → (qs : Bytes) × (an : Bytes) × (ns : Bytes) × (ar : Bytes) × (marshal_all marshal_question
          p.questions
        ≡ ok qs)
      × (marshal_all marshal_record p.answers ≡ ok an)
      × (marshal_all marshal_record p.authorities ≡ ok ns)
      × (marshal_all marshal_record p.additionals ≡ ok ar)
      × (marshal (counted_header p) ++ (qs ++ (an ++ (ns ++ ar))) ≡ w)
unfolding marshal_packet
marshal_packet_parts p w m =
    let (qs, a, m1) = >>=-eq-ok (marshal_all marshal_question p.questions) _ m in
    let (an, b, m2) = >>=-eq-ok (marshal_all marshal_record p.answers) _ m1 in
    let (ns, c, m3) = >>=-eq-ok (marshal_all marshal_record p.authorities) _ m2 in
    let (ar, d, m4) = >>=-eq-ok (marshal_all marshal_record p.additionals) _ m3 in
    (qs, an, ns, ar, a, b, c, d, ground (arith, m4))

module _ (p : Packet) (qs an ns ar post : Bytes) where
  head : Bytes
  head = marshal (counted_header p)

  message : Bytes
  message = head ++ (qs ++ (an ++ (ns ++ (ar ++ post))))

  sections_read :
      IsPacket p
      → marshal_all marshal_question p.questions ≡ ok qs
      → marshal_all marshal_record p.answers ≡ ok an
      → marshal_all marshal_record p.authorities ≡ ok ns
      → marshal_all marshal_record p.additionals ≡ ok ar
      → parse_packet message ≡ ok (received_packet p)
  unfolding message head received_packet counted_header
  sections_read v a b c d =
      parse_packet_steps message (counted_header p) 12 _ _ _ _ _ _ _ _
        (parse_header-marshal (counted_header p) [] _ (counted_header-IsValid p v))
        (section_here parse_question p.questions _ _ head qs _ message 12
          (questions head (an ++ (ns ++ (ar ++ post))) a) (clamp_int_to_uint16_small _ v.qd_fits)
          refl twelve)
        (section_here parse_record p.answers _ _ (head ++ qs) an _ message (12 + length qs)
          (records p.answers an (head ++ qs) (ns ++ (ar ++ post)) v.answers_fit b)
          (clamp_int_to_uint16_small _ v.an_fits) (simp append_assoc) after_qs)
        (section_here parse_record p.authorities _ _ ((head ++ qs) ++ an) ns _ message
          (12 + length qs + length an)
          (records p.authorities ns ((head ++ qs) ++ an) (ar ++ post) v.authorities_fit c)
          (clamp_int_to_uint16_small _ v.ns_fits) (simp append_assoc) after_an)
        (section_here parse_record p.additionals _ _ (((head ++ qs) ++ an) ++ ns) ar _ message
          (12 + length qs + length an + length ns)
          (records p.additionals ar (((head ++ qs) ++ an) ++ ns) post v.additionals_fit d)
          (clamp_int_to_uint16_small _ v.ar_fits) (simp append_assoc) after_ns)
    where
      questions :
          (pre rest : Bytes)
          → marshal_all marshal_question p.questions ≡ ok qs
          → parse_many parse_question (length p.questions) (pre ++ (qs ++ rest)) (length pre)
            ≡ ok (map received_question p.questions, length pre + length qs)
      questions pre rest h =
          parse_many-marshal_all IsQuestion received_question marshal_question parse_question
            parse_question-marshal_question p.questions qs pre rest v.questions_fit h

      records :
          (rs : List Record) (bytes pre rest : Bytes)
          → All IsRecord rs
          → marshal_all marshal_record rs ≡ ok bytes
          → parse_many parse_record (length rs) (pre ++ (bytes ++ rest)) (length pre)
            ≡ ok (map received_record rs, length pre + length bytes)
      records rs bytes pre rest fit h =
          parse_many-marshal_all IsRecord received_record marshal_record parse_record
            parse_record-marshal_record rs bytes pre rest fit h

      twelve : 12 ≡ length head
      twelve = sym (length-marshal (counted_header p))

      after_qs : 12 + length qs ≡ length (head ++ qs)
      after_qs = omega (arith, twelve, length-append head qs)

      after_an : 12 + length qs + length an ≡ length ((head ++ qs) ++ an)
      after_an = omega (arith, after_qs, length-append (head ++ qs) an)

      after_ns : 12 + length qs + length an + length ns ≡ length (((head ++ qs) ++ an) ++ ns)
      after_ns = omega (arith, after_an, length-append ((head ++ qs) ++ an) ns)

-- ParsePacket reads back what Packet.Marshal wrote, whatever follows it: the packet as its
-- receiver sees it, with the header's counts set, for words in range, sections of at most 65535
-- elements, and record types that fit the kinds of records.
pub parse_packet-marshal_packet :
    (p : Packet) (w post : Bytes)
    → IsPacket p
    → marshal_packet p ≡ ok w
    → parse_packet (w ++ post) ≡ ok (received_packet p)
unfolding message head
parse_packet-marshal_packet p w post v m =
    let (qs, an, ns, ar, a, b, c, d, written) = marshal_packet_parts p w m in
    let same : w ++ post ≡ message p qs an ns ar post = rw (← written) (simp append_assoc) in
    rw same (sections_read p qs an ns ar post v a b c d)
