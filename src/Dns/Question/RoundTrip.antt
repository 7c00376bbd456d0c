-- ===== src/Dns/Question/RoundTrip.antt =====
-- Questions: parsing returns on every message, and reads back what marshalling wrote.
use hydra_dns.Base.{
  ℕ, ◌+◌, ◌≤◌, ◌≡◌, refl, ap, [], ◌∷◌, ◌++◌, append_assoc, length, length-append, arith, ge→ltb, ok,
  >>=-eq-ok, Returns, Result-cases, inl, inr, Bytes, IsU16, put_uint16, uint16_at_lem,
  uint16_at_next, uint16_at_behind, if◌then◌else◌, ◌==◌, ◌&&◌,
}
use hydra_dns.Dns.Name.{
  encode_name, decode_name, normalize_name, to_lower, trim_dot, trim_suffix_dot, is_empty,
}
use hydra_dns.Dns.Name.Decode.{decode_name-Returns}
use hydra_dns.Dns.Name.RoundTrip.{decode_name-encode_name}
use hydra_dns.Dns.Question.{Question, marshal_question, parse_question}

-- ParseQuestion returns on every message and offset, and then stands at least five bytes further,
-- within the message.
pub parse_question-Returns :
    (msg : Bytes) (off : ℕ)
    → Returns (λ r. (off + 5 ≤ r.1) × (r.1 ≤ length msg)) (parse_question msg off)
unfolding parse_question
parse_question-Returns msg off = elim (Result-cases (decode_name msg off)) [
  | inl ((name, off'), e) ↦
      ground (
        arith,
        e,
        decode_name-Returns msg off,
        uint16_at_lem msg off',
        uint16_at_lem msg (off' + 2),
      )
  | inr (why, e) ↦ ground (arith, e, decode_name-Returns msg off)
]

-- A name without its trailing dots has none to lose.
pub trim_suffix_dot-trim_dot : (s : Bytes) → trim_suffix_dot (trim_dot s) ≡ trim_dot s
unfolding trim_suffix_dot trim_dot is_empty
trim_suffix_dot-trim_dot [] = refl
trim_suffix_dot-trim_dot (c ∷ cs) = behind (trim_dot cs) (trim_suffix_dot-trim_dot cs)
  where
    put_front : Bytes → Bytes
    put_front r = if c == b'.' && is_empty r then [] else c ∷ r

    behind : (r : Bytes) → trim_suffix_dot r ≡ r → trim_suffix_dot (put_front r) ≡ put_front r
    behind [] h = ground arith
    behind (d ∷ ds) h = ground arith

-- What the receiver of a question sees: the name without trailing dots, in lower case.
unfoldable pub received_question : Question → Question
received_question q = record q { name = to_lower (trim_dot q.name) }

abbrev pub IsQuestion : Question → Type 0
IsQuestion q = IsU16 q.type × IsU16 q.class

-- ParseQuestion reads back what Question.Marshal wrote, behind any prefix and in front of
-- anything, for a 16-bit type and class: the same type and class, and the name normalised.
pub parse_question-marshal_question :
    (q : Question) (w pre post : Bytes)
    → IsQuestion q
    → marshal_question q ≡ ok w
    → parse_question (pre ++ (w ++ post)) (length pre)
      ≡ ok (received_question q, length pre + length w)
unfolding marshal_question parse_question received_question normalize_name put_uint16
parse_question-marshal_question q w pre post v h =
    let (name, e, e') = >>=-eq-ok (encode_name q.name) _ h in
    let fields = put_uint16 q.type ++ put_uint16 q.class in
    let decoded = decode_name-encode_name q.name name pre (fields ++ post) e in
    let written : name ++ fields ≡ w = ground (arith, e') in
    rw
      (
        ← written,
        append_assoc name fields post,
        decoded,
        ge→ltb _ _ (long name),
        uint16_at_next pre name (put_uint16 q.class ++ post) q.type v.0,
        uint16_at_behind pre name (put_uint16 q.type) post q.class 2 refl v.1,
        trim_suffix_dot-trim_dot q.name,
      )
      (ap ok (λ i. (received_question q, total name i)))
  where
    tail : Bytes
    tail = put_uint16 q.type ++ put_uint16 q.class ++ post

    long : (n : Bytes) → length pre + length n + 4 ≤ length (pre ++ (n ++ tail))
    long n = omega (arith, length-append pre (n ++ tail), length-append n tail)

    total :
        (n : Bytes)
        → length pre + length n + 4
          ≡ length pre + length (n ++ (put_uint16 q.type ++ put_uint16 q.class))
    total n = omega (arith, length-append n (put_uint16 q.type ++ put_uint16 q.class))
