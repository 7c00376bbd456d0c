-- ===== src/Resolvers/Forwarding/Sound.antt =====
-- What a cached response is: an upstream's response to the question it is stored under.
use hydra_dns.Base.{
  ◌≡◌, refl, arith, ◌∷◌, List, true, ◌&&◌, ◌==◌, Bool-cases, List-cases, inl, inr, none, some, ok,
  Option, Result-cases, Bytes, bytes_eq, bytes_eq_iff,
}
use hydra_dns.Dns.Question.{Question}
use hydra_dns.Dns.Packet.{Packet, parse_packet}
use hydra_dns.Resolvers.Answer.{Answer, answered, failed, Failure, crashed, invalid_response}
use hydra_dns.Resolvers.Message.{QuestionKey, patch_transaction_id}
use hydra_dns.Resolvers.Cache.Bounded.{IsEquality}
use hydra_dns.Resolvers.Cache.Values.{HoldsOf}
use hydra_dns.Resolvers.Forwarding.{
  Network, same_key, ForwardingResolver, normalize_question_key, equal_dns_names, match_questions,
  validate_response,
}
use hydra_dns.Resolvers.Forwarding.Query.{Inflight, alone, joined, given_up}

-- The response parses, and its first question is the one of the key, up to the case and a last dot
-- of the name.
abbrev pub AnswersQuestion : QuestionKey → Bytes → Type 0
AnswersQuestion k resp =
    (p : Packet) × (q : Question) × (qs : List Question) × (parse_packet resp ≡ ok p)
    × (p.questions ≡ q ∷ qs)
    × (equal_dns_names k.qname q.name ≡ true)
    × (k.qtype ≡ q.type)
    × (k.qclass ≡ q.class)

-- Some upstream gives these bytes in answer to some query.
abbrev pub GivenBy : {W : Type 0} → Network W → Bytes → Type 0
GivenBy {W} net resp =
    (up : Bytes) × (query : Bytes) × (w : W) × ((net.query_one up query w).0 ≡ some resp)

-- Such a response that answers the question, with the transaction id 0.
abbrev pub StoredFor : {W : Type 0} → Network W → QuestionKey → Bytes → Type 0
StoredFor net k v =
    (resp : Bytes) × (v ≡ patch_transaction_id resp 0) × GivenBy net resp × AnswersQuestion k resp

abbrev pub IsSound : {W : Type 0} → Network W → ForwardingResolver → Type 0
IsSound net f = HoldsOf (λ k v. StoredFor net k.q v) f.cache.data_map

-- Not the crash that an index out of range is.
abbrev pub IsError : Failure → Type 0
IsError crashed = ⊥
IsError _ = Unit {0}

-- A stored response, or an error.
abbrev pub IsStored : {W : Type 0} → Network W → QuestionKey → Answer → Type 0
IsStored net k (answered v o) = StoredFor net k v
IsStored net k (failed why) = IsError why

-- What another goroutine with the same key ends with.
abbrev pub InflightIsStored : {W : Type 0} → Network W → QuestionKey → Inflight → Type 0
InflightIsStored net k (joined a) = IsStored net k a
InflightIsStored net k alone = Unit {0}
InflightIsStored net k given_up = Unit {0}

pub same_key-IsEquality : IsEquality same_key
unfolding same_key
same_key-IsEquality a b = (
  λ h. ground (
    arith,
    h,
    bytes_eq_iff a.q.qname b.q.qname,
    bytes_eq_iff a.up b.up,
    Bool-cases (bytes_eq a.q.qname b.q.qname),
    Bool-cases (bytes_eq a.up b.up),
  ),
  λ h. ground (arith, h, bytes_eq_iff a.q.qname b.q.qname, bytes_eq_iff a.up b.up),
)

-- What validateResponse says of a response to a request with a question.
abbrev pub Judged : QuestionKey → Bytes → Option Failure → Type 0
Judged k resp none = AnswersQuestion k resp
Judged k resp (some why) = IsError why

-- The key of a question.
unfoldable pub key_of : Question → QuestionKey
key_of q = record { qname = q.name; qtype = q.type; qclass = q.class }

normalize_question_key_first :
    (req : Packet) (q : Question) (qs : List Question)
    → req.questions ≡ q ∷ qs
    → normalize_question_key req ≡ key_of q
unfolding normalize_question_key key_of
normalize_question_key_first req q qs e = rw (normalize_question_key, e) refl

match_questions-Judged :
    (resp : Bytes) (p : Packet) (q r : Question) (qs rs : List Question)
    → parse_packet resp ≡ ok p
    → p.questions ≡ r ∷ rs
    → Judged (key_of q) resp (match_questions (q ∷ qs) (r ∷ rs))
unfolding match_questions key_of
match_questions-Judged resp p q r qs rs parsed found =
    elim (Bool-cases (equal_dns_names q.name r.name && (q.type == r.type && q.class == r.class))) [
      | inr differs ↦ rw differs tt
      | inl same ↦
          let names : equal_dns_names q.name r.name ≡ true = ground (arith, same) in
          let types : q.type ≡ r.type = ground (arith, same) in
          let classes : q.class ≡ r.class = ground (arith, same) in
          rw same (p, r, rs, parsed, found, names, types, classes)
    ]

pub validate_response-Judged :
    (req : Packet) (resp : Bytes) (q : Question) (qs : List Question)
    → req.questions ≡ q ∷ qs
    → Judged (normalize_question_key req) resp (validate_response req resp)
unfolding validate_response match_questions
validate_response-Judged req resp q qs e = elim (Result-cases (parse_packet resp)) [
  | inr (why, refused) ↦ rw (validate_response, refused) tt
  | inl (p, parsed) ↦ elim (List-cases p.questions) [
    | inl empty ↦
        let verdict : validate_response req resp ≡ some invalid_response =
          rw (validate_response, parsed, empty) refl in
        rw verdict tt
    | inr (r, rs, found) ↦
        let verdict : validate_response req resp ≡ match_questions (q ∷ qs) (r ∷ rs) =
          rw (validate_response, parsed, found, e) refl in
        rw (verdict, normalize_question_key_first req q qs e)
          (match_questions-Judged resp p q r qs rs parsed found)
  ]
]
