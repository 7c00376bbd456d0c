-- ===== src/Dns/Packet.antt =====
-- internal/dns/packet.go: whole messages.
pub mod Front
pub mod Returned
pub mod RoundTrip
use hydra_dns.Base.{ℕ, zero, suc, ◌+◌, [], ◌∷◌, ◌++◌, List, length, Result, ok, ◌>>=◌, ◌>>◌, Bytes}
use hydra_dns.Base.Int.{pos}
use hydra_dns.Convert.{clamp_int_to_uint16}
use hydra_dns.Dns.Header.{Header, marshal, parse_header}
use hydra_dns.Dns.Question.{Question, marshal_question, parse_question}
use hydra_dns.Dns.Record.{Record, marshal_record, parse_record}

pub record Packet : Type 0 where
  pub header : Header
  pub questions : List Question
  pub answers : List Record
  pub authorities : List Record
  pub additionals : List Record

-- The loops that append the wire form of each element, and stop at the first error.
unfoldable pub marshal_all {ℓ} : {A : Type ℓ} → (A → Result Bytes) → List A → Result Bytes
marshal_all marshal_one [] = ok []
marshal_all marshal_one (x ∷ xs) = do
  b ← marshal_one x
  bs ← marshal_all marshal_one xs
  ok (b ++ bs)

-- The header with the counts of the sections that follow.
unfoldable pub counted_header : Packet → Header
counted_header p = record p.header {
  qd_count = clamp_int_to_uint16 (pos (length p.questions));
  an_count = clamp_int_to_uint16 (pos (length p.answers));
  ns_count = clamp_int_to_uint16 (pos (length p.authorities));
  ar_count = clamp_int_to_uint16 (pos (length p.additionals));
}

unfoldable pub marshal_packet : Packet → Result Bytes
marshal_packet p = do
  qs ← marshal_all marshal_question p.questions
  an ← marshal_all marshal_record p.answers
  ns ← marshal_all marshal_record p.authorities
  ar ← marshal_all marshal_record p.additionals
  ok (marshal (counted_header p) ++ (qs ++ (an ++ (ns ++ ar))))

-- `for range count`, with the elements in order.
unfoldable pub parse_many {ℓ} :
    {A : Type ℓ} → (Bytes → ℕ → Result (A × ℕ)) → ℕ → Bytes → ℕ → Result (List A × ℕ)
parse_many parse_one zero msg off = ok ([], off)
parse_many parse_one (suc count) msg off = do
  (x, off') ← parse_one msg off
  (xs, off'') ← parse_many parse_one count msg off'
  ok (x ∷ xs, off'')

unfoldable pub parse_packet : Bytes → Result Packet
parse_packet msg = do
  (h, off) ← parse_header msg 0
  (qs, off1) ← parse_many parse_question h.qd_count msg off
  (an, off2) ← parse_many parse_record h.an_count msg off1
  (ns, off3) ← parse_many parse_record h.ns_count msg off2
  (ar, off4) ← parse_many parse_record h.ar_count msg off3
  ok (record { header = h; questions = qs; answers = an; authorities = ns; additionals = ar })
