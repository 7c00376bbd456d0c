-- ===== src/Dns/Question.antt =====
-- internal/dns/question.go: the question section's entries.
pub mod RoundTrip
use hydra_dns.Base.{
  ℕ, ◌+◌, ◌++◌, ltb, length, Result, ok, ◌>>=◌, ◌>>◌, fail_if, Bytes, put_uint16, uint16_at,
  unexpected_eof,
}
use hydra_dns.Dns.Name.{encode_name, decode_name, normalize_name}

pub record Question : Type 0 where
  pub name : Bytes
  pub type : ℕ
  pub class : ℕ

unfoldable pub marshal_question : Question → Result Bytes
marshal_question q = do
  name ← encode_name q.name
  ok (name ++ (put_uint16 q.type ++ put_uint16 q.class))

unfoldable pub parse_question : Bytes → ℕ → Result (Question × ℕ)
parse_question msg off = do
  (name, off') ← decode_name msg off
  fail_if (ltb (length msg) (off' + 4)) unexpected_eof
  type ← uint16_at msg off'
  class ← uint16_at msg (off' + 2)
  ok (record { name = normalize_name name; type = type; class = class }, off' + 4)
