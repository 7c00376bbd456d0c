-- ===== src/Examples/Messages.antt =====
-- The messages that the examples share.
use hydra_dns.Base.{[], ◌∷◌, All, Bytes, IsByte, arith}
use hydra_dns.Dns.Header.{Header}
use hydra_dns.Dns.Question.{Question}
use hydra_dns.Dns.Record.{Record}
use hydra_dns.Dns.Packet.{Packet}

-- `a.b`
abbrev pub a_dot_b : Bytes
a_dot_b = 97 ∷ 46 ∷ 98 ∷ []

abbrev pub a_dot_b_wire : Bytes
a_dot_b_wire = 1 ∷ 97 ∷ 1 ∷ 98 ∷ 0 ∷ []

abbrev pub query_header : Header
query_header = record {
  id = 0x1234;
  flags = 0x0100;
  qd_count = 1;
  an_count = 0;
  ns_count = 0;
  ar_count = 0;
}

-- `a`, type A, class IN.
abbrev pub question : Question
question = record { name = 97 ∷ []; type = 1; class = 1 }

abbrev pub question_wire : Bytes
question_wire = 1 ∷ 97 ∷ 0 ∷ 0 ∷ 1 ∷ 0 ∷ 1 ∷ []

abbrev pub query : Packet
query = record {
  header = query_header;
  questions = question ∷ [];
  answers = [];
  authorities = [];
  additionals = [];
}

abbrev pub query_wire : Bytes
query_wire =
    0x12 ∷ 0x34 ∷ 0x01 ∷ 0x00 ∷ 0 ∷ 1 ∷ 0 ∷ 0 ∷ 0 ∷ 0 ∷ 0 ∷ 0 ∷ 1 ∷ 97 ∷ 0 ∷ 0 ∷ 1 ∷ 0 ∷ 1 ∷ []

-- The same with the QR bit set, as a response has it.
abbrev pub response_wire : Bytes
response_wire =
    0x12 ∷ 0x34 ∷ 0x81 ∷ 0x00 ∷ 0 ∷ 1 ∷ 0 ∷ 0 ∷ 0 ∷ 0 ∷ 0 ∷ 0 ∷ 1 ∷ 97 ∷ 0 ∷ 0 ∷ 1 ∷ 0 ∷ 1 ∷ []

-- A record of one address.
abbrev pub address : Record
address = Record.ip_record (record { name = 97 ∷ []; class = 1; ttl = 300 }) (192 ∷ 0 ∷ 2 ∷ 1 ∷ [])

abbrev pub address_wire : Bytes
address_wire = 1 ∷ 97 ∷ 0 ∷ 0 ∷ 1 ∷ 0 ∷ 1 ∷ 0 ∷ 0 ∷ 1 ∷ 44 ∷ 0 ∷ 4 ∷ 192 ∷ 0 ∷ 2 ∷ 1 ∷ []

pub query_wire-IsByte : All IsByte query_wire
query_wire-IsByte = ground arith

pub response_wire-IsByte : All IsByte response_wire
response_wire-IsByte = ground arith
