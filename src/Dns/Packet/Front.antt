-- ===== src/Dns/Packet/Front.antt =====
-- The header in front of what Packet.Marshal wrote.
use hydra_dns.Base.{◌≡◌, arith, [], ◌++◌, ok, >>=-eq-ok, Bytes}
use hydra_dns.Dns.Header.{IsValid, marshal, parse_header}
use hydra_dns.Dns.Header.RoundTrip.{parse_header-marshal}
use hydra_dns.Dns.Question.{marshal_question}
use hydra_dns.Dns.Record.{marshal_record}
use hydra_dns.Dns.Packet.{Packet, marshal_all, marshal_packet, counted_header}

marshal_packet_front :
    (p : Packet) (out : Bytes)
    → marshal_packet p ≡ ok out
    → (rest : Bytes) × (out ≡ marshal (counted_header p) ++ rest)
unfolding marshal_packet
marshal_packet_front p out e =
    let (qs, _, e1) = >>=-eq-ok (marshal_all marshal_question p.questions) _ e in
    let (an, _, e2) = >>=-eq-ok (marshal_all marshal_record p.answers) _ e1 in
    let (ns, _, e3) = >>=-eq-ok (marshal_all marshal_record p.authorities) _ e2 in
    let (ar, _, e4) = >>=-eq-ok (marshal_all marshal_record p.additionals) _ e3 in
    let same : out ≡ marshal (counted_header p) ++ (qs ++ (an ++ (ns ++ ar))) =
      ground (arith, e4) in
    (qs ++ (an ++ (ns ++ ar)), same)

pub parse_header-marshal_packet :
    (p : Packet) (out : Bytes)
    → IsValid (counted_header p)
    → marshal_packet p ≡ ok out
    → parse_header out 0 ≡ ok (counted_header p, 12)
parse_header-marshal_packet p out v e =
    let (rest, same) = marshal_packet_front p out e in
    rw same (parse_header-marshal (counted_header p) [] rest v)
