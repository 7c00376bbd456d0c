-- ===== src/Server/Handler.antt =====
-- internal/server/query_handler.go: what a query is answered with. The resolver, the timer and the
-- context are outside: which of the three channels of resolveWithTimeout was ready first, and what
-- the resolver sent, is an argument. Statistics and logs do not touch the answer and are left out.
pub mod Answers
use hydra_dns.Base.{
  ℕ, [], ◌∷◌, List, Option, none, some, ltb, if◌then◌else◌, Result, ok, err, Bytes,
}
use hydra_dns.Dns.Enums.{rcode_form_err, rcode_serv_fail}
use hydra_dns.Dns.Header.{Header, parse_header}
use hydra_dns.Dns.Question.{Question, parse_question}
use hydra_dns.Dns.Packet.{Packet, marshal_packet}
use hydra_dns.Dns.Request.{parse_request_bounded, build_error_response}

-- The Source strings that the handler itself writes, and the resolver's own.
pub data Source : Type 0 where
  parse_error : Source
  formerr : Source
  shutdown : Source
  timeout : Source
  servfail : Source
  resolver : Bytes → Source

-- resolvers.Result; `none` is nil.
pub record Resolution : Type 0 where
  pub response_bytes : Option Bytes
  pub source : Source

pub record HandleResult : Type 0 where
  pub response_bytes : Option Bytes
  pub source : Source
  pub parsed : Option Packet

-- The channel that `select` receives from.
pub data Outcome : Type 0 where
  context_done : Outcome
  timer_fired : Outcome
  resolver_failed : Outcome
  resolved : Resolution → Outcome

unfoldable pub must_marshal : Packet → Option Bytes
must_marshal p = elim (marshal_packet p) [ ok b ↦ some b | err e ↦ none ]

unfoldable pub build_error_result : Packet → Source → ℕ → Resolution
build_error_result parsed source rcode = record {
  response_bytes = must_marshal (build_error_response parsed rcode);
  source = source;
}

unfoldable pub resolve_with_timeout : Packet → Outcome → Resolution
resolve_with_timeout parsed context_done = build_error_result parsed shutdown rcode_serv_fail
resolve_with_timeout parsed timer_fired = build_error_result parsed timeout rcode_serv_fail
resolve_with_timeout parsed resolver_failed = build_error_result parsed servfail rcode_serv_fail
resolve_with_timeout parsed (resolved r) = r

-- The packet of tryBuildErrorFromRaw: the id and flags, and the question if it can be read.
unfoldable pub salvaged_packet : Bytes → Header → ℕ → Packet
salvaged_packet req h off = record {
  header = record {
    id = h.id;
    flags = h.flags;
    qd_count = 0;
    an_count = 0;
    ns_count = 0;
    ar_count = 0;
  };
  questions =
      if ltb 0 h.qd_count
      then elim (parse_question req off) [ ok (q, off') ↦ q ∷ [] | err e ↦ [] ]
      else [];
  answers = [];
  authorities = [];
  additionals = [];
}

unfoldable pub try_build_error_from_raw : Bytes → ℕ → Option Bytes
unfolding must_marshal
try_build_error_from_raw req rcode = elim (parse_header req 0) [
  | err e ↦ none
  | ok (h, off) ↦ must_marshal (build_error_response (salvaged_packet req h off) rcode)
]

unfoldable pub handle_parse_error : Bytes → HandleResult
handle_parse_error req = elim (try_build_error_from_raw req rcode_form_err) [
  | none ↦ record { response_bytes = none; source = parse_error; parsed = none }
  | some resp ↦ record { response_bytes = some resp; source = formerr; parsed = none }
]

unfoldable pub handle : Bytes → Outcome → HandleResult
handle req outcome = elim (parse_request_bounded req) [
  | err e ↦ handle_parse_error req
  | ok parsed ↦
      let result = resolve_with_timeout parsed outcome in
      record {
        response_bytes = result.response_bytes;
        source = result.source;
        parsed = some parsed;
      }
]
