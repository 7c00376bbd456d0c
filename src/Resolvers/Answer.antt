-- ===== src/Resolvers/Answer.antt =====
-- internal/resolvers/types.go: what a resolver answers, and the interface of resolvers. Whatever a
-- resolver reads and changes, its own state and the network, is one argument and one result.
use hydra_dns.Base.{Bytes}
use hydra_dns.Dns.Packet.{Packet}

-- The values of Result.Source.
pub data Origin : Type 0 where
  filtered_blocked custom_dns upstream_cache upstream_inflight upstream : Origin

-- The errors, by what is said of them.
pub data Failure : Type 0 where
  context_cancelled no_question not_configured no_matching_records cannot_marshal : Failure
  no_custom_dns no_resolver no_upstream invalid_response network_error : Failure
  -- Not a Go error: an index out of range.
  crashed : Failure

-- The pair (Result, error): a result if the error is nil.
pub data Answer : Type 0 where
  answered : Bytes → Origin → Answer
  failed : Failure → Answer

abbrev pub Resolver : Type 0 → Type 0
Resolver W = Packet → Bytes → W → Answer × W
