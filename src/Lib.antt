-- ===== src/Lib.antt =====
-- HydraDNS: the DNS message codec, the bounded parser of requests, EDNS, the query handler behind
-- UDP and TCP, the rate limiter, the domain filter with its lists, the chain of resolvers, the
-- response cache, the validation of the configuration, and the synchronisation of a cluster.
--
-- A datagram that the rate limiter lets pass (Server/RateLimit, Server/Udp) or a message on a
-- connection (Server/Tcp) reaches the handler (Server/Handler), which parses it within bounds
-- (Dns/Request over Dns/Packet, Dns/Question, Dns/Record, Dns/Name and Dns/Header), asks the
-- resolver, and makes up an error response if there is no answer. A response that is too long for
-- the client's UDP size (Dns/Edns) is cut (Server/Truncate). The resolver is the chain that the
-- runner builds (Server/Runner): the filter (Resolvers/Filtered over Filtering/Policy and
-- Filtering/Trie, whose remote lists Filtering/Parser reads), then local records (Resolvers/Custom
-- behind Resolvers/Reloadable), then upstream servers (Resolvers/Forwarding), in order
-- (Resolvers/Chained). The forwarding resolver asks an upstream that has not failed
-- (Resolvers/Upstreams), keeps its valid responses in a TTL cache (Resolvers/Cache) for as long as
-- their records say (Resolvers/Decision), takes the age off the TTLs of those that it serves again
-- (Resolvers/Ageing), and puts the client's transaction id into them (Resolvers/Message).
--
-- Files and the code that they model:
--   Base          shared: results with errors, byte readers and writers with Go's panics, lists,
--                 the runes of UTF-8 (Base/Runes)
--   Convert       internal/helpers/convert.go (clampInt, ClampIntToUint16, ...)
--   Config        internal/config/config.go, types.go (Validate, parseWorkers, ParseWorkers)
--   Cluster       internal/cluster/cluster.go (Syncer)
--   Dns/Enums     internal/dns/enums.go
--   Dns/Header    internal/dns/header.go (Marshal, ParseHeader, SetAD, SetCD, the flag accessors)
--   Dns/Name      internal/dns/codec.go (EncodeName, DecodeName and what they call)
--   Dns/Question  internal/dns/question.go
--   Dns/Record    internal/dns/record.go, ip_record.go, name_record.go, opaque_record.go
--   Dns/Packet    internal/dns/packet.go (Packet.Marshal, ParsePacket)
--   Dns/Request   internal/dns/parsing.go (ParseRequestBounded, BuildErrorResponse)
--   Dns/Edns      internal/dns/edns.go (options, OPT records, payload sizes)
--   Filtering/Trie       internal/filtering/trie.go (DomainTrie)
--   Filtering/DomainSet  internal/filtering/trie.go (DomainSet)
--   Filtering/Policy     internal/filtering/policy.go
--   Filtering/Parser     internal/filtering/parser.go (ParseFile, ParseURL, Parse, detectFormat,
--                        the line parsers, isValidDomain, ParseDomainsSlice)
--   Resolvers/Answer     internal/resolvers/types.go (Result, Resolver)
--   Resolvers/Message    internal/resolvers/types.go (PatchTransactionID)
--   Resolvers/Cache      internal/resolvers/cache.go (TTLCache)
--   Resolvers/Decision   internal/resolvers/forwarding_resolver.go (analyzeCacheDecision,
--                        findMinimumTTL, extractSOAMinimum)
--   Resolvers/Upstreams  internal/resolvers/forwarding_resolver.go (selectUpstream,
--                        canTryUpstream, markFailed, markHealthy)
--   Resolvers/Ageing     internal/resolvers/forwarding_resolver.go (adjustTTLs)
--   Resolvers/Forwarding internal/resolvers/forwarding_resolver.go (NewForwardingResolver, the
--                        cache key, validateResponse, storeInCache; in Query, Resolve and
--                        queryAndCache)
--   Resolvers/Exchange   internal/resolvers/forwarding_resolver.go (ensurePool, queryOne,
--                        queryOneAttempt, releaseConnection, queryUpstreamTCP)
--   Resolvers/Filtered   internal/resolvers/filtering_resolver.go
--   Resolvers/Custom     internal/resolvers/custom_dns_resolver.go
--   Resolvers/Reloadable internal/resolvers/reloadable_custom_dns.go
--   Resolvers/Chained    internal/resolvers/chained.go
--   Server/Handler       internal/server/query_handler.go
--   Server/Truncate      internal/server/truncate.go
--   Server/Udp           internal/server/udp_server.go (handlePacket)
--   Server/Tcp           internal/server/tcp_server.go (readMessage, writeMessage,
--                        handleConnection, tryAcquireConn, releaseConn)
--   Server/RateLimit     internal/server/rate_limit.go (TokenBucketRateLimiter; in Tiers,
--                        RateLimiter and the keys of networks)
--   Server/Stats         internal/server/stats.go
--   Server/Runner        internal/server/runner.go (buildResolverChain, BuildPolicyEngine,
--                        ReloadCustomDNS, the sizes; in Serving, its policy while it serves)
--   Examples      runs on concrete messages
--
-- Conventions. Bytes and strings are lists of numbers, integers the native natural numbers, with
-- the wrap or the clamp of the code written out; lengths of messages are below the range of Go's
-- int. A Go function that advances `*off` returns the new offset beside its value. An error is a
-- value of Error; an index out of range is the error `panic`, and a loop or recursion on fuel that
-- runs out is `out_of_fuel`: `Returns` in a theorem excludes both. The loops of DecodeName and
-- skipQNAME have the length of the message and one more as fuel, and move on by a byte each time
-- round; ParseEDNSOptions has that of the RDATA; compression pointers have their depth limit of 20.
-- Times are numbers of nanoseconds and each reading of the clock is an argument. The text functions
-- of Go's standard library (ToLower, TrimSpace, EqualFold) are those on ASCII; a loop over the
-- runes of a string decodes UTF-8. A Go map is a list of keys with values. A resolver takes and
-- returns all that it reads and changes: its own state and a world behind it. The loop of
-- queryAndCache runs once for each upstream, and that of handleConnection at most 100 times, as in
-- the code.
--
-- The float64 arithmetic of the rate limiter is a parameter, since it rounds; the average latency
-- is an exact quotient, where the code rounds to a float64.
--
-- Parameters: netip.ParseAddr, time.ParseDuration, the arithmetic of float64, the texts of
-- addresses and prefixes, what os.Open and an HTTP client give, and whether a context is done. In
-- Resolvers/Forwarding the answers of an upstream to one query are a parameter too;
-- Resolvers/Exchange has queryOne, over sockets that are operations on a world. So are the primary
-- of a cluster, the decoder of its answers and the import of them, in Cluster. Which of the
-- channels of resolveWithTimeout is ready, and what another goroutine with the same question ends
-- with, are arguments.
--
-- Not modelled: sockets, goroutines, timers and deadlines, pools of buffers, logs, capacities
-- of slices, and mutexes: a call that holds one is an atomic step. The handler's calls of the
-- statistics, the database and the HTTP API are left out.
pub mod Base
pub mod Convert
pub mod Config
pub mod Cluster
pub mod Dns
pub mod Filtering
pub mod Resolvers
pub mod Server
pub mod Examples
