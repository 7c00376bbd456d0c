-- ===== src/Server/Handler/Answers.antt =====
-- The answers that the handler makes up itself.
use mathlib.Core.Path.{subst}
use hydra_dns.Base.{
  ℕ, ◌+◌, ◌*◌, ◌/◌, ◌%◌, ◌≤◌, ◌≡◌, refl, sym, ◌∙◌, arith, length, none, some, Option-cases, inl,
  inr, Result, ok, err, Result-cases, Returns-eq, Bytes, All, IsByte, IsU16,
}
use hydra_dns.Convert.{clamp_int_to_uint16_small}
use hydra_dns.Dns.Enums.{rcode_form_err, rcode_serv_fail}
use hydra_dns.Dns.Header.{Header, IsValid, parse_header}
use hydra_dns.Dns.Header.RoundTrip.{parse_header-IsValid}
use hydra_dns.Dns.Packet.{Packet, marshal_packet, counted_header}
use hydra_dns.Dns.Request.{parse_request_bounded, build_error_response}
use hydra_dns.Dns.Packet.Front.{parse_header-marshal_packet}
use hydra_dns.Dns.Packet.Returned.{parse_packet_header}
use hydra_dns.Dns.Request.Bounds.{parse_request_bounded_iff, parse_request_bounded-Returns}
use hydra_dns.Dns.Request.Response.{build_response_flags_lem}
use hydra_dns.Server.Handler.{
  Outcome, context_done, timer_fired, resolver_failed, resolved, must_marshal,
  try_build_error_from_raw, salvaged_packet, handle_parse_error, handle, resolve_with_timeout,
  build_error_result,
}

-- The header of an error response to a request with this header, with so many questions.
unfoldable pub error_header : Header → ℕ → ℕ → Header
error_header h rcode questions = record {
  id = h.id;
  flags = 32768 + h.flags / 256 % 2 * 256 + rcode % 16;
  qd_count = questions;
  an_count = 0;
  ns_count = 0;
  ar_count = 0;
}

counted_header-error :
    (req : Packet) (rcode : ℕ)
    → IsU16 req.header.flags
    → IsU16 rcode
    → length req.questions ≤ 65535
    → counted_header (build_error_response req rcode)
      ≡ error_header req.header rcode (length req.questions)
unfolding counted_header build_error_response error_header
counted_header-error req rcode f r n =
    rw
      (
        build_response_flags_lem req.header.flags rcode f r,
        clamp_int_to_uint16_small (length req.questions) n,
        clamp_int_to_uint16_small 0 (omega arith),
      )
      refl

error_header-IsValid :
    (h : Header) (rcode questions : ℕ)
    → IsU16 h.id
    → questions ≤ 65535
    → IsValid (error_header h rcode questions)
unfolding error_header
error_header-IsValid h rcode questions i n = record {
  id_fits = i;
  flags_fits = omega arith;
  qd_fits = omega arith;
  an_fits = omega arith;
  ns_fits = omega arith;
  ar_fits = omega arith;
}

-- For a request of 16-bit id and flags with at most 65535 questions and a 16-bit code, an error
-- response that the handler sends has the request's id, QR set, the request's RD bit, the
-- low four bits of the code as RCODE, the request's number of questions and no records.
pub parse_header-error_response :
    (req : Packet) (rcode : ℕ) (out : Bytes)
    → IsU16 req.header.id
    → IsU16 req.header.flags
    → IsU16 rcode
    → length req.questions ≤ 65535
    → must_marshal (build_error_response req rcode) ≡ some out
    → parse_header out 0 ≡ ok (error_header req.header rcode (length req.questions), 12)
unfolding must_marshal
parse_header-error_response req rcode out i f r n e =
    let written = marshalled (marshal_packet (build_error_response req rcode)) out e in
    let counted = counted_header-error req rcode f r n in
    let valid = error_header-IsValid req.header rcode (length req.questions) i n in
    rw counted at
      (parse_header-marshal_packet (build_error_response req rcode) out (rw counted valid) written)
  where
    marshalled :
        (r : Result Bytes) (out : Bytes)
        → elim r [ ok b ↦ some b | err e ↦ none ] ≡ some out
        → r ≡ ok out
    marshalled (ok b) out e = ground (arith, e)
    marshalled (err why) out e = ground (arith, e)

-- The outcomes in which the handler makes up the answer.
abbrev pub IsMadeUp : Outcome → Type 0
IsMadeUp (resolved r) = ⊥
IsMadeUp _ = Unit {0}

salvaged_length :
    (req : Bytes) (h : Header) (off : ℕ) → length (salvaged_packet req h off).questions ≤ 1
unfolding salvaged_packet
salvaged_length req h off = ground arith

handle_parse_error_bytes :
    (req : Bytes)
    → (handle_parse_error req).response_bytes ≡ try_build_error_from_raw req rcode_form_err
unfolding handle_parse_error
handle_parse_error_bytes req = elim (Option-cases (try_build_error_from_raw req rcode_form_err)) [
  | inl e ↦ rw (handle_parse_error, e) refl
  | inr (b, e) ↦ rw (handle_parse_error, e) refl
]

made_up_bytes :
    (p : Packet) (outcome : Outcome)
    → IsMadeUp outcome
    → (resolve_with_timeout p outcome).response_bytes
      ≡ must_marshal (build_error_response p rcode_serv_fail)
unfolding resolve_with_timeout build_error_result
made_up_bytes p context_done h = refl
made_up_bytes p timer_fired h = refl
made_up_bytes p resolver_failed h = refl
made_up_bytes p (resolved r) h = absurd h

-- The answer to a request that does not parse.
handle_parse_error_header :
    (req out : Bytes) (h : Header)
    → All IsByte req
    → parse_header req 0 ≡ ok (h, 12)
    → (handle_parse_error req).response_bytes ≡ some out
    → (n : ℕ) × (n ≤ 1) × (parse_header out 0 ≡ ok (error_header h rcode_form_err n, 12))
unfolding handle_parse_error try_build_error_from_raw salvaged_packet error_header
handle_parse_error_header req out h bytes e sent =
    let valid = Returns-eq (λ r. IsValid r.0) _ _ (parse_header-IsValid req 0 bytes) e in
    let p = salvaged_packet req h 12 in
    let made : must_marshal (build_error_response p rcode_form_err) ≡ some out =
      rw (try_build_error_from_raw, e) at (sym (handle_parse_error_bytes req) ∙ sent) in
    (
      length p.questions,
      salvaged_length req h 12,
      parse_header-error_response p rcode_form_err out valid.id_fits valid.flags_fits (omega arith)
          (omega (arith, salvaged_length req h 12)) made,
    )

-- On a request of bytes with a header, an answer that the handler makes up itself, since the
-- request does not parse, the resolver fails, the time is over or the server stops, has the header
-- of an error response to the request, with its id and its RD bit: FORMERR for a request that does
-- not parse, SERVFAIL otherwise.
pub handle-header :
    (req out : Bytes) (h : Header) (outcome : Outcome)
    → All IsByte req
    → parse_header req 0 ≡ ok (h, 12)
    → IsMadeUp outcome
    → (handle req outcome).response_bytes ≡ some out
    → (n : ℕ) × (n ≤ 1)
      × (parse_header out 0
          ≡ ok (
            error_header h
                (elim (parse_request_bounded req) [
                  | ok p ↦ rcode_serv_fail
                  | err e ↦ rcode_form_err
                ])
                n,
            12,
          ))
unfolding handle
handle-header req out h outcome bytes e made_up sent =
    elim (Result-cases (parse_request_bounded req)) [
      | inr (why, refused) ↦
          rw refused (handle_parse_error_header req out h bytes e (rw (handle, refused) at sent))
      | inl (p, accepted) ↦
          let (_, parsed, _) = (parse_request_bounded_iff req p bytes).0 accepted in
          let same : p.header ≡ h = ground (arith, parse_packet_header req p parsed, e) in
          let valid =
            Returns-eq (λ r. IsValid r.0) _ _ (parse_header-IsValid req 0 bytes)
              (parse_packet_header req p parsed) in
          let one = (Returns-eq _ _ _ (parse_request_bounded-Returns req) accepted).0 in
          let made : must_marshal (build_error_response p rcode_serv_fail) ≡ some out =
            sym (made_up_bytes p outcome made_up) ∙ rw (handle, accepted) at sent in
          rw accepted (
            subst
              (λ k.
                (n : ℕ) × (n ≤ 1)
                × (parse_header out 0 ≡ ok (error_header k rcode_serv_fail n, 12)))
              same
              (
                length p.questions,
                omega (arith, one),
                parse_header-error_response p rcode_serv_fail out valid.id_fits valid.flags_fits
                    (omega arith) (omega (arith, one)) made,
              ))
    ]
