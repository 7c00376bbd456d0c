-- ===== src/Server/Truncate/Bound.antt =====
-- The size and the header of a truncated response.
use hydra_dns.Base.{
  ℕ, zero, suc, ◌+◌, ◌-◌, ◌*◌, ◌≤◌, ◌<◌, max, ◌≡◌, refl, ap, ◌∙◌, [], ◌∷◌, ◌++◌, arith, length,
  length-append, length-take, length-drop, take, drop, take-prefix, append-nil, sym, get_or, ◌⊎◌,
  ok, Succeeds, Succeeds-value, Bytes, All, IsByte, byte_at_lem, uint16_at_lem, slice_lem,
  put_uint16, bit_or,
}
use hydra_dns.Base.Int.{ℤ}
use hydra_dns.Dns.Enums.{tc_flag}
use hydra_dns.Dns.Header.{Header, marshal, parse_header}
use hydra_dns.Dns.Header.RoundTrip.{parse_header_words, length-marshal}
use hydra_dns.Server.Truncate.{
  truncate_udp_response, cut_response, size_limit, build_truncated_header, extract_question_count,
  find_question_section_end,
}
use hydra_dns.Server.Truncate.Skip.{Succeeds-question_section_loop}

-- The header of a response with TC set and the record counts cleared.
unfoldable pub truncated_header : Header → Header
truncated_header h = record h {
  flags = bit_or h.flags tc_flag;
  an_count = 0;
  ns_count = 0;
  ar_count = 0;
}

get_or-IsByte : (msg : Bytes) (i : ℕ) → All IsByte msg → get_or msg i 0 < 256
get_or-IsByte [] i h = omega arith
get_or-IsByte (x ∷ xs) zero h = h.0
get_or-IsByte (x ∷ xs) (suc i) h = get_or-IsByte xs i h.1

two_bytes : (a b : ℕ) → a < 256 → b < 256 → put_uint16 (a * 256 + b) ≡ a ∷ b ∷ []
unfolding put_uint16
two_bytes a b h k = ground arith

-- What buildTruncatedHeader writes, for the header that ParseHeader reads of the response.
build_truncated_header-marshal :
    (resp : Bytes) (h : Header) (off : ℕ)
    → All IsByte resp
    → parse_header resp 0 ≡ ok (h, off)
    → (extract_question_count resp ≡ ok h.qd_count)
      × (build_truncated_header resp h.qd_count ≡ ok (marshal (truncated_header h)))
unfolding extract_question_count build_truncated_header marshal truncated_header
build_truncated_header-marshal resp h off bytes e =
    let (id, flags, qd, room, _) = parse_header_words resp h off e in
    let a = get_or resp 0 0 in
    let b = get_or resp 1 0 in
    let here = uint16_at_lem resp 0 (omega arith) in
    let same : h.id ≡ a * 256 + b = ground (arith, here, id) in
    (
      qd,
      rw
          (
            flags,
            byte_at_lem resp 0 (omega arith),
            byte_at_lem resp 1 (omega arith),
            same,
            two_bytes a b (get_or-IsByte resp 0 bytes) (get_or-IsByte resp 1 bytes),
          )
          (unfold put_uint16 in refl),
    )

-- A response that is cut fits the limit (or is the header alone) and begins with its header cut.
Succeeds-cut_response :
    (resp : Bytes) (h : Header) (limit : ℕ)
    → All IsByte resp
    → parse_header resp 0 ≡ ok (h, 12)
    → Succeeds
        (λ out. (length out ≤ max limit 12) × (take 12 out ≡ marshal (truncated_header h)))
        (cut_response resp limit)
unfolding cut_response find_question_section_end
Succeeds-cut_response resp h limit bytes e =
    let header = marshal (truncated_header h) in
    let (counted, built) = build_truncated_header-marshal resp h 12 bytes e in
    let size : length header ≡ 12 = length-marshal (truncated_header h) in
    let alone : take 12 header ≡ header =
      ap (λ (xs : Bytes). take 12 xs) (sym (append-nil header)) ∙ take-prefix 12 header [] size in
    let (_, _, _, inside, _) = parse_header_words resp h 12 e in
    let (end, found, bounds) =
      Succeeds-value (λ r. (12 ≤ r) × (r ≤ length resp)) _
        (Succeeds-question_section_loop h.qd_count resp 12 inside) in
    let body = take (end - 12) (drop 12 resp) in
    let joined : take 12 (header ++ body) ≡ header = take-prefix 12 header body size in
    rw (counted, built, found)
      (ground (
        arith,
        alone,
        joined,
        slice_lem resp 12 end,
        length-append header body,
        length-take (end - 12) (drop 12 resp),
        length-drop 12 resp,
      ))

-- truncateUDPResponse answers on every message of bytes with a header. A message within the size
-- limit (512 where the size given is not positive) is left alone; a longer one is cut to at most
-- the larger of that limit and 12 bytes, and begins with the header of the message with TC set and
-- no records counted.
pub truncate_udp_response_bounded :
    (resp : Bytes) (h : Header) (max_size : ℤ)
    → All IsByte resp
    → parse_header resp 0 ≡ ok (h, 12)
    → Succeeds
        (λ out.
          ((length resp ≤ size_limit max_size) × (out ≡ resp))
          ⊎ ((size_limit max_size < length resp)
              × (length out ≤ max (size_limit max_size) 12)
              × (take 12 out ≡ marshal (truncated_header h))))
        (truncate_udp_response resp max_size)
unfolding truncate_udp_response
truncate_udp_response_bounded resp h max_size bytes e =
    let (_, _, _, inside, _) = parse_header_words resp h 12 e in
    let (out, cut, fits) =
      Succeeds-value
        (λ o.
          (length o ≤ max (size_limit max_size) 12) × (take 12 o ≡ marshal (truncated_header h)))
        _ (Succeeds-cut_response resp h (size_limit max_size) bytes e) in
    ground (arith, inside, cut, fits.0, fits.1)
