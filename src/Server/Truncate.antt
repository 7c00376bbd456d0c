-- ===== src/Server/Truncate.antt =====
-- internal/server/truncate.go: fitting a response into the client's UDP payload size.
pub mod Skip
pub mod Bound
use hydra_dns.Base.{
  ℕ, zero, suc, ◌+◌, ◌-◌, [], ◌∷◌, ◌++◌, Bool, ltb, leb, ◌==◌, if◌then◌else◌, length, Result, ok,
  err, ◌>>=◌, Bytes, byte_at, slice, uint16_at, put_uint16, bit_or, out_of_fuel,
}
use hydra_dns.Base.Int.{ℤ, pos, pos_part, ltb_ℤ}
use hydra_dns.Dns.Enums.{tc_flag}
use hydra_dns.Dns.Header.{header_size}
use hydra_dns.Dns.Edns.{default_udp_payload_size}

unfoldable pub extract_question_count : Bytes → Result ℕ
extract_question_count msg = uint16_at msg 4

unfoldable pub build_truncated_header : Bytes → ℕ → Result Bytes
build_truncated_header resp qdcount = do
  flags ← uint16_at resp 2
  let new_flags = bit_or flags tc_flag
  id0 ← byte_at resp 0
  id1 ← byte_at resp 1
  ok (id0 ∷ id1 ∷ (put_uint16 new_flags ++ (put_uint16 qdcount ++ (0 ∷ 0 ∷ 0 ∷ 0 ∷ 0 ∷ 0 ∷ []))))

-- The loop of skipQNAME, on fuel.
unfoldable pub skip_qname_loop : ℕ → Bytes → ℕ → Result ℕ
skip_qname_loop zero msg at = err out_of_fuel
skip_qname_loop (suc fuel) msg at =
    if leb (length msg) at
    then ok at
    else (byte_at msg at >>= (λ label_len.
        let next = skip_qname_loop fuel msg (at + 1 + label_len) in
        if label_len == 0
        then ok (at + 1)
        else if leb 0xC0 label_len
        then ok (if ltb (length msg) (at + 2) then length msg else at + 2)
        else if ltb (length msg) (at + 1 + label_len)
        then ok (length msg)
        else next))

unfoldable pub skip_qname : Bytes → ℕ → Result ℕ
skip_qname msg at = skip_qname_loop (suc (length msg)) msg at

-- `for range qdcount`, from the offset where the next question begins.
unfoldable pub question_section_loop : ℕ → Bytes → ℕ → Result ℕ
question_section_loop zero msg at = ok at
question_section_loop (suc qdcount) msg at = skip_qname msg at >>= (λ at'.
    let rest = question_section_loop qdcount msg (at' + 4) in
    if ltb (length msg) at'
    then ok (length msg)
    else if ltb (length msg) (at' + 4)
    then ok (length msg)
    else rest)

unfoldable pub find_question_section_end : Bytes → ℕ → Result ℕ
find_question_section_end msg qdcount = question_section_loop qdcount msg header_size

-- The limit that applies: 512 for a size that is not positive.
unfoldable pub size_limit : ℤ → ℕ
size_limit max_size = if ltb_ℤ (pos 0) max_size then pos_part max_size else default_udp_payload_size

-- What is left of a response that is too long: its header, and its questions if they fit.
unfoldable pub cut_response : Bytes → ℕ → Result Bytes
cut_response resp limit = do
  qdcount ← extract_question_count resp
  header ← build_truncated_header resp qdcount
  if qdcount == 0
      then ok header
      else (find_question_section_end resp qdcount >>= (λ question_end.
          if leb question_end header_size
          then ok header
          else if ltb limit question_end
          then ok header
          else (slice resp header_size question_end >>= (λ questions. ok (header ++ questions)))))

unfoldable pub truncate_udp_response : Bytes → ℤ → Result Bytes
truncate_udp_response resp max_size =
    let limit = size_limit max_size in
    if leb (length resp) limit
    then ok resp
    else if ltb (length resp) header_size
    then ok resp
    else cut_response resp limit
