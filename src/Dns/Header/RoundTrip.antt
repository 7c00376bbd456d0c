-- ===== src/Dns/Header/RoundTrip.antt =====
-- The header codec of internal/dns/header.go, both ways.
use hydra_dns.Base.{
  ℕ, ◌+◌, ◌≤◌, ◌≡◌, refl, ◌++◌, arith, ltb, length, length-append, All, ok, Returns, Bytes, IsByte,
  put_uint16, uint16_at, uint16_at_field, uint16_at_here, false, uint16_at_lem, Returns-uint16_at,
  ge→ltb,
}
use hydra_dns.Dns.Header.{Header, IsValid, marshal, parse_header}

pub length-marshal : (h : Header) → length (marshal h) ≡ 12
unfolding marshal put_uint16
length-marshal h = refl

-- A header of 16-bit words that was written, behind any prefix and in front of anything, is read
-- back, and the offset stands behind it.
pub parse_header-marshal :
    (h : Header) (pre post : Bytes)
    → IsValid h
    → parse_header (pre ++ (marshal h ++ post)) (length pre) ≡ ok (h, length pre + 12)
unfolding parse_header marshal put_uint16
parse_header-marshal h pre post v = rw (
  fits,
  uint16_at_here pre _ h.id v.id_fits,
  uint16_at_field pre a _ h.flags 2 refl v.flags_fits,
  uint16_at_field pre b _ h.qd_count 4 refl v.qd_fits,
  uint16_at_field pre c _ h.an_count 6 refl v.an_fits,
  uint16_at_field pre d _ h.ns_count 8 refl v.ns_fits,
  uint16_at_field pre e post h.ar_count 10 refl v.ar_fits,
)
  where
    fits : ltb (length (pre ++ (marshal h ++ post))) (length pre + 12) ≡ false
    fits = ge→ltb _ _ (omega (arith, length-append pre (marshal h ++ post)))

    a : Bytes
    a = put_uint16 h.id

    b : Bytes
    b = a ++ put_uint16 h.flags

    c : Bytes
    c = b ++ put_uint16 h.qd_count

    d : Bytes
    d = c ++ put_uint16 h.an_count

    e : Bytes
    e = d ++ put_uint16 h.ns_count

-- ParseHeader answers on every message and offset: it fails at the end of the message, and
-- otherwise moves twelve bytes on, within the message.
pub parse_header-Returns :
    (msg : Bytes) (off : ℕ)
    → Returns (λ r. (r.1 ≡ off + 12) × (r.1 ≤ length msg)) (parse_header msg off)
unfolding parse_header
parse_header-Returns msg off = ground (
  arith,
  uint16_at_lem msg off,
  uint16_at_lem msg (off + 2),
  uint16_at_lem msg (off + 4),
  uint16_at_lem msg (off + 6),
  uint16_at_lem msg (off + 8),
  uint16_at_lem msg (off + 10),
)

-- The words of a header parsed from bytes are in range.
pub parse_header-IsValid :
    (msg : Bytes) (off : ℕ) → All IsByte msg → Returns (λ r. IsValid r.0) (parse_header msg off)
unfolding parse_header
parse_header-IsValid msg off bytes = ground (
  arith,
  Returns-uint16_at msg off,
  Returns-uint16_at msg (off + 2),
  Returns-uint16_at msg (off + 4),
  Returns-uint16_at msg (off + 6),
  Returns-uint16_at msg (off + 8),
  Returns-uint16_at msg (off + 10),
)

-- The words that ParseHeader reads at the front of a message.
pub parse_header_words :
    (msg : Bytes) (h : Header) (off : ℕ)
    → parse_header msg 0 ≡ ok (h, off)
    → (uint16_at msg 0 ≡ ok h.id)
      × (uint16_at msg 2 ≡ ok h.flags)
      × (uint16_at msg 4 ≡ ok h.qd_count)
      × (12 ≤ length msg)
      × (off ≡ 12)
unfolding parse_header
parse_header_words msg h off e = ground (
  arith,
  e,
  uint16_at_lem msg 0,
  uint16_at_lem msg 2,
  uint16_at_lem msg 4,
  uint16_at_lem msg 6,
  uint16_at_lem msg 8,
  uint16_at_lem msg 10,
)
