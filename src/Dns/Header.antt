-- ===== src/Dns/Header.antt =====
-- internal/dns/header.go: the 12-byte message header. An offset `*off` that the Go code advances
-- is returned beside the value.
pub mod RoundTrip
pub mod Flags
use hydra_dns.Base.{
  ℕ, ◌+◌, ◌<◌, ◌++◌, Bool, not, arith, ltb, ◌==◌, if◌then◌else◌, length, Result, ok, err,
  unexpected_eof, ◌>>=◌, ◌>>◌, fail_if, Bytes, IsU16, put_uint16, uint16_at, bit_and, bit_or,
  bit_clear16,
}
use hydra_dns.Dns.Enums.{qr_flag, aa_flag, tc_flag, rd_flag, ra_flag, ad_flag, cd_flag}

pub record Header : Type 0 where
  pub id : ℕ
  pub flags : ℕ
  pub qd_count : ℕ
  pub an_count : ℕ
  pub ns_count : ℕ
  pub ar_count : ℕ

pub record IsValid (h : Header) : Type 0 where
  pub id_fits : IsU16 h.id
  pub flags_fits : IsU16 h.flags
  pub qd_fits : IsU16 h.qd_count
  pub an_fits : IsU16 h.an_count
  pub ns_fits : IsU16 h.ns_count
  pub ar_fits : IsU16 h.ar_count

abbrev pub header_size : ℕ
header_size = 12

unfoldable pub marshal : Header → Bytes
marshal h =
    put_uint16 h.id
    ++ (put_uint16 h.flags
        ++ (put_uint16 h.qd_count
            ++ (put_uint16 h.an_count ++ (put_uint16 h.ns_count ++ put_uint16 h.ar_count))))

unfoldable pub parse_header : Bytes → ℕ → Result (Header × ℕ)
parse_header msg off = do
  fail_if (ltb (length msg) (off + header_size)) unexpected_eof
  id ← uint16_at msg off
  flags ← uint16_at msg (off + 2)
  qd ← uint16_at msg (off + 4)
  an ← uint16_at msg (off + 6)
  ns ← uint16_at msg (off + 8)
  ar ← uint16_at msg (off + 10)
  ok (
    record { id = id; flags = flags; qd_count = qd; an_count = an; ns_count = ns; ar_count = ar },
    off + header_size,
  )

-- The flag accessors read one bit each.
unfoldable pub has_flag : ℕ → ℕ → Bool
has_flag flags flag = not (bit_and flags flag == 0)

unfoldable pub authentic_data : Header → Bool
unfolding has_flag
authentic_data h = has_flag h.flags ad_flag

unfoldable pub checking_disabled : Header → Bool
unfolding has_flag
checking_disabled h = has_flag h.flags cd_flag

unfoldable pub set_ad : Header → Bool → Header
set_ad h enabled = record h {
  flags = if enabled then bit_or h.flags ad_flag else bit_clear16 h.flags ad_flag;
}

unfoldable pub set_cd : Header → Bool → Header
set_cd h enabled = record h {
  flags = if enabled then bit_or h.flags cd_flag else bit_clear16 h.flags cd_flag;
}

unfoldable pub recursion_desired : Header → Bool
unfolding has_flag
recursion_desired h = has_flag h.flags rd_flag

unfoldable pub recursion_available : Header → Bool
unfolding has_flag
recursion_available h = has_flag h.flags ra_flag

unfoldable pub authoritative : Header → Bool
unfolding has_flag
authoritative h = has_flag h.flags aa_flag

unfoldable pub truncated : Header → Bool
unfolding has_flag
truncated h = has_flag h.flags tc_flag

unfoldable pub is_query : Header → Bool
is_query h = bit_and h.flags qr_flag == 0

unfoldable pub is_response : Header → Bool
unfolding has_flag
is_response h = has_flag h.flags qr_flag
