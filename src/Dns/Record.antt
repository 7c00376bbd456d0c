-- ===== src/Dns/Record.antt =====
-- internal/dns/record.go, ip_record.go, name_record.go, opaque_record.go: resource records. The
-- interface Record is a data type with a constructor for each implementation.
pub mod Returned
pub mod Written
pub mod RoundTrip
use hydra_dns.Base.{
  ℕ, ◌+◌, ◌-◌, [], ◌∷◌, ◌++◌, List, Bool, true, false, not, ◌&&◌, ◌||◌, ltb, leb, ◌==◌,
  if◌then◌else◌, length, get_or, drop, take, replicate, Result, ok, err, ◌>>=◌, ◌>>◌, fail_if,
  Bytes, bytes_eq, put_uint16, put_uint32, uint16_at, uint32_at, slice, unexpected_eof,
  bad_ip_length, bad_ip, rdata_mismatch, rdata_too_large, not_raw_bytes, Option, none, some,
}
use hydra_dns.Base.Int.{pos}
use hydra_dns.Convert.{clamp_int_to_uint16}
use hydra_dns.Dns.Enums.{type_a, type_ns, type_cname, type_ptr, type_aaaa, type_opt}
use hydra_dns.Dns.Name.{encode_name, decode_name}

pub record RrHeader : Type 0 where
  pub name : Bytes
  pub class : ℕ
  pub ttl : ℕ

abbrev pub no_header : RrHeader
no_header = record { name = []; class = 0; ttl = 0 }

-- The field `Data any` of OpaqueRecord: nil, raw bytes, or a value of another type.
pub data Data : Type 0 where
  nil other : Data
  raw : Bytes → Data

pub data Record : Type 0 where
  ip_record : RrHeader → Bytes → Record
  name_record : RrHeader → ℕ → Bytes → Record
  opaque_record : RrHeader → ℕ → Data → Record

-- `::ffff:0:0/96`, the prefix of an IPv4 address in 16 bytes.
abbrev pub v4_prefix : Bytes
v4_prefix = 0 ∷ 0 ∷ 0 ∷ 0 ∷ 0 ∷ 0 ∷ 0 ∷ 0 ∷ 0 ∷ 0 ∷ 0xff ∷ 0xff ∷ []

-- net.IP's To4 and To16.
unfoldable pub to4 : Bytes → Option Bytes
to4 addr =
    if length addr == 4
    then some addr
    else if length addr == 16 && bytes_eq (take 12 addr) v4_prefix
    then some (drop 12 addr)
    else none

unfoldable pub to16 : Bytes → Option Bytes
to16 addr =
    if length addr == 4
    then some (v4_prefix ++ addr)
    else if length addr == 16
    then some addr
    else none

unfoldable pub ip_type : Bytes → ℕ
ip_type addr = elim (to4 addr) [ some a ↦ type_a | none ↦ type_aaaa ]

unfoldable pub record_type : Record → ℕ
unfolding ip_type
record_type (ip_record h addr) = ip_type addr
record_type (name_record h t target) = t
record_type (opaque_record h t d) = t

unfoldable pub record_header : Record → RrHeader
record_header (ip_record h addr) = h
record_header (name_record h t target) = h
record_header (opaque_record h t d) = h

unfoldable pub set_header : RrHeader → Record → Record
set_header h (ip_record _ addr) = ip_record h addr
set_header h (name_record _ t target) = name_record h t target
set_header h (opaque_record _ t d) = opaque_record h t d

unfoldable pub marshal_ip : Bytes → Result Bytes
marshal_ip addr = elim (to4 addr) [
  | some ip4 ↦ ok ip4
  | none ↦ elim (to16 addr) [ some ip6 ↦ ok ip6 | none ↦ err bad_ip ]
]

unfoldable pub marshal_data : Data → Result Bytes
marshal_data nil = ok []
marshal_data (raw b) = ok b
marshal_data other = err not_raw_bytes

unfoldable pub marshal_rdata : Record → Result Bytes
unfolding marshal_ip marshal_data
marshal_rdata (ip_record h addr) = marshal_ip addr
marshal_rdata (name_record h t target) = encode_name target
marshal_rdata (opaque_record h t d) = marshal_data d

unfoldable pub parse_ip_rdata : Bytes → ℕ → ℕ → Result (Record × ℕ)
parse_ip_rdata msg off rdlen = do
  fail_if (not (rdlen == 4) && not (rdlen == 16)) bad_ip_length
  fail_if (ltb (length msg) (off + rdlen)) unexpected_eof
  b ← slice msg off (off + rdlen)
  ok (ip_record no_header b, off + rdlen)

-- `off` never falls below `start`, so the subtraction is Go's.
unfoldable pub parse_name_rdata : Bytes → ℕ → ℕ → ℕ → ℕ → Result (Record × ℕ)
parse_name_rdata msg off start rdlen rt = do
  (n, off') ← decode_name msg off
  fail_if (not (off' - start == rdlen)) rdata_mismatch
  ok (name_record no_header rt n, off')

unfoldable pub parse_opaque_rdata : Bytes → ℕ → ℕ → ℕ → Result (Record × ℕ)
parse_opaque_rdata msg off rdlen rt = do
  b ← slice msg off (off + rdlen)
  ok (opaque_record no_header rt (raw b), off + rdlen)

unfoldable pub parse_rdata : ℕ → Bytes → ℕ → ℕ → ℕ → Result (Record × ℕ)
parse_rdata rt msg off start rdlen =
    if rt == type_a || rt == type_aaaa
    then parse_ip_rdata msg off rdlen
    else if rt == type_cname || (rt == type_ns || rt == type_ptr)
    then parse_name_rdata msg off start rdlen rt
    else parse_opaque_rdata msg off rdlen rt

unfoldable pub parse_record : Bytes → ℕ → Result (Record × ℕ)
parse_record msg off = do
  (name, off1) ← decode_name msg off
  fail_if (ltb (length msg) (off1 + 10)) unexpected_eof
  rr_type ← uint16_at msg off1
  rr_class ← uint16_at msg (off1 + 2)
  ttl ← uint32_at msg (off1 + 4)
  rdlen ← uint16_at msg (off1 + 8)
  let start = off1 + 10
  fail_if (ltb (length msg) (start + rdlen)) unexpected_eof
  (tr, off2) ← parse_rdata rr_type msg start start rdlen
  ok (set_header (record { name = name; class = rr_class; ttl = ttl }) tr, off2)

-- The owner's name: the root for OPT, whatever the header says.
unfoldable pub owner_wire : ℕ → Bytes → Result Bytes
owner_wire rt name = if rt == type_opt then ok (0 ∷ []) else encode_name name

unfoldable pub fixed_fields : RrHeader → ℕ → ℕ → Bytes
fixed_fields h rt size =
    put_uint16 rt
    ++ (put_uint16 h.class ++ (put_uint32 h.ttl ++ put_uint16 (clamp_int_to_uint16 (pos size))))

unfoldable pub marshal_record_with_rdata : RrHeader → ℕ → Bytes → Result Bytes
unfolding owner_wire fixed_fields
marshal_record_with_rdata h rt rdata = do
  name_wire ← owner_wire rt h.name
  fail_if (ltb 65535 (length rdata)) rdata_too_large
  ok (name_wire ++ (fixed_fields h rt (length rdata) ++ rdata))

unfoldable pub marshal_record : Record → Result Bytes
marshal_record r = do
  rdata ← marshal_rdata r
  marshal_record_with_rdata (record_header r) (record_type r) rdata
