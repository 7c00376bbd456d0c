-- ===== src/Dns/Edns/Opt.antt =====
-- The OPT record: its bit fields, the client's payload size, and a round trip.
use hydra_dns.Base.{
  ℕ, ◌+◌, ◌*◌, ◌/◌, ◌%◌, ◌^◌, ◌≤◌, ◌<◌, ◌≡◌, refl, ap, [], ◌∷◌, ◌++◌, List, Bool, true, false,
  arith, ◌==◌, if◌then◌else◌, length, All, Option, none, some, ok, Succeeds, Succeeds-value, Bytes,
  IsU16, IsByte, max, bit_or, put_uint16, put_uint32,
}
use hydra_dns.Base.Or.{bit_or_disjoint}
use hydra_dns.Convert.{clamp_uint32_to_uint8}
use hydra_dns.Dns.Enums.{type_opt}
use hydra_dns.Dns.Record.{
  Record, raw, nil, other, ip_record, name_record, opaque_record, marshal_record, parse_record,
  marshal_rdata, marshal_data, record_header, record_type, owner_wire, fixed_fields,
  marshal_record_with_rdata,
}
use hydra_dns.Dns.Record.Written.{
  IsRecord, received_record, received_header, received_owner, received_data,
}
use hydra_dns.Dns.Record.RoundTrip.{parse_record-marshal_record}
use hydra_dns.Dns.Packet.{Packet}
use hydra_dns.Dns.Edns
use hydra_dns.Dns.Edns.{
  EdnsOption, OptRecord, pack_opt_ttl, marshal_opt, marshal_all_options, marshal_edns_options,
  marshal_option, read_opt, extract_opt, client_max_udp_size, parse_edns_options,
}
use hydra_dns.Dns.Edns.Options.{IsKept, kept, parse_edns_options-marshal, parse_edns_options_total}

-- The packed TTL is the sum of its three fields.
pub pack_opt_ttl_sum :
    (ext version : ℕ) (dnssec_ok : Bool)
    → IsByte ext
    → IsByte version
    → pack_opt_ttl ext version dnssec_ok
      ≡ ext * 16777216 + version * 65536 + (if dnssec_ok then 32768 else 0)
unfolding pack_opt_ttl
pack_opt_ttl_sum ext version dnssec_ok a b =
    let fields : bit_or (ext * 2 ^ 24 % 2 ^ 32) (version * 2 ^ 16)
        ≡ ext * 2 ^ 24 + version * 2 ^ 16 =
      omega (arith, cut, bit_or_disjoint 24 ext (version * 2 ^ 16) (omega arith)) in
    let flagged = bit_or_disjoint 16 (ext * 256 + version) 32768 (omega arith) in
    let regroup : (ext * 256 + version) * 2 ^ 16 ≡ ext * 2 ^ 24 + version * 2 ^ 16 = omega arith in
    with_flag fields (rw regroup at flagged) dnssec_ok
  where
    cut :
        bit_or (ext * 2 ^ 24 % 2 ^ 32) (version * 2 ^ 16) ≡ bit_or (ext * 2 ^ 24) (version * 2 ^ 16)
    cut = ap (λ (t : ℕ). bit_or t (version * 2 ^ 16)) (omega arith)

    sum : ℕ
    sum = ext * 2 ^ 24 + version * 2 ^ 16

    with_flag :
        bit_or (ext * 2 ^ 24 % 2 ^ 32) (version * 2 ^ 16) ≡ sum
        → bit_or sum 32768 ≡ sum + 32768
        → (d : Bool)
        → (if d
            then bit_or (bit_or (ext * 2 ^ 24 % 2 ^ 32) (version * 2 ^ 16)) (1 * 2 ^ 15)
            else bit_or (ext * 2 ^ 24 % 2 ^ 32) (version * 2 ^ 16))
          ≡ ext * 16777216 + version * 65536 + (if d then 32768 else 0)
    with_flag p q true = rw p q
    with_flag p q false = rw p (omega arith)

Succeeds-read_opt :
    (class ttl : ℕ) (content : Bytes)
    → Succeeds (λ o. o.udp_payload_size ≡ class) (read_opt class ttl content)
unfolding read_opt
Succeeds-read_opt class ttl content = let (os, e, k) = parse_edns_options_total content in rw e refl

-- ExtractOPT returns on every list of records.
pub Succeeds-extract_opt : (rs : List Record) → Succeeds (λ o. Unit {0}) (extract_opt rs)
unfolding extract_opt
Succeeds-extract_opt [] = tt
Succeeds-extract_opt (opaque_record h t (raw content) ∷ rs) =
    ground (arith, Succeeds-extract_opt rs, Succeeds-read_opt h.class h.ttl content)
Succeeds-extract_opt (opaque_record h t nil ∷ rs) = Succeeds-extract_opt rs
Succeeds-extract_opt (opaque_record h t other ∷ rs) = Succeeds-extract_opt rs
Succeeds-extract_opt (ip_record h addr ∷ rs) = Succeeds-extract_opt rs
Succeeds-extract_opt (name_record h t target ∷ rs) = Succeeds-extract_opt rs

-- The size that a client can take.
unfoldable pub advertised : Option OptRecord → ℕ
advertised none = 512
advertised (some opt) = max 512 opt.udp_payload_size

-- ClientMaxUDPSize returns on every request: 512 if ExtractOPT finds no OPT record, and otherwise
-- the size that the record advertises, raised to 512.
pub client_max_udp_size_total :
    (req : Packet)
    → (found : Option OptRecord) × (extract_opt req.additionals ≡ ok found)
      × (client_max_udp_size req ≡ ok (advertised found))
unfolding client_max_udp_size advertised
client_max_udp_size_total req =
    let (found, e, _) = Succeeds-value _ _ (Succeeds-extract_opt req.additionals) in
    (found, e, ground (arith, e))

abbrev pub IsOpt : OptRecord → Type 0
IsOpt o =
    IsU16 o.udp_payload_size
    × IsByte o.extended_rcode
    × IsByte o.version
    × All (λ x. IsU16 x.code × IsKept x) o.options
    × (length (marshal_all_options o.options) ≤ 65535)

-- The opaque record that stands for an OPT record on the wire.
unfoldable pub opt_as_record : OptRecord → Record
opt_as_record o =
    opaque_record
      (record {
        name = [];
        class = o.udp_payload_size;
        ttl = pack_opt_ttl o.extended_rcode o.version o.dnssec_ok;
      })
      type_opt (raw (marshal_all_options o.options))

marshal_record-opt_as_record :
    (o : OptRecord)
    → length (marshal_all_options o.options) ≤ 65535
    → marshal_record (opt_as_record o) ≡ ok (marshal_opt o)
unfolding marshal_record marshal_rdata marshal_data marshal_record_with_rdata marshal_opt
    opt_as_record owner_wire fixed_fields record_header record_type put_uint16 put_uint32
marshal_record-opt_as_record o h = ground arith

marshal_all_options-kept :
    (os : List EdnsOption)
    → All (λ x. IsU16 x.code × IsKept x) os
    → (marshal_all_options os ≡ marshal_edns_options os)
      × (kept os ≡ os)
      × All (λ x. IsU16 x.code) os
unfolding marshal_all_options marshal_edns_options kept Edns.is_allowed_edns_option
marshal_all_options-kept [] h = (refl, refl, tt)
marshal_all_options-kept (o ∷ os) h =
    let (a, b, c) = marshal_all_options-kept os h.1 in
    (ground (arith, a, h.0), ground (arith, b, h.0), (h.0.0, c))

-- The three fields, taken out of the packed TTL.
ttl_fields :
    (ext version : ℕ) (dnssec_ok : Bool)
    → IsByte ext
    → IsByte version
    → (clamp_uint32_to_uint8 (pack_opt_ttl ext version dnssec_ok / 16777216 % 256) ≡ ext)
      × (clamp_uint32_to_uint8 (pack_opt_ttl ext version dnssec_ok / 65536 % 256) ≡ version)
      × ((pack_opt_ttl ext version dnssec_ok / 32768 % 2 == 1) ≡ dnssec_ok)
      × (pack_opt_ttl ext version dnssec_ok < 4294967296)
unfolding clamp_uint32_to_uint8
ttl_fields ext version dnssec_ok a b =
    rw (pack_opt_ttl_sum ext version dnssec_ok a b) (split dnssec_ok)
  where
    split :
        (d : Bool)
        → (clamp_uint32_to_uint8
              ((ext * 16777216 + version * 65536 + (if d then 32768 else 0)) / 16777216 % 256)
            ≡ ext)
          × (clamp_uint32_to_uint8
                ((ext * 16777216 + version * 65536 + (if d then 32768 else 0)) / 65536 % 256)
              ≡ version)
          × (((ext * 16777216 + version * 65536 + (if d then 32768 else 0)) / 32768 % 2 == 1) ≡ d)
          × (ext * 16777216 + version * 65536 + (if d then 32768 else 0) < 4294967296)
    split true = (ground arith, ground arith, ground arith, ground arith)
    split false = (ground arith, ground arith, ground arith, ground arith)

read_opt-pack :
    (o : OptRecord)
    → IsOpt o
    → read_opt o.udp_payload_size
        (pack_opt_ttl o.extended_rcode o.version o.dnssec_ok)
        (marshal_all_options o.options)
      ≡ ok o
unfolding read_opt
read_opt-pack o h =
    let (ext, version, dnssec, _) = ttl_fields o.extended_rcode o.version o.dnssec_ok h.1 h.2 in
    let (same, all, codes) = marshal_all_options-kept o.options h.3 in
    rw (same, parse_edns_options-marshal o.options codes, all, ext, version, dnssec)

-- An OPT record of words in range with COOKIE and PADDING options of at most 4096 bytes, 65535 in
-- all, is found by ExtractOPT in what ParseRecord reads of its wire form, behind any prefix and in
-- front of anything, with every field as it was.
pub extract_opt-marshal_opt :
    (o : OptRecord) (pre post : Bytes) (rs : List Record)
    → IsOpt o
    → (r : Record) × (parse_record (pre ++ (marshal_opt o ++ post)) (length pre)
        ≡ ok (r, length pre + length (marshal_opt o)))
      × (extract_opt (r ∷ rs) ≡ ok (some o))
unfolding opt_as_record received_record received_header received_owner received_data extract_opt
    record_header
extract_opt-marshal_opt o pre post rs h =
    let (_, _, _, small) = ttl_fields o.extended_rcode o.version o.dnssec_ok h.1 h.2 in
    let whole = marshal_record-opt_as_record o h.4 in
    (
      received_record (opt_as_record o),
      parse_record-marshal_record (opt_as_record o) (marshal_opt o) pre post (valid small) whole,
      rw (read_opt-pack o h),
    )
  where
    valid :
        pack_opt_ttl o.extended_rcode o.version o.dnssec_ok < 4294967296
        → IsRecord (opt_as_record o)
    valid small = record { class_fits = h.0; ttl_fits = small; type_fits = omega arith }
