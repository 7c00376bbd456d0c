-- ===== src/Dns/Edns.antt =====
-- internal/dns/edns.go: EDNS options and the OPT pseudo-record.
pub mod Options
pub mod Opt
use hydra_dns.Base.{
  ℕ, zero, suc, ◌+◌, ◌-◌, ◌*◌, ◌/◌, ◌%◌, [], ◌∷◌, ◌++◌, List, Bool, true, false, not, ◌||◌, ltb,
  leb, ◌==◌, if◌then◌else◌, length, take, drop, Result, ok, err, ◌>>=◌, Bytes, bit_and, bit_or, ◌^◌,
  put_uint16, put_uint32, uint16_at, slice, Option, none, some, out_of_fuel,
}
use hydra_dns.Base.Int.{ℤ, pos}
use hydra_dns.Convert.{clamp_int, clamp_int_to_uint16, clamp_uint32_to_uint8}
use hydra_dns.Dns.Enums.{type_opt, tc_flag}
use hydra_dns.Dns.Header.{header_size}
use hydra_dns.Dns.Record.{
  Record, Data, raw, nil, other, ip_record, name_record, opaque_record, record_type, record_header,
}
use hydra_dns.Dns.Packet.{Packet}

abbrev pub default_udp_payload_size : ℕ
default_udp_payload_size = 512

abbrev pub edns_max_udp_payload_size : ℕ
edns_max_udp_payload_size = 4096

abbrev pub edns_min_udp_payload_size : ℕ
edns_min_udp_payload_size = 512

pub record EdnsOption : Type 0 where
  pub code : ℕ
  pub content : Bytes

abbrev pub edns_option_header_len : ℕ
edns_option_header_len = 4

abbrev pub edns_max_option_data_size : ℕ
edns_max_option_data_size = edns_max_udp_payload_size

-- COOKIE and PADDING.
unfoldable pub is_allowed_edns_option : ℕ → Bool
is_allowed_edns_option code = code == 10 || code == 12

unfoldable pub marshal_option : EdnsOption → Bytes
marshal_option o =
    put_uint16 o.code ++ (put_uint16 (clamp_int_to_uint16 (pos (length o.content))) ++ o.content)

-- The loop of ParseEDNSOptions on fuel; `i` is its index. `ln` is a uint16, so it is not negative.
unfoldable pub parse_options_loop : ℕ → Bytes → ℕ → Result (List EdnsOption)
unfolding is_allowed_edns_option
parse_options_loop zero rdata i = err out_of_fuel
parse_options_loop (suc fuel) rdata i =
    if leb (length rdata) i || ltb (length rdata - i) edns_option_header_len
    then ok []
    else (uint16_at rdata i >>= (λ code. uint16_at rdata (i + 2) >>= (λ ln.
        let i' = i + edns_option_header_len in
        let skip = parse_options_loop fuel rdata (i' + ln) in
        if ltb edns_max_option_data_size ln
        then (if ltb (length rdata) (i' + ln) then ok [] else skip)
        else if ltb (length rdata) (i' + ln)
        then ok []
        else if not (is_allowed_edns_option code)
        then skip
        else (slice rdata i' (i' + ln) >>= (λ content.
            skip >>= (λ opts. ok (record { code = code; content = content } ∷ opts)))))))

unfoldable pub parse_edns_options : Bytes → Result (List EdnsOption)
parse_edns_options rdata = parse_options_loop (suc (length rdata)) rdata 0

-- MarshalEDNSOptions: nil for no bytes is the empty slice here.
unfoldable pub marshal_edns_options : List EdnsOption → Bytes
marshal_edns_options [] = []
marshal_edns_options (o ∷ os) =
    if ltb edns_max_option_data_size (length o.content)
    then marshal_edns_options os
    else marshal_option o ++ marshal_edns_options os

pub record OptRecord : Type 0 where
  pub udp_payload_size : ℕ
  pub extended_rcode : ℕ
  pub version : ℕ
  pub dnssec_ok : Bool
  pub options : List EdnsOption

-- The payload size is an int of the configuration, and may be negative.
unfoldable pub create_opt : ℤ → OptRecord
unfolding clamp_int clamp_int_to_uint16
create_opt udp_payload_size =
    let sz = clamp_int udp_payload_size (pos edns_min_udp_payload_size) (pos 65535) in
    record {
      udp_payload_size = clamp_int_to_uint16 sz;
      extended_rcode = 0;
      version = 0;
      dnssec_ok = false;
      options = [];
    }

-- `uint32(extRCode)<<24 | uint32(version)<<16`, and the DO flag.
unfoldable pub pack_opt_ttl : ℕ → ℕ → Bool → ℕ
pack_opt_ttl ext_rcode version dnssec_ok =
    let ttl = bit_or (ext_rcode * 2 ^ 24 % 2 ^ 32) (version * 2 ^ 16) in
    if dnssec_ok then bit_or ttl (1 * 2 ^ 15) else ttl

unfoldable pub marshal_all_options : List EdnsOption → Bytes
marshal_all_options [] = []
marshal_all_options (o ∷ os) = marshal_option o ++ marshal_all_options os

unfoldable pub marshal_opt : OptRecord → Bytes
unfolding pack_opt_ttl
marshal_opt o =
    let rdata = marshal_all_options o.options in
    (0 ∷ [])
    ++ (put_uint16 type_opt
        ++ (put_uint16 o.udp_payload_size
            ++ (put_uint32 (pack_opt_ttl o.extended_rcode o.version o.dnssec_ok)
                ++ (put_uint16 (clamp_int_to_uint16 (pos (length rdata))) ++ rdata))))

-- The fields of an OPT record, from the class, the TTL and the data of the opaque record.
unfoldable pub read_opt : ℕ → ℕ → Bytes → Result OptRecord
unfolding clamp_uint32_to_uint8
read_opt class ttl content = do
  opts ← parse_edns_options content
  ok (record {
    udp_payload_size = class;
    extended_rcode = clamp_uint32_to_uint8 (ttl / 16777216 % 256);
    version = clamp_uint32_to_uint8 (ttl / 65536 % 256);
    dnssec_ok = ttl / 32768 % 2 == 1;
    options = opts;
  })

-- The first OPT record that holds raw bytes; `none` is nil.
unfoldable pub extract_opt : List Record → Result (Option OptRecord)
extract_opt [] = ok none
extract_opt (opaque_record h t (raw content) ∷ rs) =
    let rest = extract_opt rs in
    if t == type_opt then read_opt h.class h.ttl content >>= (λ o. ok (some o)) else rest
extract_opt (opaque_record h t nil ∷ rs) = extract_opt rs
extract_opt (opaque_record h t other ∷ rs) = extract_opt rs
extract_opt (ip_record h addr ∷ rs) = extract_opt rs
extract_opt (name_record h t target ∷ rs) = extract_opt rs

unfoldable pub client_max_udp_size : Packet → Result ℕ
client_max_udp_size req = do
  found ← extract_opt req.additionals
  ok (elim found [
    | some opt ↦
        if ltb opt.udp_payload_size default_udp_payload_size
        then default_udp_payload_size
        else opt.udp_payload_size
    | none ↦ default_udp_payload_size
  ])

unfoldable pub is_truncated : Bytes → Result Bool
is_truncated response =
    if ltb (length response) 4
    then ok false
    else (uint16_at response 2 >>= (λ flags. ok (not (bit_and flags tc_flag == 0))))

unfoldable pub add_edns_to_request_bytes : Packet → Bytes → ℤ → Result Bytes
add_edns_to_request_bytes req req_bytes udp_size = do
  existing ← extract_opt req.additionals
  elim existing [
    | some opt ↦ ok req_bytes
    | none ↦
        if ltb (length req_bytes) header_size
        then ok req_bytes
        else (uint16_at req_bytes 10 >>= (λ ar.
            let ar' = if ltb ar 65535 then ar + 1 else ar in
            ok (
              take 10 req_bytes
              ++ (put_uint16 ar' ++ (drop 12 req_bytes ++ marshal_opt (create_opt udp_size))))))
  ]
