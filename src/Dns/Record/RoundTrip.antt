-- ===== src/Dns/Record/RoundTrip.antt =====
-- ParseRecord reads back what MarshalRecord wrote.
use hydra_dns.Base.{
  ℕ, ◌+◌, ◌≤◌, ◌≡◌, ◌⊎◌, refl, ap, ◌∙◌, [], ◌++◌, append_assoc, arith, length, length-append, ok,
  Bytes, IsU16, IsU32, ge→ltb, slice-append, put_uint16, put_uint32, uint16_at, uint32_at,
  uint16_at_next, uint16_at_behind, uint32_at_behind,
}
use hydra_dns.Base.Int.{pos}
use hydra_dns.Convert.{clamp_int_to_uint16, clamp_int_to_uint16_small}
use hydra_dns.Dns.Name.{encode_name, decode_name, trim_dot}
use hydra_dns.Dns.Name.Encode.{name_wire}
use hydra_dns.Dns.Name.RoundTrip.{decode_name-name_wire, decode_name-encode_name}
use hydra_dns.Dns.Record.{
  RrHeader, no_header, raw, Record, ip_record, name_record, opaque_record, ip_type, record_type,
  record_header, set_header, marshal_data, marshal_rdata, owner_wire, fixed_fields, marshal_record,
  parse_ip_rdata, parse_name_rdata, parse_opaque_rdata, parse_rdata, parse_record,
}
use hydra_dns.Dns.Record.Written.{
  IsRecord, HasFittingType, received_owner, received_data, received_header, received_record,
  marshal_record_parts, marshal_ip_ok,
}

pub record_type-IsU16 : (r : Record) → HasFittingType r → IsU16 (record_type r)
unfolding record_type
record_type-IsU16 (ip_record h addr) f = unfold ip_type in ground arith
record_type-IsU16 (name_record h t target) f = ground arith
record_type-IsU16 (opaque_record h t d) f = f.0

-- The owner's name is decoded as the receiver sees it.
pub decode_name-owner_wire :
    (rt : ℕ) (name owner pre post : Bytes)
    → owner_wire rt name ≡ ok owner
    → decode_name (pre ++ (owner ++ post)) (length pre)
      ≡ ok (received_owner rt name, length pre + length owner)
unfolding owner_wire received_owner name_wire
decode_name-owner_wire rt name owner pre post h =
    ground
      (arith, decode_name-name_wire [] pre post tt, decode_name-encode_name name owner pre post)

module _ (front post : Bytes) where
  parse_ip_rdata_here :
      (addr : Bytes)
      → (length addr ≡ 4) ⊎ (length addr ≡ 16)
      → parse_ip_rdata (front ++ (addr ++ post)) (length front) (length addr)
        ≡ ok (ip_record no_header addr, length front + length addr)
  unfolding parse_ip_rdata
  parse_ip_rdata_here addr h = ground (
    arith,
    slice-append front addr post,
    length-append front (addr ++ post),
    length-append addr post,
  )

  parse_name_rdata_here :
      (rt : ℕ) (target rdata : Bytes)
      → encode_name target ≡ ok rdata
      → parse_name_rdata (front ++ (rdata ++ post)) (length front) (length front) (length rdata) rt
        ≡ ok (name_record no_header rt (trim_dot target), length front + length rdata)
  unfolding parse_name_rdata
  parse_name_rdata_here rt target rdata h =
      ground (arith, decode_name-encode_name target rdata front post h)

  parse_opaque_rdata_here :
      (rt : ℕ) (b : Bytes)
      → parse_opaque_rdata (front ++ (b ++ post)) (length front) (length b) rt
        ≡ ok (opaque_record no_header rt (raw b), length front + length b)
  unfolding parse_opaque_rdata
  parse_opaque_rdata_here rt b = rw (slice-append front b post)

  -- The RDATA of each kind of record, parsed where it stands.
  parse_rdata-marshal_rdata :
      (r : Record) (rdata : Bytes)
      → HasFittingType r
      → marshal_rdata r ≡ ok rdata
      → parse_rdata
          (record_type r)
          (front ++ (rdata ++ post))
          (length front)
          (length front)
          (length rdata)
        ≡ ok (set_header no_header (received_record r), length front + length rdata)
  unfolding parse_rdata record_type marshal_rdata received_record set_header
  parse_rdata-marshal_rdata (ip_record h addr) rdata f e =
      ground (arith, marshal_ip_ok addr rdata e, parse_ip_rdata_here rdata)
  parse_rdata-marshal_rdata (name_record h t target) rdata f e =
      ground (arith, parse_name_rdata_here t target rdata e)
  parse_rdata-marshal_rdata (opaque_record h t d) rdata f e =
      unfold marshal_data received_data in ground (arith, parse_opaque_rdata_here t rdata)

pub length-fixed_fields : (h : RrHeader) (rt size : ℕ) → length (fixed_fields h rt size) ≡ 10
unfolding fixed_fields put_uint16 put_uint32
length-fixed_fields h rt size = refl

-- The four words behind the owner's name.
module _ (h : RrHeader) (rt size : ℕ) (pre owner post : Bytes) where
  unfoldable pub fixed_message : Bytes
  fixed_message = pre ++ (owner ++ (fixed_fields h rt size ++ post))

  pub fields_here :
      IsU16 rt
      → IsU16 h.class
      → IsU32 h.ttl
      → size ≤ 65535
      → (uint16_at fixed_message (length pre + length owner) ≡ ok rt)
        × (uint16_at fixed_message (length pre + length owner + 2) ≡ ok h.class)
        × (uint32_at fixed_message (length pre + length owner + 4) ≡ ok h.ttl)
        × (uint16_at fixed_message (length pre + length owner + 8) ≡ ok size)
  unfolding fixed_message fixed_fields put_uint16 put_uint32
  fields_here a b c d =
      let n = clamp_int_to_uint16 (pos size) in
      let small : n ≡ size = clamp_int_to_uint16_small size d in
      (
        uint16_at_next pre owner _ rt a,
        uint16_at_behind pre owner (put_uint16 rt) _ h.class 2 refl b,
        uint32_at_behind pre owner (put_uint16 rt ++ put_uint16 h.class) _ h.ttl 4 refl c,
        uint16_at_behind pre owner (put_uint16 rt ++ (put_uint16 h.class ++ put_uint32 h.ttl)) post
              n 8 refl (omega (arith, small))
            ∙ ap ok small,
      )

set_header_received :
    (r : Record)
    → set_header
        (received_header (record_type r) (record_header r))
        (set_header no_header (received_record r))
      ≡ received_record r
unfolding set_header received_record record_type record_header
set_header_received (ip_record h addr) = refl
set_header_received (name_record h t target) = refl
set_header_received (opaque_record h t d) = refl

-- ParseRecord from the results of its steps.
parse_record_steps :
    (msg : Bytes) (off o : ℕ) (name : Bytes) (rt class ttl len o' : ℕ) (tr : Record)
    → decode_name msg off ≡ ok (name, o)
    → o + 10 + len ≤ length msg
    → uint16_at msg o ≡ ok rt
    → uint16_at msg (o + 2) ≡ ok class
    → uint32_at msg (o + 4) ≡ ok ttl
    → uint16_at msg (o + 8) ≡ ok len
    → parse_rdata rt msg (o + 10) (o + 10) len ≡ ok (tr, o')
    → parse_record msg off
      ≡ ok (set_header (record { name = name; class = class; ttl = ttl }) tr, o')
unfolding parse_record
parse_record_steps msg off o name rt class ttl len o' tr d room a b c e p =
    rw (d, ge→ltb (length msg) (o + 10) (omega arith), a, b, c, e)
      (rw (ge→ltb (length msg) (o + 10 + len) room, p))

-- The wire form of a record in a message, split behind the owner and behind the fixed fields.
module _ (pre owner fixed rdata post : Bytes) where
  pub split_owner :
      pre ++ (owner ++ (fixed ++ rdata) ++ post) ≡ pre ++ (owner ++ (fixed ++ (rdata ++ post)))
  split_owner = simp append_assoc

  split_fixed :
      (pre ++ (owner ++ fixed)) ++ (rdata ++ post) ≡ pre ++ (owner ++ (fixed ++ (rdata ++ post)))
  split_fixed = simp append_assoc

  front_size : length fixed ≡ 10 → length (pre ++ (owner ++ fixed)) ≡ length pre + length owner + 10
  front_size h = omega (arith, length-append pre (owner ++ fixed), length-append owner fixed)

  pub record_size :
      length fixed ≡ 10 → length (owner ++ (fixed ++ rdata)) ≡ length owner + 10 + length rdata
  record_size h = omega (arith, length-append owner (fixed ++ rdata), length-append fixed rdata)

  pub record_room :
      length fixed ≡ 10
      → length pre + length owner + 10 + length rdata
        ≤ length (pre ++ (owner ++ (fixed ++ (rdata ++ post))))
  record_room h = omega (
    arith,
    length-append pre (owner ++ (fixed ++ (rdata ++ post))),
    length-append owner (fixed ++ (rdata ++ post)),
    length-append fixed (rdata ++ post),
    length-append rdata post,
  )

-- ParseRecord reads back what MarshalRecord wrote, behind any prefix and in front of anything:
-- the record as its receiver sees it, for words in range and a type that fits the kind of record.
pub parse_record-marshal_record :
    (r : Record) (w pre post : Bytes)
    → IsRecord r
    → marshal_record r ≡ ok w
    → parse_record (pre ++ (w ++ post)) (length pre) ≡ ok (received_record r, length pre + length w)
unfolding received_header fixed_message
parse_record-marshal_record r w pre post v m =
    let (rdata, owner, e, e', small, written) = marshal_record_parts r w m in
    let h = record_header r in
    let rt = record_type r in
    let fixed = fixed_fields h rt (length rdata) in
    let ten = length-fixed_fields h rt (length rdata) in
    let (a, b, c, d) =
      fields_here h rt (length rdata) pre owner (rdata ++ post) (record_type-IsU16 r v.type_fits)
        v.class_fits v.ttl_fits small in
    let parsed =
      rw (split_fixed pre owner fixed rdata post, front_size pre owner fixed rdata post ten) at
        (parse_rdata-marshal_rdata (pre ++ (owner ++ fixed)) post r rdata v.type_fits e) in
    let o = length pre + length owner in
    let total : o + 10 + length rdata ≡ length pre + length (owner ++ (fixed ++ rdata)) =
      omega (arith, record_size pre owner fixed rdata post ten) in
    rw (written, split_owner pre owner fixed rdata post)
      (parse_record_steps _ _ o _ rt h.class h.ttl (length rdata) (o + 10 + length rdata) _
          (decode_name-owner_wire rt h.name owner pre (fixed ++ (rdata ++ post)) e')
          (record_room pre owner fixed rdata post ten) a b c d parsed
        ∙ ap ok (λ i. (set_header_received r i, total i)))
