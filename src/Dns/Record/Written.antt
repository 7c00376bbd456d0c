-- ===== src/Dns/Record/Written.antt =====
-- What MarshalRecord writes, and which records a receiver can read back.
use hydra_dns.Base.{
  ℕ, ◌≤◌, ◌≡◌, ◌≢◌, ◌⊎◌, [], ◌++◌, arith, length, ok, Bytes, IsU16, IsU32, >>=-eq-ok, length-drop,
  none, some, ◌==◌, if◌then◌else◌,
}
use hydra_dns.Dns.Enums.{type_a, type_ns, type_cname, type_ptr, type_aaaa, type_opt}
use hydra_dns.Dns.Name.{trim_dot}
use hydra_dns.Dns.Record.{
  RrHeader, Data, raw, nil, other, Record, ip_record, name_record, opaque_record, to4, to16,
  ip_type, record_type, record_header, marshal_ip, marshal_rdata, owner_wire, fixed_fields,
  marshal_record_with_rdata, marshal_record,
}

abbrev pub IsNameType : ℕ → Type 0
IsNameType t = (t ≡ type_cname) ⊎ ((t ≡ type_ns) ⊎ (t ≡ type_ptr))

abbrev pub IsOpaqueType : ℕ → Type 0
IsOpaqueType t =
    IsU16 t × (t ≢ type_a) × (t ≢ type_aaaa) × (t ≢ type_cname) × (t ≢ type_ns) × (t ≢ type_ptr)

abbrev pub HasFittingType : Record → Type 0
HasFittingType (ip_record h addr) = Unit
HasFittingType (name_record h t target) = IsNameType t
HasFittingType (opaque_record h t d) = IsOpaqueType t

-- Words in range, and the type that the constructor stands for.
pub record IsRecord (r : Record) : Type 0 where
  pub class_fits : IsU16 (record_header r).class
  pub ttl_fits : IsU32 (record_header r).ttl
  pub type_fits : HasFittingType r

-- What the receiver of a record sees: the names without trailing dots, the root for the owner of
-- an OPT record, an address in its shortest form, and absent data as empty data.
unfoldable pub received_owner : ℕ → Bytes → Bytes
received_owner rt name = if rt == type_opt then [] else trim_dot name

unfoldable pub received_addr : Bytes → Bytes
received_addr addr = elim (to4 addr) [ some a ↦ a | none ↦ addr ]

unfoldable pub received_data : Data → Data
received_data nil = raw []
received_data (raw b) = raw b
received_data other = other

unfoldable pub received_header : ℕ → RrHeader → RrHeader
unfolding received_owner
received_header rt h = record h { name = received_owner rt h.name }

unfoldable pub received_record : Record → Record
received_record (ip_record h addr) =
    ip_record (received_header (ip_type addr) h) (received_addr addr)
received_record (name_record h t target) = name_record (received_header t h) t (trim_dot target)
received_record (opaque_record h t d) = opaque_record (received_header t h) t (received_data d)

-- The parts of a successful MarshalRecord.
pub marshal_record_parts :
    (r : Record) (w : Bytes)
    → marshal_record r ≡ ok w
    → (rdata : Bytes) × (owner : Bytes) × (marshal_rdata r ≡ ok rdata)
      × (owner_wire (record_type r) (record_header r).name ≡ ok owner)
      × (length rdata ≤ 65535)
      × (w ≡ owner ++ (fixed_fields (record_header r) (record_type r) (length rdata) ++ rdata))
unfolding marshal_record marshal_record_with_rdata
marshal_record_parts r w h =
    let (rdata, e, h') = >>=-eq-ok (marshal_rdata r) _ h in
    let (owner, e', h'') = >>=-eq-ok (owner_wire (record_type r) (record_header r).name) _ h' in
    (rdata, owner, e, e', ground (arith, h''), ground (arith, h''))

-- The RDATA of an address is the address as received, of 4 bytes for A and 16 for AAAA.
pub marshal_ip_ok :
    (addr rdata : Bytes)
    → marshal_ip addr ≡ ok rdata
    → (rdata ≡ received_addr addr)
      × ((ip_type addr ≡ type_a) × (length rdata ≡ 4)
          ⊎ (ip_type addr ≡ type_aaaa) × (length rdata ≡ 16))
unfolding marshal_ip to4 to16 ip_type received_addr
marshal_ip_ok addr rdata h = ground (arith, length-drop 12 addr)
