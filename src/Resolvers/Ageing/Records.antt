-- ===== src/Resolvers/Ageing/Records.antt =====
-- The TTLs that adjustTTLs writes: those of the records, and nothing else of a record.
use hydra_dns.Base.{
  ℕ, ◌+◌, ◌-◌, ◌≤◌, max, ◌≡◌, refl, sym, ap, ◌∙◌, arith, ◌++◌, true, false, leb, ◌==◌,
  if◌then◌else◌, length, length-append, take, drop, take-append, drop-append, some, Bool-cases, inl,
  inr, ok, Bytes, IsU32, put_uint16, put_uint32, uint16_at, uint32_at, append_assoc, ge→ltb,
}
use hydra_dns.Base.Int.{pos}
use hydra_dns.Convert.{clamp_int_to_uint16}
use hydra_dns.Dns.Record.{
  Record, ip_record, name_record, opaque_record, RrHeader, record_header, record_type, set_header,
  marshal_rdata, owner_wire, fixed_fields, marshal_record, marshal_record_with_rdata,
}
use hydra_dns.Dns.Record.Written.{IsRecord, marshal_record_parts}
use hydra_dns.Dns.Record.RoundTrip.{
  record_type-IsU16, decode_name-owner_wire, length-fixed_fields, fixed_message, fields_here,
  split_owner, record_size, record_room,
}
use hydra_dns.Dns.Enums.{type_opt}
use hydra_dns.Dns.Name.{decode_name}
use hydra_dns.Resolvers.Ageing.{aged_ttl, write_aged, skip_rdata, age_fixed_part, age_record}

-- What is left of a TTL: at least a second of one that the age has not passed; from an older one
-- the subtraction wraps.
unfoldable pub remaining : ℕ → ℕ → ℕ
remaining age ttl = if leb age ttl then max 1 (ttl - age) else ttl + 4294967296 - age

remaining_lem : (age ttl : ℕ) → IsU32 age → IsU32 ttl → aged_ttl age ttl ≡ remaining age ttl
unfolding remaining
remaining_lem age ttl a t = ground (arith, a, t)

remaining-IsU32 : (age ttl : ℕ) → IsU32 age → IsU32 ttl → IsU32 (remaining age ttl)
unfolding remaining
remaining-IsU32 age ttl a t = ground (arith, a, t)

-- The record at an age: an OPT record, whose TTL is something else, stays as it is.
unfoldable pub aged_record : ℕ → Record → Record
unfolding remaining
aged_record age r =
    let h : RrHeader = record_header r in
    if record_type r == 41 then r else set_header (record h { ttl = remaining age h.ttl }) r

with_ttl : RrHeader → ℕ → RrHeader
with_ttl h ttl = record h { ttl = ttl }

marshal_record-set_header :
    (r : Record) (h : RrHeader) (rdata owner : Bytes)
    → marshal_rdata r ≡ ok rdata
    → owner_wire (record_type r) h.name ≡ ok owner
    → length rdata ≤ 65535
    → marshal_record (set_header h r)
      ≡ ok (owner ++ (fixed_fields h (record_type r) (length rdata) ++ rdata))
unfolding marshal_record marshal_record_with_rdata set_header record_type record_header
    marshal_rdata
marshal_record-set_header (ip_record h' addr) h rdata owner e e' n = ground (arith, e, e', n)
marshal_record-set_header (name_record h' t target) h rdata owner e e' n = ground (arith, e, e', n)
marshal_record-set_header (opaque_record h' t d) h rdata owner e e' n = ground (arith, e, e', n)

-- The bytes behind `a`, so many as in `b`, replaced.
replaced :
    (a b x c : Bytes) (off end : ℕ)
    → off ≡ length a
    → end ≡ length a + length b
    → take off (a ++ (b ++ c)) ++ (x ++ drop end (a ++ (b ++ c))) ≡ a ++ (x ++ c)
replaced a b x c off end at_off at_end =
    let behind : drop end (a ++ (b ++ c)) ≡ c =
      rw (at_end, ← length-append a b, ← append_assoc a b c) (drop-append (a ++ b) c) in
    rw (behind, at_off, take-append a (b ++ c)) refl

two_words : (a b : ℕ) → length (put_uint16 a ++ put_uint16 b) ≡ 4
unfolding put_uint16
two_words a b = refl

four_bytes : (a : ℕ) → length (put_uint32 a) ≡ 4
unfolding put_uint32
four_bytes a = refl

module _ (rt size : ℕ) (pre owner post : Bytes) where
  -- A message up to the TTL of a record, and from behind it.
  front : ℕ → Bytes
  front class = pre ++ (owner ++ (put_uint16 rt ++ put_uint16 class))

  back : Bytes
  back = put_uint16 (clamp_int_to_uint16 (pos size)) ++ post

  message_split :
      (h : RrHeader)
      → fixed_message h rt size pre owner post ≡ front h.class ++ (put_uint32 h.ttl ++ back)
  unfolding fixed_message fixed_fields front back
  message_split h = simp append_assoc

  length-front : (class : ℕ) → length pre + length owner + 4 ≡ length (front class)
  unfolding front
  length-front class = omega (
    arith,
    length-append pre (owner ++ (put_uint16 rt ++ put_uint16 class)),
    length-append owner (put_uint16 rt ++ put_uint16 class),
    two_words rt class,
  )

  write_ttl :
      (age ttl : ℕ) (h : RrHeader)
      → uint32_at (fixed_message h rt size pre owner post) (length pre + length owner + 4)
        ≡ ok h.ttl
      → aged_ttl age h.ttl ≡ ttl
      → write_aged age (fixed_message h rt size pre owner post) (length pre + length owner + 4)
        ≡ ok (fixed_message (with_ttl h ttl) rt size pre owner post)
  unfolding write_aged with_ttl
  write_ttl age ttl h read same =
      let off = length pre + length owner + 4 in
      let at_end : off + 4 ≡ length (front h.class) + length (put_uint32 h.ttl) =
        omega (arith, length-front h.class, four_bytes h.ttl) in
      let spliced =
        replaced (front h.class) (put_uint32 h.ttl) (put_uint32 ttl) back off (off + 4)
          (length-front h.class) at_end in
      rw (write_aged, read, same)
        (ap ok (
          ap (λ m. take off m ++ (put_uint32 ttl ++ drop (off + 4) m)) (message_split h)
          ∙ spliced
          ∙ sym (message_split (with_ttl h ttl))))

-- The bytes behind a record's fixed fields are skipped.
skip_rdata_steps :
    (b : Bytes) (off size : ℕ)
    → uint16_at b off ≡ ok size
    → off + 2 + size ≤ length b
    → skip_rdata b off ≡ ok (some (off + 2 + size))
unfolding skip_rdata
skip_rdata_steps b off size read room =
    rw
      (
        skip_rdata,
        ge→ltb (length b) (off + 2) (omega arith),
        read,
        ge→ltb (length b) (off + 2 + size) room,
      )
      refl

-- age_record from the results of its steps.
module _ (age : ℕ) (b : Bytes) (off o size rt : ℕ) (name : Bytes)
    (named : decode_name b off ≡ ok (name, o)) (typed : uint16_at b o ≡ ok rt)
    (sized : uint16_at b (o + 8) ≡ ok size) (room : o + 10 + size ≤ length b) where
  age_record_opt : (rt == type_opt) ≡ true → age_record age b off ≡ ok (some (b, o + 10 + size))
  unfolding age_record age_fixed_part
  age_record_opt is =
      rw
        (
          age_record,
          named,
          ge→ltb (length b) (o + 10) (omega (arith, room)),
          typed,
          is,
          skip_rdata_steps b (o + 8) size sized (omega (arith, room)),
        )
        (ap (λ (n : ℕ). ok (some (b, n))) (omega arith))

  age_record_aged :
      (aged : Bytes)
      → (rt == type_opt) ≡ false
      → write_aged age b (o + 4) ≡ ok aged
      → uint16_at aged (o + 8) ≡ ok size
      → o + 10 + size ≤ length aged
      → age_record age b off ≡ ok (some (aged, o + 10 + size))
  unfolding age_record age_fixed_part
  age_record_aged aged is written sized' room' =
      rw
        (
          age_record,
          named,
          ge→ltb (length b) (o + 10) (omega (arith, room)),
          typed,
          is,
          written,
          skip_rdata_steps aged (o + 8) size sized' (omega (arith, room')),
        )
        (ap (λ (n : ℕ). ok (some (aged, n))) (omega arith))

-- A record that MarshalRecord writes, with words in range, is turned in place into what
-- MarshalRecord writes of the record at the age, behind any prefix and in front of anything: an age
-- up to the TTL is taken off it, with at least 1 left, an older one gets 2 ^ 32 more than the
-- difference, and an OPT record stays as it is. The offset moves behind the record.
pub age_record-marshal_record :
    (age : ℕ) (r : Record) (w pre post : Bytes)
    → IsU32 age
    → IsRecord r
    → marshal_record r ≡ ok w
    → (aged : Bytes) × (marshal_record (aged_record age r) ≡ ok aged)
      × (age_record age (pre ++ (w ++ post)) (length pre)
          ≡ ok (some (pre ++ (aged ++ post), length pre + length w)))
unfolding aged_record with_ttl fixed_message
age_record-marshal_record age r w pre post a v m =
    let (rdata, owner, e, e', small, written) = marshal_record_parts r w m in
    let h = record_header r in
    let rt = record_type r in
    let size = length rdata in
    let ttl = remaining age h.ttl in
    let h' = with_ttl h ttl in
    let fixed = fixed_fields h rt size in
    let fixed' = fixed_fields h' rt size in
    let o = length pre + length owner in
    let words = record_type-IsU16 r v.type_fits in
    let here =
      fields_here h rt size pre owner (rdata ++ post) words v.class_fits v.ttl_fits small in
    let fits : IsU32 ttl = remaining-IsU32 age h.ttl a v.ttl_fits in
    let there = fields_here h' rt size pre owner (rdata ++ post) words v.class_fits fits small in
    let b = fixed_message h rt size pre owner (rdata ++ post) in
    let b' = fixed_message h' rt size pre owner (rdata ++ post) in
    let named = decode_name-owner_wire rt h.name owner pre (fixed ++ (rdata ++ post)) e' in
    let room = record_room pre owner fixed rdata post (length-fixed_fields h rt size) in
    let room' = record_room pre owner fixed' rdata post (length-fixed_fields h' rt size) in
    let end : o + 10 + size ≡ length pre + length w = omega (
      arith,
      ap length written,
      record_size pre owner fixed rdata post (length-fixed_fields h rt size),
    ) in
    let message : pre ++ (w ++ post) ≡ b =
      ap (λ x. pre ++ (x ++ post)) written ∙ split_owner pre owner fixed rdata post in
    elim (Bool-cases (rt == 41)) [
      | inl is ↦ (
        w,
        rw is m,
        rw (message, age_record_opt age b (length pre) o size rt _ named here.0 here.3 room is)
            (ap (λ (n : ℕ). ok (some (b, n))) end),
      )
      | inr other ↦ (
        owner ++ (fixed' ++ rdata),
        rw other (marshal_record-set_header r h' rdata owner e e' small),
        rw
            (
              message,
              split_owner pre owner fixed' rdata post,
              age_record_aged age b (length pre) o size rt _ named here.0 here.3 room b' other
                  (write_ttl rt size pre owner (rdata ++ post) age ttl h here.2
                    (remaining_lem age h.ttl a v.ttl_fits))
                  there.3 room',
            )
            (ap (λ (n : ℕ). ok (some (b', n))) end),
      )
    ]
