-- ===== src/Resolvers/Ageing/Kept.antt =====
-- What the ageing of TTLs keeps of a response.
use hydra_dns.Base.{
  ℕ, zero, suc, ◌+◌, ◌≤◌, ◌<◌, ◌≡◌, refl, ◌∙◌, arith, [], ◌∷◌, ◌++◌, ltb, ◌==◌, if◌then◌else◌,
  length, length-append, length-take, length-drop, take, drop, Option, none, some, Bool-cases,
  Option-cases, inl, inr, Result, ok, Result-cases, Succeeds, Succeeds-value, ◌>>=◌, Bytes,
  uint16_at, uint16_at_lem, uint32_at_lem, put_uint32,
}
use hydra_dns.Dns.Enums.{type_opt}
use hydra_dns.Dns.Name.{decode_name}
use hydra_dns.Dns.Name.Decode.{decode_name-Returns}
use hydra_dns.Resolvers.Ageing.{
  write_aged, skip_questions, skip_rdata, age_fixed_part, age_record, age_records, whole_seconds,
  adjust_ttls,
}
use hydra_dns.Resolvers.Ageing.Skipped.{Advances, skip_questions-Advances, skip_rdata-Advances}

take-take-append :
    (n m : ℕ) (xs ys : Bytes) → n ≤ m → m ≤ length xs → take n (take m xs ++ ys) ≡ take n xs
take-take-append zero m xs ys h k = refl
take-take-append (suc n) zero xs ys h k = absurd (omega arith)
take-take-append (suc n) (suc m) [] ys h k = absurd (omega arith)
take-take-append (suc n) (suc m) (x ∷ xs) ys h k =
    rw (take-take-append n m xs ys (omega arith) (omega arith)) refl

-- As long as before, with the same header.
abbrev pub Keeps : Bytes → Bytes → Type 0
Keeps before after = (length after ≡ length before) × (take 12 after ≡ take 12 before)

length-splice :
    (b : Bytes) (off v : ℕ)
    → off + 4 ≤ length b
    → length (take off b ++ (put_uint32 v ++ drop (off + 4) b)) ≡ length b
unfolding put_uint32
length-splice b off v h = omega (
  arith,
  length-append (take off b) (put_uint32 v ++ drop (off + 4) b),
  length-take off b,
  length-drop (off + 4) b,
)

write_aged-Keeps :
    (age : ℕ) (b : Bytes) (off : ℕ)
    → 12 ≤ off
    → off + 4 ≤ length b
    → Succeeds (Keeps b) (write_aged age b off)
unfolding write_aged
write_aged-Keeps age b off h k =
    rw (uint32_at_lem b off k)
      (length-splice b off _ k, take-take-append 12 off b _ h (omega arith))

-- Bytes that are kept so, and an offset behind the header.
abbrev pub IsAged : Bytes → Option (Bytes × ℕ) → Type 0
IsAged b none = Unit {0}
IsAged b (some (aged, next)) = Keeps b aged × (12 ≤ next)

maybe_aged-Keeps :
    (t age : ℕ) (b : Bytes) (off : ℕ)
    → 12 ≤ off
    → off + 4 ≤ length b
    → Succeeds (Keeps b) (if t == type_opt then ok b else write_aged age b off)
maybe_aged-Keeps t age b off h k = elim (Bool-cases (t == type_opt)) [
  | inl e ↦ rw e (refl, refl)
  | inr e ↦ rw e (write_aged-Keeps age b off h k)
]

age_fixed_part-IsAged :
    (age : ℕ) (b : Bytes) (off : ℕ)
    → 12 ≤ off
    → off + 10 ≤ length b
    → Succeeds (IsAged b) (age_fixed_part age b off)
unfolding age_fixed_part
age_fixed_part-IsAged age b off h k =
    let (t, e1) = word in
    let (aged, e2, kept) =
      Succeeds-value (Keeps b) (if t == type_opt then ok b else write_aged age b (off + 4))
        (maybe_aged-Keeps t age b (off + 4) (omega arith) (omega arith)) in
    let (next, e3, moved) =
      Succeeds-value (Advances aged (off + 8)) (skip_rdata aged (off + 8))
        (skip_rdata-Advances aged (off + 8)) in
    rw (e1, e2, e3) (done aged next kept moved)
  where
    word : (t : ℕ) × (uint16_at b off ≡ ok t)
    word = (_, uint16_at_lem b off (omega arith))

    done :
        (aged : Bytes) (next : Option ℕ)
        → Keeps b aged
        → Advances aged (off + 8) next
        → IsAged b (elim next [ none ↦ none | some off' ↦ some (aged, off') ])
    done aged none kept moved = tt
    done aged (some off') kept moved = (kept, omega arith)

age_record-IsAged :
    (age : ℕ) (b : Bytes) (off : ℕ) → 12 ≤ off → Succeeds (IsAged b) (age_record age b off)
unfolding age_record
age_record-IsAged age b off h = elim (Result-cases (decode_name b off)) [
  | inr (e, r) ↦ rw (age_record, r) tt
  | inl ((name, off'), r) ↦ elim (Bool-cases (ltb (length b) (off' + 10))) [
    | inl short ↦ rw (age_record, r, short) tt
    | inr enough ↦
        let moved : off < off' = ground (arith, decode_name-Returns b off, r) in
        let inside : off' + 10 ≤ length b = ground (arith, enough) in
        rw (age_record, r, enough) (age_fixed_part-IsAged age b off' (omega arith) inside)
  ]
]

-- The records give up, or keep so.
abbrev KeepsIfAny : Bytes → Option Bytes → Type 0
KeepsIfAny b none = Unit {0}
KeepsIfAny b (some aged) = Keeps b aged

Keeps-trans : (a b c : Bytes) → Keeps a b → Keeps b c → Keeps a c
Keeps-trans a b c h k = (k.0 ∙ h.0, k.1 ∙ h.1)

age_records-Keeps :
    (n age : ℕ) (b : Bytes) (off : ℕ) → 12 ≤ off → Succeeds (KeepsIfAny b) (age_records n age b off)
unfolding age_records
age_records-Keeps zero age b off h = (refl, refl)
age_records-Keeps (suc n) age b off h =
    let (next, e, aged) =
      Succeeds-value (IsAged b) (age_record age b off) (age_record-IsAged age b off h) in
    rw e (rest (λ aged' off'. age_records-Keeps n age aged' off') next aged)
  where
    through :
        (aged : Bytes) (last : Option Bytes)
        → Keeps b aged
        → KeepsIfAny aged last
        → KeepsIfAny b last
    through aged none h k = tt
    through aged (some c) h k = Keeps-trans b aged c h k

    rest :
        ((c : Bytes) (o : ℕ) → 12 ≤ o → Succeeds (KeepsIfAny c) (age_records n age c o))
        → (next : Option (Bytes × ℕ)) → IsAged b next
        → Succeeds
            (KeepsIfAny b)
            (elim next [ none ↦ ok none | some (aged, off') ↦ age_records n age aged off' ])
    rest later none k = tt
    rest later (some (aged, off')) k =
        let (last, found, keeps) =
          Succeeds-value (KeepsIfAny aged) (age_records n age aged off') (later aged off' k.1) in
        rw found (through aged last k.0 keeps)

adjusted-Keeps :
    (questions records age : ℕ) (b : Bytes)
    → 12 ≤ length b
    → Succeeds (Keeps b) (
        (elim (skip_questions questions b 12) as (λ _. Result (Option Bytes)) [
          | none ↦ ok none
          | some off ↦ age_records records age b off
        ])
        >>= (λ aged. ok (elim aged [ none ↦ b | some adjusted ↦ adjusted ])))
adjusted-Keeps questions records age b inside =
    elim (Option-cases (skip_questions questions b 12)) [
      | inl e ↦ rw e (refl, refl)
      | inr (off, e) ↦
          let behind = rw e at (skip_questions-Advances questions b 12 inside) in
          let (aged, found, keeps) =
            Succeeds-value (KeepsIfAny b) (age_records records age b off)
              (age_records-Keeps records age b off behind.0) in
          rw (e, found) (done aged keeps)
    ]
  where
    done :
        (aged : Option Bytes)
        → KeepsIfAny b aged
        → Keeps b (elim aged [ none ↦ b | some adjusted ↦ adjusted ])
    done none k = (refl, refl)
    done (some c) k = k

-- adjustTTLs returns on every cached response and age: it never indexes out of range. What it
-- returns is as long as the response and has the same 12 bytes of header.
pub adjust_ttls-Succeeds :
    (resp_bytes : Bytes) (age : ℕ) → Succeeds (Keeps resp_bytes) (adjust_ttls resp_bytes age)
unfolding adjust_ttls
adjust_ttls-Succeeds b age = elim (Bool-cases (ltb (length b) 12)) [
  | inl short ↦ rw short (refl, refl)
  | inr enough ↦ elim (Bool-cases (whole_seconds age == 0)) [
    | inl young ↦ rw (enough, young) (refl, refl)
    | inr old ↦
        let inside : 12 ≤ length b = ground (arith, enough) in
        rw
          (
            enough,
            old,
            uint16_at_lem b 4 (omega arith),
            uint16_at_lem b 6 (omega arith),
            uint16_at_lem b 8 (omega arith),
            uint16_at_lem b 10 (omega arith),
          )
          (adjusted-Keeps _ _ (whole_seconds age) b inside)
  ]
]
