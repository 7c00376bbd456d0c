-- ===== src/Filtering/Parser/Normal.antt =====
-- A domain that passes the checks of the parser is normalised once and for all.
use hydra_dns.Base.{
  ℕ, zero, suc, ◌-◌, ◌%◌, ◌<◌, ◌&&◌, leb, get_or, ◌⊎◌, ◌≡◌, refl, ap, sym, ◌∙◌, inl, inr, arith, [],
  ◌∷◌, ◌++◌, true, false, ◌==◌, length, Bytes, Bool-cases, some,
}
use hydra_dns.Base.Runes.{continues, second_of, decode_bytes, decode_rune, runes, decode_rune_ascii}
use hydra_dns.Base.Text.{trim_space, split, split_from, contains_byte}
use hydra_dns.Dns.Name.{is_empty, lower_byte, to_lower, trim_suffix_dot}
use hydra_dns.Filtering.Trie.{normalize_domain}
use hydra_dns.Filtering.Parser.{
  is_valid_domain, is_alpha_num, checked_domain, starts_alpha_num, ends_alpha_num, label_runes,
  is_valid_label, valid_labels,
}
use hydra_dns.Filtering.Parser.Valid.{is_valid_domain-parts, trim_space-domain_bytes}

lower_byte-dot : (c : ℕ) → (lower_byte c == b'.') ≡ (c == b'.')
unfolding lower_byte
lower_byte-dot c = ground arith

lower_byte_twice : (c : ℕ) → lower_byte (lower_byte c) ≡ lower_byte c
unfolding lower_byte
lower_byte_twice c = ground arith

to_lower_twice : (s : Bytes) → to_lower (to_lower s) ≡ to_lower s
unfolding to_lower
to_lower_twice [] = refl
to_lower_twice (c ∷ cs) = rw (lower_byte_twice c) (ap (◌∷◌ (lower_byte c)) (to_lower_twice cs))

trim_suffix_dot-to_lower : (s : Bytes) → trim_suffix_dot (to_lower s) ≡ to_lower (trim_suffix_dot s)
unfolding to_lower trim_suffix_dot
trim_suffix_dot-to_lower [] = refl
trim_suffix_dot-to_lower (c ∷ []) = elim (Bool-cases (c == b'.')) [
  | inl e ↦ rw (lower_byte-dot c, e) refl
  | inr e ↦ rw (lower_byte-dot c, e) refl
]
trim_suffix_dot-to_lower (c ∷ d ∷ cs) = ap (◌∷◌ (lower_byte c)) (trim_suffix_dot-to_lower (d ∷ cs))

-- A valid domain is normalised by lowering its letters.
pub normalize_domain-is_valid_domain :
    (d : Bytes) → is_valid_domain d ≡ true → normalize_domain d ≡ to_lower d
unfolding normalize_domain
normalize_domain-is_valid_domain d h =
    let (some_byte, plain, no_dot) = is_valid_domain-parts d h in
    rw (normalize_domain, trim_space-domain_bytes d plain, trim_suffix_dot-to_lower d, no_dot) refl

is_alpha_num-lower_byte : (c : ℕ) → is_alpha_num (lower_byte c) ≡ is_alpha_num c
unfolding lower_byte is_alpha_num
is_alpha_num-lower_byte c = ground arith

hyphen-lower_byte : (c : ℕ) → (lower_byte c == b'-') ≡ (c == b'-')
unfolding lower_byte
hyphen-lower_byte c = ground arith

length-to_lower : (s : Bytes) → length (to_lower s) ≡ length s
unfolding to_lower
length-to_lower [] = refl
length-to_lower (c ∷ cs) = omega (arith, length-to_lower cs)

is_empty-to_lower : (s : Bytes) → is_empty (to_lower s) ≡ is_empty s
unfolding to_lower is_empty
is_empty-to_lower [] = refl
is_empty-to_lower (c ∷ cs) = refl

starts_alpha_num-to_lower : (s : Bytes) → starts_alpha_num (to_lower s) ≡ starts_alpha_num s
unfolding to_lower starts_alpha_num
starts_alpha_num-to_lower [] = refl
starts_alpha_num-to_lower (c ∷ cs) = is_alpha_num-lower_byte c

ends_alpha_num-to_lower : (s : Bytes) → ends_alpha_num (to_lower s) ≡ ends_alpha_num s
unfolding to_lower ends_alpha_num
ends_alpha_num-to_lower [] = refl
ends_alpha_num-to_lower (c ∷ []) = is_alpha_num-lower_byte c
ends_alpha_num-to_lower (c ∷ d ∷ cs) = ends_alpha_num-to_lower (d ∷ cs)

get_or-to_lower : (s : Bytes) (i : ℕ) → get_or (to_lower s) i 0 ≡ lower_byte (get_or s i 0)
unfolding to_lower lower_byte
get_or-to_lower [] i = refl
get_or-to_lower (c ∷ cs) zero = refl
get_or-to_lower (c ∷ cs) (suc i) = get_or-to_lower cs i

-- A byte that is not ASCII is not lowered.
lower_byte_cases : (b : ℕ) → (lower_byte b ≡ b) ⊎ ((b < 128) × (lower_byte b < 128))
unfolding lower_byte
lower_byte_cases b = elim (Bool-cases (leb b'A' b && leb b b'Z')) [
  | inl e ↦ inr (ground (arith, e), ground (arith, e))
  | inr e ↦ inl (rw (e) refl)
]

low-continues : (b : ℕ) → b < 128 → continues b ≡ false
unfolding continues
low-continues b h = ground (arith, h)

low-second_of : (c b : ℕ) → b < 128 → second_of c b ≡ false
unfolding second_of
low-second_of c b h = ground (arith, h)

-- What ends a rune does not depend on the ASCII byte that it is.
decode_bytes_ends :
    (c b1 b2 b3 d1 d2 d3 : ℕ)
    → (d1 ≡ b1) ⊎ ((b1 < 128) × (d1 < 128))
    → (d2 ≡ b2) ⊎ ((b2 < 128) × (d2 < 128))
    → (d3 ≡ b3) ⊎ ((b3 < 128) × (d3 < 128))
    → decode_bytes c d1 d2 d3 ≡ decode_bytes c b1 b2 b3
unfolding decode_bytes
decode_bytes_ends c b1 b2 b3 d1 d2 d3 (inr (low, low')) e2 e3 = ground (
  arith,
  low-continues b1 low,
  low-continues d1 low',
  low-second_of c b1 low,
  low-second_of c d1 low',
)
decode_bytes_ends c b1 b2 b3 d1 d2 d3 (inl e1) (inr (low, low')) e3 =
    rw e1 (ground (arith, low-continues b2 low, low-continues d2 low'))
decode_bytes_ends c b1 b2 b3 d1 d2 d3 (inl e1) (inl e2) (inr (low, low')) =
    rw (e1, e2) (ground (arith, low-continues b3 low, low-continues d3 low'))
decode_bytes_ends c b1 b2 b3 d1 d2 d3 (inl e1) (inl e2) (inl e3) = rw (e1, e2, e3) refl

decode_rune-to_lower : (c : ℕ) (cs : Bytes) → decode_rune c (to_lower cs) ≡ decode_rune c cs
unfolding decode_rune
decode_rune-to_lower c cs =
    rw (decode_rune, get_or-to_lower cs 0, get_or-to_lower cs 1, get_or-to_lower cs 2)
      (decode_bytes_ends c _ _ _ _ _ _ (lower_byte_cases (get_or cs 0 0))
        (lower_byte_cases (get_or cs 1 0)) (lower_byte_cases (get_or cs 2 0)))

label_runes-to_lower :
    (skip : ℕ) (s : Bytes) → label_runes (runes skip (to_lower s)) ≡ label_runes (runes skip s)
unfolding to_lower label_runes runes
label_runes-to_lower zero [] = refl
label_runes-to_lower (suc skip) [] = refl
label_runes-to_lower (suc skip) (c ∷ cs) = label_runes-to_lower skip cs
label_runes-to_lower zero (c ∷ cs) = elim (lower_byte_cases c) [
  | inl same ↦
      let rest = label_runes-to_lower ((decode_rune c cs).1 - 1) cs in
      rw (same, decode_rune-to_lower c cs, rest) refl
  | inr (low, low') ↦
      let rest = label_runes-to_lower 0 cs in
      let low_byte : c % 256 ≡ c = omega (arith, low) in
      let low_byte' : lower_byte c % 256 ≡ lower_byte c = omega (arith, low') in
      rw
        (
          decode_rune_ascii c cs low,
          decode_rune_ascii (lower_byte c) (to_lower cs) low',
          low_byte,
          low_byte',
          is_alpha_num-lower_byte c,
          hyphen-lower_byte c,
          rest,
        )
        refl
]

is_valid_label-to_lower : (s : Bytes) → is_valid_label (to_lower s) ≡ is_valid_label s
unfolding is_valid_label
is_valid_label-to_lower s =
    rw
      (
        is_valid_label,
        is_empty-to_lower s,
        length-to_lower s,
        starts_alpha_num-to_lower s,
        ends_alpha_num-to_lower s,
        label_runes-to_lower 0 s,
      )
      refl

to_lower-append : (xs ys : Bytes) → to_lower (xs ++ ys) ≡ to_lower xs ++ to_lower ys
unfolding to_lower
to_lower-append [] ys = refl
to_lower-append (x ∷ xs) ys = ap (◌∷◌ (lower_byte x)) (to_lower-append xs ys)

valid_labels-to_lower :
    (piece s : Bytes)
    → valid_labels (split_from b'.' (to_lower piece) (to_lower s))
      ≡ valid_labels (split_from b'.' piece s)
unfolding valid_labels split_from to_lower
valid_labels-to_lower piece [] = rw (is_valid_label-to_lower piece) refl
valid_labels-to_lower piece (c ∷ cs) = elim (Bool-cases (c == b'.')) [
  | inl e ↦
      rw (lower_byte-dot c, e, is_valid_label-to_lower piece, valid_labels-to_lower [] cs) refl
  | inr e ↦
      rw (lower_byte-dot c, e, sym (to_lower-append piece (c ∷ [])))
        (valid_labels-to_lower (piece ++ (c ∷ [])) cs)
]

contains_byte-to_lower : (s : Bytes) → contains_byte b'.' (to_lower s) ≡ contains_byte b'.' s
unfolding contains_byte to_lower
contains_byte-to_lower [] = refl
contains_byte-to_lower (c ∷ cs) = rw (lower_byte-dot c, contains_byte-to_lower cs) refl

pub is_valid_domain-to_lower : (d : Bytes) → is_valid_domain (to_lower d) ≡ is_valid_domain d
unfolding is_valid_domain split contains_byte to_lower
is_valid_domain-to_lower d =
    rw
      (
        is_valid_domain,
        is_empty-to_lower d,
        length-to_lower d,
        contains_byte-to_lower d,
        valid_labels-to_lower [] d,
      )
      refl

-- Normalising once more changes nothing.
pub normalize_domain_twice :
    (d : Bytes)
    → is_valid_domain d ≡ true
    → normalize_domain (normalize_domain d) ≡ normalize_domain d
normalize_domain_twice d h =
    let once = normalize_domain-is_valid_domain d h in
    rw once (
      normalize_domain-is_valid_domain (to_lower d) (is_valid_domain-to_lower d ∙ h)
      ∙ to_lower_twice d)

-- A valid domain passes the checks at the end of each line parser.
pub checked_domain-normalize_domain :
    (d : Bytes)
    → is_valid_domain d ≡ true
    → checked_domain (normalize_domain d) ≡ some (normalize_domain d)
unfolding checked_domain
checked_domain-normalize_domain d h =
    let once = normalize_domain-is_valid_domain d h in
    let valid = is_valid_domain-to_lower d ∙ h in
    let (some_byte, plain, no_dot) = is_valid_domain-parts (to_lower d) valid in
    rw once (ground (arith, valid, some_byte))

-- A domain in the form in which the trie holds it, and which passes isValidDomain.
abbrev pub IsRule : Bytes → Type 0
IsRule d = (is_valid_domain d ≡ true) × (normalize_domain d ≡ d)

to_lower-normalize_domain : (x : Bytes) → to_lower (normalize_domain x) ≡ normalize_domain x
unfolding normalize_domain
to_lower-normalize_domain x =
    sym (trim_suffix_dot-to_lower (to_lower (trim_space x)))
    ∙ ap trim_suffix_dot (to_lower_twice (trim_space x))

-- The checks return the text itself, if it is valid.
checked_domain-some :
    (x d : Bytes) → checked_domain x ≡ some d → (x ≡ d) × (is_valid_domain x ≡ true)
unfolding checked_domain
checked_domain-some x d h = ground arith

pub checked_domain-IsRule : (x d : Bytes) → checked_domain (normalize_domain x) ≡ some d → IsRule d
checked_domain-IsRule x d h =
    let (same, valid) = checked_domain-some (normalize_domain x) d h in
    let valid_d : is_valid_domain d ≡ true = rw (sym same) valid in
    let low : to_lower d ≡ d = rw (sym same) (to_lower-normalize_domain x) in
    (valid_d, normalize_domain-is_valid_domain d valid_d ∙ low)
