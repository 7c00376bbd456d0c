-- ===== src/Filtering/Parser/Valid.antt =====
-- The domains that a list may hold: isValidDomain, and what its domains consist of.
use hydra_dns.Base.{
  ℕ, zero, suc, ◌-◌, ◌%◌, ◌<◌, leb, ◌≡◌, refl, ap, sym, inl, inr, arith, [], ◌∷◌, ◌++◌, Bool, true,
  false, ◌&&◌, ◌||◌, ◌==◌, Bytes, Bool-cases,
}
use hydra_dns.Base.Runes.{
  starts_high, runes, decode_rune, decode_rune_ascii, decode_rune-starts_high,
}
use hydra_dns.Base.Text.{
  is_space, trim_left, trim_right, trim_space, split, split_from, contains_byte, cut_before,
}
use hydra_dns.Dns.Name.{is_empty, trim_suffix_dot}
use hydra_dns.Filtering.Parser.{
  is_alpha_num, label_runes, is_valid_label, valid_labels, is_valid_domain,
}

-- A letter, a digit, a hyphen, a dot, or a byte of a rune that is not ASCII.
unfoldable pub is_domain_byte : ℕ → Bool
unfolding is_alpha_num
is_domain_byte c = is_alpha_num c || (c == b'-' || (c == b'.' || leb 128 c))

unfoldable pub domain_bytes : Bytes → Bool
unfolding is_domain_byte
domain_bytes [] = true
domain_bytes (c ∷ cs) = is_domain_byte c && domain_bytes cs

-- The same without the dot.
label_bytes : Bytes → Bool
label_bytes [] = true
label_bytes (c ∷ cs) = (is_alpha_num c || (c == b'-' || leb 128 c)) && label_bytes cs

-- A label whose runes pass consists of such bytes.
label_bytes-runes :
    (skip : ℕ) (l : Bytes)
    → starts_high skip l ≡ true
    → label_runes (runes skip l) ≡ true
    → label_bytes l ≡ true
unfolding label_runes runes label_bytes starts_high
label_bytes-runes zero [] high h = refl
label_bytes-runes (suc skip) [] high h = refl
label_bytes-runes (suc skip) (c ∷ cs) high h = ground (arith, high, label_bytes-runes skip cs, h)
label_bytes-runes zero (c ∷ cs) high h =
    let behind = decode_rune-starts_high c cs in
    let rest = label_bytes-runes ((decode_rune c cs).1 - 1) cs behind (ground (arith, h)) in
    elim (Bool-cases (leb 128 c)) [
      | inl above ↦ ground (arith, above, rest)
      | inr ascii ↦
          let small : c < 128 = ground (arith, ascii) in
          let same : (decode_rune c cs).0 ≡ c = ap (λ p. p.0) (decode_rune_ascii c cs small) in
          let low_byte : c % 256 ≡ c = omega (arith, small) in
          let test : (is_alpha_num ((decode_rune c cs).0 % 256) || (decode_rune c cs).0 == b'-')
              ≡ true =
            ground (arith, h) in
          let test' : (is_alpha_num c || c == b'-') ≡ true = rw (same, low_byte) at test in
          ground (arith, test', rest)
    ]

label_bytes-append : (xs ys : Bytes) → label_bytes (xs ++ ys) ≡ (label_bytes xs && label_bytes ys)
unfolding label_bytes
label_bytes-append [] ys = refl
label_bytes-append (x ∷ xs) ys = rw (label_bytes-append xs ys) (ground arith)

is_valid_label-bytes : (l : Bytes) → is_valid_label l ≡ true → label_bytes l ≡ true
unfolding is_valid_label starts_high
is_valid_label-bytes l h = label_bytes-runes 0 l refl (ground (arith, h))

valid_labels-bytes :
    (piece s : Bytes)
    → valid_labels (split_from b'.' piece s) ≡ true
    → (domain_bytes s ≡ true) × (label_bytes piece ≡ true)
unfolding valid_labels split_from domain_bytes is_domain_byte label_bytes
valid_labels-bytes piece [] h = (refl, ground (arith, is_valid_label-bytes piece))
valid_labels-bytes piece (c ∷ cs) h = elim (Bool-cases (c == b'.')) [
  | inl e ↦
      let parts : (is_valid_label piece && valid_labels (split_from b'.' [] cs)) ≡ true =
        ground (arith, h) in
      ground (arith, valid_labels-bytes [] cs, is_valid_label-bytes piece)
  | inr e ↦
      let on : valid_labels (split_from b'.' (piece ++ (c ∷ [])) cs) ≡ true = ground (arith, h) in
      let (rest, front) = valid_labels-bytes (piece ++ (c ∷ [])) cs on in
      ground (arith, rest, front, label_bytes-append piece (c ∷ []))
]

valid_labels-trim_suffix_dot :
    (piece s : Bytes) → valid_labels (split_from b'.' piece s) ≡ true → trim_suffix_dot s ≡ s
unfolding valid_labels split_from trim_suffix_dot is_valid_label is_empty
valid_labels-trim_suffix_dot piece [] h = refl
valid_labels-trim_suffix_dot piece (c ∷ []) h = ground arith
valid_labels-trim_suffix_dot piece (c ∷ d ∷ cs) h = elim (Bool-cases (c == b'.')) [
  | inl e ↦
      let on : valid_labels (split_from b'.' [] (d ∷ cs)) ≡ true = ground (arith, h) in
      ap (◌∷◌ c) (valid_labels-trim_suffix_dot [] (d ∷ cs) on)
  | inr e ↦
      let on : valid_labels (split_from b'.' (piece ++ (c ∷ [])) (d ∷ cs)) ≡ true =
        ground (arith, h) in
      ap (◌∷◌ c) (valid_labels-trim_suffix_dot (piece ++ (c ∷ [])) (d ∷ cs) on)
]

-- What the tests of a domain say about it.
pub is_valid_domain-parts :
    (d : Bytes)
    → is_valid_domain d ≡ true
    → (is_empty d ≡ false) × (domain_bytes d ≡ true) × (trim_suffix_dot d ≡ d)
unfolding is_valid_domain split
is_valid_domain-parts d h =
    let labels : valid_labels (split_from b'.' [] d) ≡ true = ground (arith, h) in
    (
      ground (arith, h),
      (valid_labels-bytes [] d labels).0,
      valid_labels-trim_suffix_dot [] d labels,
    )

-- A byte that no domain has.
pub contains_byte-domain_bytes :
    (b : ℕ) (d : Bytes)
    → is_domain_byte b ≡ false
    → domain_bytes d ≡ true
    → contains_byte b d ≡ false
unfolding contains_byte domain_bytes
contains_byte-domain_bytes b [] no_b h = refl
contains_byte-domain_bytes b (c ∷ cs) no_b h = elim (Bool-cases (c == b)) [
  | inl e ↦
      let same : c ≡ b = ground arith in
      let at_c : is_domain_byte c ≡ true = ground (arith, h) in
      let at_b : is_domain_byte b ≡ true = rw (sym same) at_c in cc
  | inr e ↦ ground (arith, e, h, contains_byte-domain_bytes b cs)
]

pub cut_before-none : (b : ℕ) (s : Bytes) → contains_byte b s ≡ false → cut_before b s ≡ s
unfolding contains_byte cut_before
cut_before-none b [] h = refl
cut_before-none b (c ∷ cs) h = ground (arith, cut_before-none b cs)

-- The byte ends the text in front of it.
pub cut_before-here :
    (b : ℕ) (s rest : Bytes) → contains_byte b s ≡ false → cut_before b (s ++ (b ∷ rest)) ≡ s
unfolding contains_byte cut_before
cut_before-here b [] rest h = ground arith
cut_before-here b (c ∷ cs) rest h = ground (arith, cut_before-here b cs rest)

domain_byte-is_space : (c : ℕ) → is_domain_byte c ≡ true → is_space c ≡ false
unfolding is_domain_byte is_alpha_num is_space
domain_byte-is_space c h = ground arith

pub trim_right-domain_bytes : (d : Bytes) → domain_bytes d ≡ true → trim_right d ≡ d
unfolding trim_right domain_bytes
trim_right-domain_bytes [] h = refl
trim_right-domain_bytes (c ∷ []) h = ground (arith, domain_byte-is_space c)
trim_right-domain_bytes (c ∷ d ∷ cs) h =
    let rest : trim_right (d ∷ cs) ≡ d ∷ cs =
      trim_right-domain_bytes (d ∷ cs) (ground (arith, h)) in
    rw (trim_right, rest) refl

pub trim_space-domain_bytes : (d : Bytes) → domain_bytes d ≡ true → trim_space d ≡ d
unfolding trim_space trim_left domain_bytes
trim_space-domain_bytes [] h = refl
trim_space-domain_bytes (c ∷ cs) h =
    let kept : trim_left (c ∷ cs) ≡ c ∷ cs = ground (arith, domain_byte-is_space c, h) in
    rw (trim_space, kept) (trim_right-domain_bytes (c ∷ cs) h)
