-- ===== src/Filtering/Parser/Encodable.antt =====
-- The valid domains of the lists are names that the codec writes.
use mathlib.Core.Path.{subst}
use hydra_dns.Base.{
  ℕ, ◌≡◌, ◌<◌, ◌≤◌, ◌+◌, refl, ap, sym, inl, inr, arith, [], ◌∷◌, ◌++◌, true, false, ◌&&◌, ◌==◌,
  length, Bytes, Bool-cases, All, length-append, ok, some,
}
use hydra_dns.Base.Text.{split, split_from}
use hydra_dns.Dns.Name.{is_empty, trim_dot, encode_name}
use hydra_dns.Dns.Name.Decode.{IsAscii}
use hydra_dns.Dns.Name.Encode.{split_dots, wire, IsLabel, IsName, name_wire, encode_name_iff}
use hydra_dns.Filtering.Parser.{
  ListFormat, Parser, is_valid_label, valid_labels, is_valid_domain, parse_line,
}
use hydra_dns.Filtering.Parser.Normal.{IsRule}
use hydra_dns.Filtering.Parser.Found.{parse_line-IsRule}

split_dots-split_from : (piece s : Bytes) → split_dots piece s ≡ split_from b'.' piece s
unfolding split_dots split_from
split_dots-split_from piece [] = refl
split_dots-split_from piece (c ∷ cs) =
    ground (arith, split_dots-split_from [] cs, split_dots-split_from (piece ++ (c ∷ [])) cs)

is_valid_label-short : (l : Bytes) → is_valid_label l ≡ true → length l ≤ 63
unfolding is_valid_label
is_valid_label-short l h = ground (arith, h)

is_valid_label-IsLabel : (l : Bytes) → All IsAscii l → is_valid_label l ≡ true → IsLabel l
unfolding is_valid_label is_empty
is_valid_label-IsLabel [] a h = ground (arith, h)
is_valid_label-IsLabel (c ∷ cs) a h = (omega arith, is_valid_label-short (c ∷ cs) h, a)

All-append : (xs ys : Bytes) → All IsAscii xs → All IsAscii ys → All IsAscii (xs ++ ys)
All-append [] ys a b = b
All-append (x ∷ xs) ys a b = (a.0, All-append xs ys a.1 b)

valid_labels-IsLabel :
    (piece s : Bytes)
    → All IsAscii piece
    → All IsAscii s
    → valid_labels (split_from b'.' piece s) ≡ true
    → All IsLabel (split_from b'.' piece s)
unfolding valid_labels split_from
valid_labels-IsLabel piece [] p a h = (is_valid_label-IsLabel piece p (ground (arith, h)), tt)
valid_labels-IsLabel piece (c ∷ cs) p a h = elim (Bool-cases (c == b'.')) [
  | inl e ↦
      let both : (is_valid_label piece && valid_labels (split_from b'.' [] cs)) ≡ true =
        ground (arith, h) in
      rw e (
        is_valid_label-IsLabel piece p (ground (arith, both)),
        valid_labels-IsLabel [] cs tt a.1 (ground (arith, both)),
      )
  | inr e ↦ rw e (
      valid_labels-IsLabel (piece ++ (c ∷ [])) cs (All-append piece (c ∷ []) p (a.0, tt)) a.1
        (ground (arith, h)))
]

trim_dot_kept : (c : ℕ) (s : Bytes) → is_empty s ≡ false → trim_dot s ≡ s → trim_dot (c ∷ s) ≡ c ∷ s
unfolding trim_dot
trim_dot_kept c s full h = rw (trim_dot, h, full) (ground arith)

valid_labels-trim_dot :
    (piece s : Bytes) → valid_labels (split_from b'.' piece s) ≡ true → trim_dot s ≡ s
unfolding valid_labels split_from trim_dot is_valid_label is_empty
valid_labels-trim_dot piece [] h = refl
valid_labels-trim_dot piece (c ∷ []) h = ground (arith, h)
valid_labels-trim_dot piece (c ∷ d ∷ cs) h = elim (Bool-cases (c == b'.')) [
  | inl e ↦
      let on : valid_labels (split_from b'.' [] (d ∷ cs)) ≡ true = ground (arith, h) in
      let rest = valid_labels-trim_dot [] (d ∷ cs) on in trim_dot_kept c (d ∷ cs) refl rest
  | inr e ↦
      let on : valid_labels (split_from b'.' (piece ++ (c ∷ [])) (d ∷ cs)) ≡ true =
        ground (arith, h) in
      let rest = valid_labels-trim_dot (piece ++ (c ∷ [])) (d ∷ cs) on in
      trim_dot_kept c (d ∷ cs) refl rest
]

length-wire-split_from :
    (piece s : Bytes) → length (wire (split_from b'.' piece s)) ≡ length piece + length s + 1
unfolding wire split_from
length-wire-split_from piece [] = omega (arith, length-append piece [])
length-wire-split_from piece (c ∷ cs) = elim (Bool-cases (c == b'.')) [
  | inl e ↦ rw e (
      omega
        (arith, length-append piece (wire (split_from b'.' [] cs)), length-wire-split_from [] cs))
  | inr e ↦
      rw e
        (omega (arith, length-append piece (c ∷ []), length-wire-split_from (piece ++ (c ∷ [])) cs))
]

-- An ASCII domain that isValidDomain accepts is a name that EncodeName writes: each label behind its
-- length, and a zero byte.
pub encode_name-is_valid_domain :
    (d : Bytes) → All IsAscii d → is_valid_domain d ≡ true → encode_name d ≡ ok (name_wire d)
unfolding is_valid_domain split is_empty
encode_name-is_valid_domain [] a h = ground (arith, h)
encode_name-is_valid_domain (c ∷ cs) a h =
    let labels : valid_labels (split_from b'.' [] (c ∷ cs)) ≡ true = ground (arith, h) in
    let short : length (c ∷ cs) ≤ 253 = ground (arith, h) in
    let trimmed = valid_labels-trim_dot [] (c ∷ cs) labels in
    let pieces = split_dots-split_from [] (c ∷ cs) in
    let is_label =
      subst (All IsLabel) (sym pieces) (valid_labels-IsLabel [] (c ∷ cs) tt a labels) in
    let fits : length (wire (split_dots [] (c ∷ cs))) < 255 =
      omega
        (arith, short, length-wire-split_from [] (c ∷ cs), ap (λ ls. length (wire ls)) pieces) in
    let fit : IsName (c ∷ cs) = (is_label, fits) in
    (encode_name_iff (c ∷ cs) (name_wire (c ∷ cs))).1
      (refl, subst IsName (sym trimmed) fit, ap name_wire (sym trimmed))

-- Every ASCII domain that a line gives, in any format, is valid, stands in the form in which the
-- trie compares domains, and is a name that EncodeName writes.
pub parse_line-encode_name :
    (p : Parser) (line : Bytes) (format : ListFormat) (d : Bytes)
    → parse_line p line format ≡ some d
    → All IsAscii d
    → IsRule d × (encode_name d ≡ ok (name_wire d))
parse_line-encode_name p line format d h ascii =
    let rule = parse_line-IsRule p line format d h in
    (rule, encode_name-is_valid_domain d ascii rule.0)
