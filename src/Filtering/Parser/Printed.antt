-- ===== src/Filtering/Parser/Printed.antt =====
-- A rule that is written in one of the formats is read back by that format's line parser.
use hydra_dns.Base.{
  ℕ, ◌≡◌, refl, ap, sym, ◌∙◌, inl, inr, arith, [], ◌∷◌, ◌++◌, true, false, Bytes, Bool-cases, some,
  bytes_eq, bytes_eq_iff, append-nil, append_assoc,
}
use hydra_dns.Base.Text.{
  is_space, trim_left, trim_right, trim_space, has_prefix, contains_byte, cut_before, fields,
  fields_from,
}
use hydra_dns.Dns.Name.{is_empty}
use hydra_dns.Filtering.Trie.{normalize_domain}
use hydra_dns.Filtering.Parser.{
  ListFormat, format_auto, format_domains, format_hosts, format_adblock, Parser, new_parser,
  is_comment, is_valid_domain, checked_domain, parse_adblock_line, parse_hosts_fields,
  parse_hosts_line, parse_domains_line, parse_line, line_text, scan_lines, parse, max_token,
  null_address, loopback_address, localhost, localhost_localdomain,
}
use hydra_dns.Filtering.Parser.Valid.{
  is_domain_byte, domain_bytes, is_valid_domain-parts, contains_byte-domain_bytes, cut_before-none,
  cut_before-here, trim_right-domain_bytes, trim_space-domain_bytes,
}
use hydra_dns.Filtering.Parser.Normal.{IsRule, checked_domain-normalize_domain}

-- The line of a rule in a format.
unfoldable pub print_rule : ListFormat → Bytes → Bytes
print_rule format_adblock d = (b'|' ∷ b'|' ∷ []) ++ (d ++ (b'^' ∷ []))
print_rule format_hosts d = null_address ++ (b' ' ∷ d)
print_rule _ d = d

-- A rule that its line brings back: hosts files keep `localhost.localdomain` to themselves.
abbrev pub IsListed : Bytes → Type 0
IsListed d = IsRule d × (bytes_eq d localhost_localdomain ≡ false)

checked_rule : (d : Bytes) → IsRule d → checked_domain (normalize_domain d) ≡ some d
checked_rule d h = checked_domain-normalize_domain d h.0 ∙ ap some h.1

-- A domain has a dot.
not_localhost : (d : Bytes) → is_valid_domain d ≡ true → bytes_eq d localhost ≡ false
unfolding is_valid_domain is_empty contains_byte
not_localhost d h = elim (Bool-cases (bytes_eq d localhost)) [
  | inl e ↦
      let same : d ≡ localhost = (bytes_eq_iff d localhost).0 e in
      let valid : is_valid_domain localhost ≡ true = sym (ap is_valid_domain same) ∙ h in cc
  | inr e ↦ e
]

pub parse_adblock_line-print_rule :
    (d : Bytes) → IsRule d → parse_adblock_line (print_rule format_adblock d) ≡ some d
unfolding parse_adblock_line print_rule has_prefix is_domain_byte
    hydra_dns.Filtering.Parser.is_alpha_num
parse_adblock_line-print_rule d h =
    let (full, plain, no_dot) = is_valid_domain-parts d h.0 in
    let lacks =
      λ (b : ℕ) (no : is_domain_byte b ≡ false). contains_byte-domain_bytes b d no plain in
    let cut : cut_before b'^' (d ++ (b'^' ∷ [])) ≡ d =
      cut_before-here b'^' d [] (lacks b'^' refl) in
    let kept : cut_before b'$' d ≡ d = cut_before-none b'$' d (lacks b'$' refl) in
    rw (parse_adblock_line, cut, kept, lacks b'/' refl, lacks b'*' refl) (checked_rule d h)

pub parse_domains_line-print_rule : (d : Bytes) → IsRule d → parse_domains_line d ≡ some d
unfolding parse_domains_line is_domain_byte hydra_dns.Filtering.Parser.is_alpha_num
parse_domains_line-print_rule d h =
    let (full, plain, no_dot) = is_valid_domain-parts d h.0 in
    let kept = cut_before-none b'#' d (contains_byte-domain_bytes b'#' d refl plain) in
    rw (parse_domains_line, kept, trim_space-domain_bytes d plain) (checked_rule d h)

domain_byte-not_space : (c : ℕ) → is_domain_byte c ≡ true → is_space c ≡ false
unfolding is_domain_byte hydra_dns.Filtering.Parser.is_alpha_num is_space
domain_byte-not_space c h = ground arith

-- The last field of a line is a domain.
fields_from-domain_bytes :
    (f : ℕ) (field d : Bytes)
    → domain_bytes d ≡ true
    → fields_from (f ∷ field) d ≡ (f ∷ (field ++ d)) ∷ []
unfolding fields_from domain_bytes
fields_from-domain_bytes f field [] h = rw (append-nil field) refl
fields_from-domain_bytes f field (c ∷ cs) h =
    let plain = domain_byte-not_space c (ground (arith, h)) in
    let rest = fields_from-domain_bytes f (field ++ (c ∷ [])) cs (ground (arith, h)) in
    rw (plain, rest) (rw (append_assoc field (c ∷ []) cs) refl)

fields-domain_bytes :
    (d : Bytes) → is_empty d ≡ false → domain_bytes d ≡ true → fields_from [] d ≡ d ∷ []
unfolding fields_from domain_bytes is_empty
fields-domain_bytes [] full h = ground (arith, full)
fields-domain_bytes (c ∷ cs) full h =
    let plain = domain_byte-not_space c (ground (arith, h)) in
    rw (plain) (fields_from-domain_bytes c [] cs (ground (arith, h)))

parse_hosts_fields-rule :
    (d : Bytes) → IsListed d → parse_hosts_fields (null_address ∷ d ∷ []) ≡ some d
unfolding parse_hosts_fields bytes_eq
parse_hosts_fields-rule d h =
    rw (parse_hosts_fields, checked_rule d h.0) (ground (arith, not_localhost d h.0.0, h.1))

pub trim_right-hosts :
    (d : Bytes)
    → is_empty d ≡ false
    → domain_bytes d ≡ true
    → trim_space (null_address ++ (b' ' ∷ d)) ≡ null_address ++ (b' ' ∷ d)
unfolding trim_space trim_left trim_right is_empty is_space
trim_right-hosts [] full h = ground (arith, full)
trim_right-hosts (c ∷ cs) full h = rw (trim_right-domain_bytes (c ∷ cs) h) refl

pub parse_hosts_line-print_rule :
    (d : Bytes) → IsListed d → parse_hosts_line (print_rule format_hosts d) ≡ some d
unfolding parse_hosts_line print_rule is_domain_byte hydra_dns.Filtering.Parser.is_alpha_num
    cut_before fields fields_from is_empty is_space
parse_hosts_line-print_rule d h =
    let (full, plain, no_dot) = is_valid_domain-parts d h.0.0 in
    let kept = cut_before-none b'#' d (contains_byte-domain_bytes b'#' d refl plain) in
    let trimmed = trim_right-hosts d full plain in
    rw (parse_hosts_line, kept, trimmed)
      (rw (fields, fields-domain_bytes d full plain) (parse_hosts_fields-rule d h))
