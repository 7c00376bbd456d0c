-- ===== src/Filtering/Parser/RoundTrip.antt =====
-- A list that is written in one of the formats, a rule in each line, is read back.
use hydra_dns.Base.{
  ℕ, ◌≡◌, ◌≤◌, refl, ap, sym, ◌∙◌, arith, [], ◌∷◌, ◌++◌, List, true, false, ◌||◌, length, Bytes,
  some, All, length-append, map, append_one,
}
use hydra_dns.Base.Text.{is_space, trim_right, trim_space, has_prefix, contains_byte}
use hydra_dns.Dns.Name.{is_empty}
use hydra_dns.Filtering.Trie.{new_domain_trie}
use hydra_dns.Filtering.Policy.{add_all}
use hydra_dns.Filtering.Parser.{
  ListFormat, format_auto, format_domains, format_hosts, format_adblock, Parser, new_parser,
  is_comment, is_valid_domain, checked_domain, parse_adblock_line, parse_hosts_fields,
  parse_hosts_line, parse_domains_line, parse_line, line_text, scan_lines, parse, max_token,
  null_address, loopback_address, localhost, localhost_localdomain,
}
use hydra_dns.Filtering.Parser.Valid.{
  is_domain_byte, domain_bytes, is_valid_domain-parts, contains_byte-domain_bytes,
  trim_space-domain_bytes,
}
use hydra_dns.Filtering.Parser.Lines.{unlines, IsLine, scan_lines-unlines}
use hydra_dns.Filtering.Parser.Found.{is_fixed, rule_list, parse_lines_lem}
use hydra_dns.Filtering.Parser.Printed.{
  print_rule, IsListed, parse_adblock_line-print_rule, parse_domains_line-print_rule,
  trim_right-hosts, parse_hosts_line-print_rule,
}

trim_right-last :
    (s : Bytes) (c : ℕ) → is_space c ≡ false → trim_right (s ++ (c ∷ [])) ≡ s ++ (c ∷ [])
unfolding trim_right
trim_right-last [] c h = rw (h) refl
trim_right-last (x ∷ xs) c h =
    let (y, ys, e) = append_one xs c in
    let rest = trim_right-last xs c h in
    let again : trim_right (y ∷ ys) ≡ y ∷ ys = sym (ap trim_right e) ∙ (rest ∙ e) in
    rw (e) (rw (trim_right, again) refl)

-- Parse leaves the line of a rule as it is.
line_text-print_rule :
    (format : ListFormat) (d : Bytes)
    → is_fixed format ≡ true
    → IsListed d
    → line_text new_parser (print_rule format d) ≡ print_rule format d
unfolding line_text print_rule is_fixed is_space trim_space trim_right
line_text-print_rule format_auto d fix h = ground (arith, fix)
line_text-print_rule format_domains d fix h =
    trim_space-domain_bytes d (is_valid_domain-parts d h.0.0).1
line_text-print_rule format_hosts d fix h =
    let (full, plain, no_dot) = is_valid_domain-parts d h.0.0 in trim_right-hosts d full plain
line_text-print_rule format_adblock d fix h = trim_right-last (b'|' ∷ b'|' ∷ d) b'^' refl

is_comment-domain_bytes :
    (d : Bytes) → is_empty d ≡ false → domain_bytes d ≡ true → is_comment d ≡ false
unfolding is_comment has_prefix domain_bytes is_domain_byte hydra_dns.Filtering.Parser.is_alpha_num
    is_empty
is_comment-domain_bytes [] full h = ground (arith, full)
is_comment-domain_bytes (c ∷ cs) full h = ground (arith, h)

parse_line-print_rule :
    (format : ListFormat) (d : Bytes)
    → is_fixed format ≡ true
    → IsListed d
    → parse_line new_parser (print_rule format d) format ≡ some d
unfolding parse_line is_fixed is_empty is_comment has_prefix print_rule
parse_line-print_rule format_auto d fix h = ground (arith, fix)
parse_line-print_rule format_domains d fix h =
    let (full, plain, no_dot) = is_valid_domain-parts d h.0.0 in
    rw (parse_line, full, is_comment-domain_bytes d full plain)
      (parse_domains_line-print_rule d h.0)
parse_line-print_rule format_hosts d fix h = parse_hosts_line-print_rule d h
parse_line-print_rule format_adblock d fix h = parse_adblock_line-print_rule d h.0

rule_list-print_rule :
    (format : ListFormat) (ds : List Bytes)
    → is_fixed format ≡ true
    → All IsListed ds
    → rule_list new_parser format (map (print_rule format) ds) ≡ ds
unfolding rule_list
rule_list-print_rule format [] fix h = refl
rule_list-print_rule format (d ∷ ds) fix h =
    rw
      (
        rule_list,
        line_text-print_rule format d fix h.0,
        parse_line-print_rule format d fix h.0,
        rule_list-print_rule format ds fix h.1,
      )
      refl

contains_byte-append :
    (b : ℕ) (xs ys : Bytes)
    → contains_byte b (xs ++ ys) ≡ (contains_byte b xs || contains_byte b ys)
unfolding contains_byte
contains_byte-append b [] ys = refl
contains_byte-append b (x ∷ xs) ys = rw (contains_byte-append b xs ys) (ground arith)

is_valid_domain-length : (d : Bytes) → is_valid_domain d ≡ true → length d ≤ 253
unfolding is_valid_domain
is_valid_domain-length d h = ground (arith, h)

IsLine-print_rule : (format : ListFormat) (d : Bytes) → IsListed d → IsLine (print_rule format d)
unfolding print_rule contains_byte is_domain_byte hydra_dns.Filtering.Parser.is_alpha_num
IsLine-print_rule format d h =
    let plain = (is_valid_domain-parts d h.0.0).1 in
    let no_lf = contains_byte-domain_bytes 10 d refl plain in
    let no_cr = contains_byte-domain_bytes 13 d refl plain in
    let short = is_valid_domain-length d h.0.0 in
    elim format as (λ f. IsLine (print_rule f d)) [
      | format_hosts ↦ (no_lf, no_cr, omega (arith, short))
      | format_adblock ↦ (
        rw (contains_byte-append 10 d (b'^' ∷ []), no_lf) refl,
        rw (contains_byte-append 13 d (b'^' ∷ []), no_cr) refl,
        omega (arith, short, length-append d (b'^' ∷ [])),
      )
      | _ ↦ (no_lf, no_cr, omega (arith, short))
    ]

All-print_rule :
    (format : ListFormat) (ds : List Bytes)
    → All IsListed ds
    → All IsLine (map (print_rule format) ds)
All-print_rule format [] h = tt
All-print_rule format (d ∷ ds) h = (IsLine-print_rule format d h.0, All-print_rule format ds h.1)

-- Rules that are written one to a line in a format are read back by Parse with that format: the
-- trie is the one that holds each rule with its subdomains. The rules are valid, lower case, and not
-- localhost.localdomain.
pub parse-print_rule :
    (format : ListFormat) (ds : List Bytes)
    → is_fixed format ≡ true
    → All IsListed ds
    → parse new_parser format (unlines (map (print_rule format) ds)) false
      ≡ some (add_all ds new_domain_trie)
unfolding parse
parse-print_rule format ds fix h =
    rw
      (
        parse,
        scan_lines-unlines (map (print_rule format) ds) (All-print_rule format ds h),
        parse_lines_lem new_parser format (map (print_rule format) ds) new_domain_trie fix,
        rule_list-print_rule format ds fix h,
      )
      refl
