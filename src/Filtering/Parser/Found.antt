-- ===== src/Filtering/Parser/Found.antt =====
-- What Parse puts into the trie: the domains that its lines give, each of them valid.
use hydra_dns.Base.{
  ℕ, ◌≡◌, refl, ap, sym, ◌∙◌, inl, inr, arith, [], ◌∷◌, List, Bool, true, false, not, ◌&&◌, ◌||◌,
  if◌then◌else◌, Bytes, Bool-cases, Option, none, some, Option-cases, bytes_eq,
}
use hydra_dns.Base.Text.{trim_space, cut_before, fields}
use hydra_dns.Dns.Name.{is_empty}
use hydra_dns.Filtering.Trie.{DomainTrie, add, normalize_domain}
use hydra_dns.Filtering.Policy.{add_all}
use hydra_dns.Filtering.Parser.{
  ListFormat, format_auto, format_domains, format_hosts, format_adblock, Parser, checked_domain,
  parse_adblock_line, parse_hosts_fields, parse_hosts_line, parse_domains_line, parse_line,
  line_text, line_format, add_found, parse_lines,
}
use hydra_dns.Filtering.Parser.Normal.{IsRule, checked_domain-IsRule}

parse_adblock_line-IsRule : (line d : Bytes) → parse_adblock_line line ≡ some d → IsRule d
unfolding parse_adblock_line
parse_adblock_line-IsRule line d h =
    let x = cut_before b'$' (cut_before b'^' (hydra_dns.Base.drop 2 line)) in
    let found : checked_domain (normalize_domain x) ≡ some d = ground (arith, h) in
    checked_domain-IsRule x d found

parse_hosts_fields-IsRule :
    (fs : List Bytes) (d : Bytes) → parse_hosts_fields fs ≡ some d → IsRule d
unfolding parse_hosts_fields
parse_hosts_fields-IsRule [] d h = ground (arith, h)
parse_hosts_fields-IsRule (ip ∷ []) d h = ground (arith, h)
parse_hosts_fields-IsRule (ip ∷ name ∷ rest) d h =
    let found : checked_domain (normalize_domain name) ≡ some d = ground (arith, h) in
    checked_domain-IsRule name d found

parse_hosts_line-IsRule : (line d : Bytes) → parse_hosts_line line ≡ some d → IsRule d
unfolding parse_hosts_line
parse_hosts_line-IsRule line d h =
    parse_hosts_fields-IsRule (fields (trim_space (cut_before b'#' line))) d (ground (arith, h))

parse_domains_line-IsRule : (line d : Bytes) → parse_domains_line line ≡ some d → IsRule d
unfolding parse_domains_line
parse_domains_line-IsRule line d h = checked_domain-IsRule (trim_space (cut_before b'#' line)) d h

pub parse_line-IsRule :
    (p : Parser) (line : Bytes) (format : ListFormat) (d : Bytes)
    → parse_line p line format ≡ some d
    → IsRule d
unfolding parse_line
parse_line-IsRule p line format_auto d h = parse_domains_line-IsRule line d (ground (arith, h))
parse_line-IsRule p line format_domains d h = parse_domains_line-IsRule line d (ground (arith, h))
parse_line-IsRule p line format_hosts d h = parse_hosts_line-IsRule line d (ground (arith, h))
parse_line-IsRule p line format_adblock d h = parse_adblock_line-IsRule line d (ground (arith, h))

-- The domains that the lines give in one format.
unfoldable pub rule_list : Parser → ListFormat → List Bytes → List Bytes
rule_list p format [] = []
rule_list p format (l ∷ ls) =
    let rest = rule_list p format ls in
    elim (parse_line p (line_text p l) format) [ none ↦ rest | some d ↦ d ∷ rest ]

-- A format that is not to be detected.
unfoldable pub is_fixed : ListFormat → Bool
is_fixed format_auto = false
is_fixed other = true

line_format-is_fixed :
    (format : ListFormat) (l : Bytes) → is_fixed format ≡ true → line_format format l ≡ format
unfolding line_format is_fixed
line_format-is_fixed format_auto l h = ground arith
line_format-is_fixed format_domains l h = refl
line_format-is_fixed format_hosts l h = refl
line_format-is_fixed format_adblock l h = refl

-- Parse skips a line that is empty once it is trimmed.
pub parse_lines-skipped :
    (p : Parser) (format : ListFormat) (l : Bytes) (ls : List Bytes) (t : DomainTrie)
    → is_empty (line_text p l) ≡ true
    → parse_lines p format (l ∷ ls) t ≡ parse_lines p format ls t
unfolding parse_lines add_found
parse_lines-skipped p format l ls t h = rw (h) refl

pub parse_lines-read :
    (p : Parser) (format : ListFormat) (l : Bytes) (ls : List Bytes) (t : DomainTrie)
    → is_empty (line_text p l) ≡ false
    → parse_lines p format (l ∷ ls) t
      ≡ parse_lines p
          (line_format format (line_text p l))
          ls
          (add_found (parse_line p (line_text p l) (line_format format (line_text p l))) t)
unfolding parse_lines
parse_lines-read p format l ls t h = rw (h) refl

pub parse_line-empty :
    (p : Parser) (l : Bytes) (format : ListFormat)
    → is_empty l ≡ true
    → parse_line p l format ≡ none
unfolding parse_line
parse_line-empty p l format h = rw (parse_line, h) refl

-- In a format that is not to be detected, Parse adds the domains that the lines give.
pub parse_lines_lem :
    (p : Parser) (format : ListFormat) (ls : List Bytes) (t : DomainTrie)
    → is_fixed format ≡ true
    → parse_lines p format ls t ≡ add_all (rule_list p format ls) t
unfolding parse_lines rule_list add_all add_found
parse_lines_lem p format [] t h = refl
parse_lines_lem p format (l ∷ ls) t h = elim (Bool-cases (is_empty (line_text p l))) [
  | inl e ↦
      rw (rule_list, parse_line-empty p (line_text p l) format e)
        (parse_lines-skipped p format l ls t e ∙ parse_lines_lem p format ls t h)
  | inr e ↦
      let keep = line_format-is_fixed format (line_text p l) h in
      elim (Option-cases (parse_line p (line_text p l) format)) [
        | inl e' ↦
            parse_lines-read p format l ls t e
            ∙ rw (keep, rule_list, e') (parse_lines_lem p format ls t h)
        | inr (d, e') ↦
            parse_lines-read p format l ls t e
            ∙ rw (keep, rule_list, e') (parse_lines_lem p format ls (add d true t) h)
      ]
]
