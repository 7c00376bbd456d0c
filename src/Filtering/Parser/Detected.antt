-- ===== src/Filtering/Parser/Detected.antt =====
-- The format that Parse detects: the first line that is neither empty nor a comment decides it.
use hydra_dns.Base.{
  ◌≡◌, refl, ap, sym, ◌∙◌, inl, inr, arith, [], ◌∷◌, List, Bool, true, false, not, ◌||◌,
  if◌then◌else◌, Bytes, Bool-cases, none, ◌⊎◌, List-cases,
}
use hydra_dns.Base.Text.{is_space, trim_left, trim_right, trim_space}
use hydra_dns.Dns.Name.{is_empty}
use hydra_dns.Filtering.Trie.{DomainTrie, new_domain_trie}
use hydra_dns.Filtering.Parser.{
  ListFormat, format_auto, format_domains, format_hosts, format_adblock, Parser, is_comment,
  detect_format, parse_line, line_text, line_format, add_found, parse_lines, scan_lines, parse,
}
use hydra_dns.Filtering.Parser.Found.{is_fixed, parse_lines-skipped, parse_lines-read}

-- The text does not begin with white space.
unfoldable starts_plain : Bytes → Bool
unfolding is_space
starts_plain [] = true
starts_plain (c ∷ cs) = not (is_space c)

starts_plain-trim_left : (s : Bytes) → starts_plain (trim_left s) ≡ true
unfolding starts_plain trim_left
starts_plain-trim_left [] = refl
starts_plain-trim_left (c ∷ cs) = ground (arith, starts_plain-trim_left cs)

trim_left-plain : (s : Bytes) → starts_plain s ≡ true → trim_left s ≡ s
unfolding starts_plain trim_left
trim_left-plain [] h = refl
trim_left-plain (c ∷ cs) h = ground (arith, h)

starts_plain-trim_right : (s : Bytes) → starts_plain s ≡ true → starts_plain (trim_right s) ≡ true
unfolding starts_plain trim_right
starts_plain-trim_right [] h = refl
starts_plain-trim_right (c ∷ cs) h = elim (List-cases (trim_right cs)) [
  | inl e ↦ rw (trim_right, e) (ground (arith, h))
  | inr (x, xs, e) ↦ rw (trim_right, e) h
]

trim_right_twice : (s : Bytes) → trim_right (trim_right s) ≡ trim_right s
unfolding trim_right
trim_right_twice [] = refl
trim_right_twice (c ∷ cs) = elim (List-cases (trim_right cs)) [
  | inl e ↦ elim (Bool-cases (is_space c)) [
    | inl sp ↦ rw (trim_right, e, sp) refl
    | inr sp ↦ rw (trim_right, e, sp) (rw (trim_right, sp) refl)
  ]
  | inr (x, xs, e) ↦
      let again : trim_right (x ∷ xs) ≡ x ∷ xs =
        sym (ap trim_right e) ∙ (trim_right_twice cs ∙ e) in
      rw (trim_right, e) (rw (trim_right, again) refl)
]

trim_space_twice : (s : Bytes) → trim_space (trim_space s) ≡ trim_space s
unfolding trim_space
trim_space_twice s =
    let plain = starts_plain-trim_right (trim_left s) (starts_plain-trim_left s) in
    rw (trim_space, trim_left-plain (trim_right (trim_left s)) plain)
      (trim_right_twice (trim_left s))

-- The format of the first line that is neither empty nor a comment; where there is none, no format
-- finds anything.
unfoldable pub list_format : List Bytes → ListFormat
list_format [] = format_domains
list_format (l ∷ ls) =
    let later = list_format ls in
    if is_empty (trim_space l) || is_comment (trim_space l) then later else detect_format l

ListFormat-cases :
    (f : ListFormat)
    → (f ≡ format_auto) ⊎ ((f ≡ format_domains) ⊎ ((f ≡ format_hosts) ⊎ (f ≡ format_adblock)))
ListFormat-cases format_auto = inl refl
ListFormat-cases format_domains = inr (inl refl)
ListFormat-cases format_hosts = inr (inr (inl refl))
ListFormat-cases format_adblock = inr (inr (inr refl))

-- A line detects the same format again.
line_format-detect_format : (l : Bytes) → line_format (detect_format l) l ≡ detect_format l
unfolding line_format
line_format-detect_format l = elim (ListFormat-cases (detect_format l)) [
  | inl e ↦ rw (line_format, e) e
  | inr (inl e) ↦ rw (line_format, e) refl
  | inr (inr (inl e)) ↦ rw (line_format, e) refl
  | inr (inr (inr e)) ↦ rw (line_format, e) refl
]

-- A comment leaves every format as it is.
line_format-comment :
    (f : ListFormat) (l : Bytes) → is_comment (trim_space l) ≡ true → line_format f l ≡ f
unfolding line_format detect_format
line_format-comment format_auto l h = ground (arith, h)
line_format-comment format_domains l h = refl
line_format-comment format_hosts l h = refl
line_format-comment format_adblock l h = refl

detect_format-trim_space : (l : Bytes) → detect_format (trim_space l) ≡ detect_format l
unfolding detect_format
detect_format-trim_space l = rw (detect_format, trim_space_twice l) refl

module _ (p : Parser) (ignores : p.ignore_comments ≡ true) (trims : p.trim_whitespace ≡ true) where
  text-trimmed : (l : Bytes) → line_text p l ≡ trim_space l
  unfolding line_text
  text-trimmed l = rw (trims) refl

  comment_none : (l : Bytes) (f : ListFormat) → is_comment l ≡ true → parse_line p l f ≡ none
  unfolding parse_line
  comment_none l f h = ground (arith, ignores, h)

  -- A comment adds nothing and keeps the format.
  comment_step :
      (f : ListFormat) (l : Bytes) (ls : List Bytes) (t : DomainTrie)
      → is_empty (line_text p l) ≡ false
      → is_comment (line_text p l) ≡ true
      → parse_lines p f (l ∷ ls) t ≡ parse_lines p f ls t
  unfolding add_found
  comment_step f l ls t full c =
      let text = text-trimmed l in
      let again : is_comment (trim_space (line_text p l)) ≡ true =
        ap is_comment (ap trim_space text ∙ (trim_space_twice l ∙ sym text)) ∙ c in
      let keep = line_format-comment f (line_text p l) again in
      parse_lines-read p f l ls t full ∙ rw (keep, comment_none (line_text p l) f c) refl

  -- A line that is neither empty nor a comment is read in the format that it shows.
  detecting_step :
      (l : Bytes) (ls : List Bytes) (t : DomainTrie)
      → is_empty (line_text p l) ≡ false
      → parse_lines p format_auto (l ∷ ls) t
        ≡ parse_lines p (detect_format (line_text p l)) (l ∷ ls) t
  unfolding line_format
  detecting_step l ls t full =
      let format = detect_format (line_text p l) in
      let keep : line_format format (line_text p l) ≡ format =
        line_format-detect_format (line_text p l) in
      let next =
        λ (f : ListFormat). parse_lines p f ls (add_found (parse_line p (line_text p l) f) t) in
      parse_lines-read p format_auto l ls t full
      ∙ (ap next (sym keep) ∙ sym (parse_lines-read p format l ls t full))

  -- The format of the first line that is neither empty nor a comment, with the trimming of Parse.
  list_format_first :
      (l : Bytes) (ls : List Bytes)
      → is_empty (trim_space l) ≡ false
      → is_comment (trim_space l) ≡ false
      → list_format (l ∷ ls) ≡ detect_format (line_text p l)
  unfolding list_format
  list_format_first l ls full c =
      let first : list_format (l ∷ ls) ≡ detect_format l = ground (arith, full, c) in
      first ∙ (sym (detect_format-trim_space l) ∙ ap detect_format (sym (text-trimmed l)))

  list_format_later :
      (l : Bytes) (ls : List Bytes)
      → (is_empty (trim_space l) || is_comment (trim_space l)) ≡ true
      → list_format (l ∷ ls) ≡ list_format ls
  unfolding list_format
  list_format_later l ls h = rw (h) refl

  -- The loop of Parse with a format to detect, and with the format of the list.
  pub parse_lines-list_format :
      (ls : List Bytes) (t : DomainTrie)
      → parse_lines p format_auto ls t ≡ parse_lines p (list_format ls) ls t
  unfolding list_format parse_lines
  parse_lines-list_format [] t = refl
  parse_lines-list_format (l ∷ ls) t =
      let text = text-trimmed l in
      let in_format = λ (f : ListFormat). parse_lines p f (l ∷ ls) t in
      let later = parse_lines-list_format ls t in
      elim (Bool-cases (is_empty (trim_space l))) [
        | inl e ↦
            let blank : is_empty (line_text p l) ≡ true = rw (text) e in
            let same = list_format_later l ls (ground (arith, e)) in
            parse_lines-skipped p format_auto l ls t blank
            ∙ (later
                ∙ (sym (parse_lines-skipped p (list_format ls) l ls t blank)
                    ∙ ap in_format (sym same)))
        | inr e ↦
            let full : is_empty (line_text p l) ≡ false = rw (text) e in
            elim (Bool-cases (is_comment (trim_space l))) [
              | inl c ↦
                  let skip = λ (f : ListFormat). comment_step f l ls t full (rw (text) c) in
                  let same = list_format_later l ls (ground (arith, e, c)) in
                  skip format_auto
                  ∙ (later ∙ (sym (skip (list_format ls)) ∙ ap in_format (sym same)))
              | inr c ↦ detecting_step l ls t full ∙ ap in_format (sym (list_format_first l ls e c))
            ]
      ]

is_fixed-detect_format :
    (l : Bytes) → is_comment (trim_space l) ≡ false → is_fixed (detect_format l) ≡ true
unfolding detect_format is_fixed
is_fixed-detect_format l h = ground (arith, h)

pub is_fixed-list_format : (ls : List Bytes) → is_fixed (list_format ls) ≡ true
unfolding list_format is_fixed
is_fixed-list_format [] = refl
is_fixed-list_format (l ∷ ls) = ground (arith, is_fixed-list_format ls, is_fixed-detect_format l)

-- Parse with a format to detect gives what it gives with the format of the first line that is
-- neither empty nor a comment, errors included.
pub parse-list_format :
    (p : Parser) (content : Bytes) (read_error : Bool)
    → p.ignore_comments ≡ true
    → p.trim_whitespace ≡ true
    → parse p format_auto content read_error
      ≡ parse p (list_format (scan_lines [] content).0) content read_error
unfolding parse
parse-list_format p content read_error ignores trims =
    rw (parse_lines-list_format p ignores trims (scan_lines [] content).0 new_domain_trie) refl
