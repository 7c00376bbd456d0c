-- ===== src/Filtering/Parser.antt =====
-- internal/filtering/parser.go: lists of domains in their formats. A reader is what it delivers, and whether it ends in an error.
pub mod Valid
pub mod Normal
pub mod Lines
pub mod Found
pub mod Detected
pub mod Printed
pub mod RoundTrip
pub mod Blocking
pub mod Encodable
use hydra_dns.Base.Runes.{runes}
use hydra_dns.Base.{
  ℕ, suc, ◌*◌, ◌%◌, ◌≤◌, ◌<◌, [], ◌∷◌, ◌++◌, List, Bool, true, false, not, ◌&&◌, ◌||◌, arith, ltb,
  leb, ◌==◌, if◌then◌else◌, length, drop, Option, none, some, Bytes, bytes_eq,
}
use hydra_dns.Base.Int.{ℤ, pos, negsuc}
use hydra_dns.Base.Text.{trim_space, split, has_prefix, contains_byte, cut_before, fields}
use hydra_dns.Dns.Name.{is_empty}
use hydra_dns.Filtering.Trie.{DomainTrie, new_domain_trie, add, normalize_domain}

pub data ListFormat : Type 0 where
  format_auto format_domains format_hosts format_adblock : ListFormat

pub record Parser : Type 0 where
  pub ignore_comments : Bool
  pub trim_whitespace : Bool
  pub timeout : ℤ

abbrev pub new_parser : Parser
new_parser = record { ignore_comments = true; trim_whitespace = true; timeout = pos 60000 }

unfoldable pub set_timeout : ℤ → Parser → Parser
set_timeout ms p = record p { timeout = ms }

-- `0.0.0.0`
abbrev pub null_address : Bytes
null_address = b'0' ∷ b'.' ∷ b'0' ∷ b'.' ∷ b'0' ∷ b'.' ∷ b'0' ∷ []

-- `127.0.0.1`
abbrev pub loopback_address : Bytes
loopback_address = b'1' ∷ b'2' ∷ b'7' ∷ b'.' ∷ b'0' ∷ b'.' ∷ b'0' ∷ b'.' ∷ b'1' ∷ []

-- `localhost`
abbrev pub localhost : Bytes
localhost = b'l' ∷ b'o' ∷ b'c' ∷ b'a' ∷ b'l' ∷ b'h' ∷ b'o' ∷ b's' ∷ b't' ∷ []

-- `localhost.localdomain`
abbrev pub localhost_localdomain : Bytes
localhost_localdomain =
    b'l' ∷ b'o' ∷ b'c' ∷ b'a' ∷ b'l' ∷ b'h' ∷ b'o' ∷ b's' ∷ b't' ∷ b'.' ∷ b'l' ∷ b'o' ∷ b'c' ∷ b'a'
    ∷ b'l' ∷ b'd' ∷ b'o' ∷ b'm' ∷ b'a' ∷ b'i' ∷ b'n' ∷ []

-- The test for a comment that detectFormat and parseLine share.
unfoldable pub is_comment : Bytes → Bool
is_comment line = has_prefix (b'#' ∷ []) line || has_prefix (b'!' ∷ []) line

unfoldable pub detect_format : Bytes → ListFormat
unfolding is_comment
detect_format text =
    let line = trim_space text in
    if is_comment line
    then format_auto
    else (if has_prefix (b'|' ∷ b'|' ∷ []) line
        then format_adblock
        else (if has_prefix null_address line || has_prefix loopback_address line
            then format_hosts
            else format_domains))

unfoldable pub is_alpha_num : ℕ → Bool
is_alpha_num c =
    (leb b'a' c && leb c b'z') || ((leb b'A' c && leb c b'Z') || (leb b'0' c && leb c b'9'))

-- `label[0]` of a label that is not empty.
unfoldable pub starts_alpha_num : Bytes → Bool
starts_alpha_num [] = false
starts_alpha_num (c ∷ cs) = is_alpha_num c

-- `label[len(label)-1]` of a label that is not empty.
unfoldable pub ends_alpha_num : Bytes → Bool
unfolding is_alpha_num
ends_alpha_num [] = false
ends_alpha_num (c ∷ []) = is_alpha_num c
ends_alpha_num (c ∷ d ∷ cs) = ends_alpha_num (d ∷ cs)

-- The loop over the runes of a label, with `byte(c)` of a rune `c`.
unfoldable pub label_runes : List ℕ → Bool
unfolding is_alpha_num
label_runes [] = true
label_runes (c ∷ cs) = (is_alpha_num (c % 256) || c == b'-') && label_runes cs

-- The body of isValidDomain's loop.
unfoldable pub is_valid_label : Bytes → Bool
unfolding is_empty starts_alpha_num ends_alpha_num label_runes runes
is_valid_label label =
    if is_empty label || ltb 63 (length label)
    then false
    else (if not (starts_alpha_num label) || not (ends_alpha_num label)
        then false
        else label_runes (runes 0 label))

unfoldable pub valid_labels : List Bytes → Bool
unfolding is_valid_label
valid_labels [] = true
valid_labels (l ∷ ls) = is_valid_label l && valid_labels ls

unfoldable pub is_valid_domain : Bytes → Bool
unfolding is_empty valid_labels
is_valid_domain domain =
    if is_empty domain || ltb 253 (length domain)
    then false
    else (if not (contains_byte b'.' domain) then false else valid_labels (split b'.' domain))

-- `domain == "" || !isValidDomain(domain)`, the end of each line parser. The code's pair of a
-- domain and its wildcard is ("", false) for `none` and (domain, true) for `some domain`.
unfoldable pub checked_domain : Bytes → Option Bytes
unfolding is_empty is_valid_domain
checked_domain domain =
    if is_empty domain || not (is_valid_domain domain) then none else some domain

unfoldable pub parse_adblock_line : Bytes → Option Bytes
unfolding checked_domain
parse_adblock_line line =
    if has_prefix (b'@' ∷ b'@' ∷ []) line
    then none
    else (if not (has_prefix (b'|' ∷ b'|' ∷ []) line)
        then none
        else (let domain = cut_before b'$' (cut_before b'^' (drop 2 line)) in
            if contains_byte b'/' domain
            then none
            else (if contains_byte b'*' domain
                then none
                else checked_domain (normalize_domain domain))))

-- The part of parseHostsLine behind the split into fields.
unfoldable pub parse_hosts_fields : List Bytes → Option Bytes
unfolding checked_domain
parse_hosts_fields (ip ∷ name ∷ rest) =
    if not (bytes_eq ip null_address) && not (bytes_eq ip loopback_address)
    then none
    else (elim (checked_domain (normalize_domain name)) [
      | none ↦ none
      | some domain ↦
          if bytes_eq domain localhost || bytes_eq domain localhost_localdomain
          then none
          else some domain
    ])
parse_hosts_fields few = none

unfoldable pub parse_hosts_line : Bytes → Option Bytes
unfolding parse_hosts_fields
parse_hosts_line text =
    let line = trim_space (cut_before b'#' text) in
    if is_empty line then none else parse_hosts_fields (fields line)

unfoldable pub parse_domains_line : Bytes → Option Bytes
unfolding checked_domain
parse_domains_line line = checked_domain (normalize_domain (trim_space (cut_before b'#' line)))

-- parseLine: a domain that it returns is a wildcard.
unfoldable pub parse_line : Parser → Bytes → ListFormat → Option Bytes
unfolding is_comment parse_adblock_line parse_hosts_line parse_domains_line
parse_line p line format =
    if is_empty line
    then none
    else (if p.ignore_comments && is_comment line then none else (elim format [
      | format_adblock ↦ parse_adblock_line line
      | format_hosts ↦ parse_hosts_line line
      | _ ↦ parse_domains_line line
    ]))

-- What Parse makes of the text of a line, and the format behind `if format == FormatAuto`.
unfoldable pub line_text : Parser → Bytes → Bytes
line_text p line = if p.trim_whitespace then trim_space line else line

unfoldable pub line_format : ListFormat → Bytes → ListFormat
unfolding detect_format
line_format format_auto line = detect_format line
line_format format line = format

-- `trie.Add(domain, wildcard)` where a domain was found.
unfoldable pub add_found : Option Bytes → DomainTrie → DomainTrie
add_found none t = t
add_found (some domain) t = add domain true t

-- Parse's loop over the lines that the scanner delivers.
unfoldable pub parse_lines : Parser → ListFormat → List Bytes → DomainTrie → DomainTrie
unfolding line_text line_format parse_line add_found
parse_lines p format [] t = t
parse_lines p format (raw ∷ raws) t =
    let line = line_text p raw in
    let format' = if is_empty line then format else line_format format line in
    let found = if is_empty line then none else parse_line p line format' in
    parse_lines p format' raws (add_found found t)

-- The most bytes that the scanner's buffer holds.
abbrev pub max_token : ℕ
max_token = 1024 * 1024

-- `dropCR` of bufio.ScanLines
unfoldable pub drop_cr : Bytes → Bytes
drop_cr [] = []
drop_cr (c ∷ []) = if c == 13 then [] else c ∷ []
drop_cr (c ∷ d ∷ cs) = c ∷ drop_cr (d ∷ cs)

-- The lines that a bufio.Scanner with bufio.ScanLines delivers, and whether it stops at a line
-- that fills its buffer. `line` has been read.
unfoldable pub scan_lines : Bytes → Bytes → List Bytes × Bool
unfolding is_empty drop_cr
scan_lines line [] =
    if is_empty line
    then ([], false)
    else (if leb max_token (length line) then ([], true) else (drop_cr line ∷ [], false))
scan_lines line (c ∷ cs) =
    let next = scan_lines [] cs in
    let on = scan_lines (line ++ (c ∷ [])) cs in
    if c == 10
    then (if leb max_token (length line) then ([], true) else (drop_cr line ∷ next.0, next.1))
    else on

-- Parse: `none` is an error. The reader delivers `content`, and `read_error` says whether it fails
-- behind it; a scanner that stops at a long line reads no further.
unfoldable pub parse : Parser → ListFormat → Bytes → Bool → Option DomainTrie
unfolding scan_lines parse_lines
parse p format content read_error =
    let (lines, too_long) = scan_lines [] content in
    if too_long || read_error then none else some (parse_lines p format lines new_domain_trie)

-- ParseFile, where `opened` is what os.Open gives: `none` for an error.
unfoldable pub parse_file : Parser → ListFormat → Option (Bytes × Bool) → Option DomainTrie
unfolding parse
parse_file p format none = none
parse_file p format (some (content, read_error)) = parse p format content read_error

-- The timeout of ParseURL in milliseconds, where it is below 2^63 nanoseconds.
unfoldable pub url_timeout : ℤ → ℤ
url_timeout (pos (suc n)) = pos (suc n)
url_timeout ms = pos 60000

-- What the HTTP client gives: the status of the response, its body, and whether reading it fails.
pub record HttpResponse : Type 0 where
  pub status_code : ℕ
  pub body : Bytes
  pub body_error : Bool

-- ParseURL. `fetch` makes the request and sends it under a timeout, `none` for an error.
unfoldable pub parse_url : (ℤ → Option HttpResponse) → Parser → ListFormat → Option DomainTrie
unfolding parse url_timeout
parse_url fetch p format = elim (fetch (url_timeout p.timeout)) [
  | none ↦ none
  | some resp ↦
      if not (resp.status_code == 200) then none else parse p format resp.body resp.body_error
]

unfoldable pub add_domains : List Bytes → DomainTrie → DomainTrie
unfolding add_found checked_domain
add_domains [] t = t
add_domains (d ∷ ds) t = add_domains ds (add_found (checked_domain (normalize_domain d)) t)

unfoldable pub parse_domains_slice : List Bytes → DomainTrie
unfolding add_domains
parse_domains_slice domains = add_domains domains new_domain_trie
