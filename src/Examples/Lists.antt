-- ===== src/Examples/Lists.antt =====
-- Lists of domains in each format, and a policy over a list that is fetched.
use hydra_dns.Base.{
  ℕ, ◌≡◌, refl, [], ◌∷◌, ◌++◌, List, Bool, true, false, not, ◌&&◌, if◌then◌else◌, Option, none,
  some, Bytes, All, ok, map, arith,
}
use hydra_dns.Dns.Name.{encode_name}
use hydra_dns.Dns.Name.Encode.{name_wire}
use hydra_dns.Filtering.Trie.{new_domain_trie, contains}
use hydra_dns.Filtering.Policy.{
  PolicyEngine, PolicyEngineConfig, allow, block, new_policy_engine, evaluate, refresh, add_all,
}
use hydra_dns.Filtering.Parser.{
  format_auto, format_domains, format_hosts, format_adblock, new_parser, HttpResponse, scan_lines,
  detect_format, parse_line, parse, is_valid_domain, parse_domains_slice,
}
use hydra_dns.Filtering.Parser.Normal.{IsRule}
use hydra_dns.Filtering.Parser.Lines.{unlines}
use hydra_dns.Filtering.Parser.Printed.{print_rule, IsListed}
use hydra_dns.Filtering.Parser.RoundTrip.{parse-print_rule}
use hydra_dns.Filtering.Parser.Detected.{list_format, parse-list_format}
use hydra_dns.Filtering.Parser.Blocking.{RemoteList, parsed, any_listed, evaluate-refresh-parsed}
use hydra_dns.Filtering.Parser.Encodable.{parse_line-encode_name}
use hydra_dns.Examples.Messages.{a_dot_b}

-- `0.0.0.0 a.b # c`
abbrev hosts_line : Bytes
hosts_line =
    b'0' ∷ b'.' ∷ b'0' ∷ b'.' ∷ b'0' ∷ b'.' ∷ b'0' ∷ b' ' ∷ b'A' ∷ b'.' ∷ b'b' ∷ b' ' ∷ b'#' ∷ b'c'
    ∷ []

hosts_line_found : parse_line new_parser hosts_line format_hosts ≡ some a_dot_b
unfolding parse_line hydra_dns.Base.Text.has_prefix hydra_dns.Base.Text.trim_space
    hydra_dns.Base.Text.cut_before hydra_dns.Base.Text.fields hydra_dns.Base.bytes_eq
    hydra_dns.Filtering.Trie.normalize_domain hydra_dns.Dns.Name.trim_suffix_dot
    hydra_dns.Dns.Name.to_lower hydra_dns.Base.Text.contains_byte hydra_dns.Base.Text.split
hosts_line_found = refl

parse_line-encode_name_example : IsRule a_dot_b × (encode_name a_dot_b ≡ ok (name_wire a_dot_b))
parse_line-encode_name_example =
    parse_line-encode_name new_parser hosts_line format_hosts a_dot_b hosts_line_found (omega arith)

-- `# x`, LF, `||a.b^`
abbrev commented_list : Bytes
commented_list = b'#' ∷ b'x' ∷ 10 ∷ b'|' ∷ b'|' ∷ b'a' ∷ b'.' ∷ b'b' ∷ b'^' ∷ []

commented_is_adblock : list_format (scan_lines [] commented_list).0 ≡ format_adblock
unfolding list_format scan_lines hydra_dns.Base.Text.trim_space
    hydra_dns.Filtering.Parser.is_comment hydra_dns.Base.Text.has_prefix detect_format
commented_is_adblock = refl

commented_list_parsed :
    parse new_parser format_auto commented_list false
    ≡ some (add_all (a_dot_b ∷ []) new_domain_trie)
unfolding parse add_all hydra_dns.Base.Text.trim_space hydra_dns.Filtering.Trie.add
    hydra_dns.Base.Text.has_prefix hydra_dns.Filtering.Trie.normalize_domain
    hydra_dns.Base.Text.contains_byte hydra_dns.Dns.Name.trim_suffix_dot
    hydra_dns.Base.Text.cut_before hydra_dns.Dns.Name.to_lower hydra_dns.Base.Text.split
commented_list_parsed = refl

parse-list_format_example :
    parse new_parser format_auto commented_list false
    ≡ parse new_parser (list_format (scan_lines [] commented_list).0) commented_list false
parse-list_format_example = parse-list_format new_parser commented_list false refl refl

-- `[x]`, LF, `||a.b^`: the head line of an Adblock list makes it a list of domains.
abbrev headed_list : Bytes
headed_list = b'[' ∷ b'x' ∷ b']' ∷ 10 ∷ b'|' ∷ b'|' ∷ b'a' ∷ b'.' ∷ b'b' ∷ b'^' ∷ []

headed_list_lost : parse new_parser format_auto headed_list false ≡ some new_domain_trie
unfolding parse hydra_dns.Base.Text.trim_space hydra_dns.Base.Text.has_prefix
    hydra_dns.Filtering.Trie.normalize_domain hydra_dns.Dns.Name.trim_suffix_dot
    hydra_dns.Dns.Name.to_lower hydra_dns.Base.Text.cut_before hydra_dns.Base.Text.contains_byte
    hydra_dns.Base.Text.split
headed_list_lost = refl

-- `127.0.0.1.a`: a domain that makes its list a hosts file.
numeric_is_hosts :
    detect_format (b'1' ∷ b'2' ∷ b'7' ∷ b'.' ∷ b'0' ∷ b'.' ∷ b'0' ∷ b'.' ∷ b'1' ∷ b'.' ∷ b'a' ∷ [])
    ≡ format_hosts
unfolding detect_format hydra_dns.Base.Text.has_prefix hydra_dns.Base.Text.trim_space
numeric_is_hosts = refl

a_dot_b_valid : is_valid_domain a_dot_b ≡ true
unfolding is_valid_domain hydra_dns.Base.Text.contains_byte hydra_dns.Base.Text.split
a_dot_b_valid = refl

a_dot_b-IsListed : IsListed a_dot_b
unfolding hydra_dns.Filtering.Trie.normalize_domain hydra_dns.Dns.Name.trim_suffix_dot
    hydra_dns.Dns.Name.to_lower hydra_dns.Base.Text.trim_space hydra_dns.Base.bytes_eq
a_dot_b-IsListed = ((a_dot_b_valid, refl), refl)

parse-print_rule_example :
    parse new_parser format_hosts (unlines (map (print_rule format_hosts) (a_dot_b ∷ []))) false
    ≡ some (add_all (a_dot_b ∷ []) new_domain_trie)
unfolding hydra_dns.Filtering.Parser.Found.is_fixed
parse-print_rule_example = parse-print_rule format_hosts (a_dot_b ∷ []) refl (a_dot_b-IsListed, tt)

-- A list that is served, and one whose server answers 404.
abbrev served : RemoteList
served = record {
  fetch = λ timeout. some (record { status_code = 200; body = commented_list; body_error = false });
  format = format_auto;
}

abbrev missing : RemoteList
missing = record {
  fetch = λ timeout. some (record { status_code = 404; body = commented_list; body_error = false });
  format = format_auto;
}

abbrev empty_engine : PolicyEngine
empty_engine = new_policy_engine (record {
  enabled = true;
  block_action = block;
  whitelist_domains = [];
  blacklist_domains = [];
  blocklist_urls = [];
  refresh_interval = hydra_dns.Base.Int.pos 0;
})

served_is_listed : any_listed (missing ∷ served ∷ []) a_dot_b ≡ true
unfolding any_listed scan_lines hydra_dns.Filtering.Policy.Rules.any_covers
    hydra_dns.Filtering.Parser.Found.rule_list parse_line hydra_dns.Filtering.Parser.line_text
    hydra_dns.Base.Text.trim_space hydra_dns.Base.Text.has_prefix list_format detect_format
    hydra_dns.Base.Text.contains_byte hydra_dns.Base.Text.cut_before
    hydra_dns.Filtering.Trie.normalize_domain hydra_dns.Dns.Name.trim_suffix_dot
    hydra_dns.Dns.Name.to_lower hydra_dns.Base.Text.split hydra_dns.Filtering.Trie.Domains.covers
    hydra_dns.Base.bytes_eq hydra_dns.Filtering.Trie.Marks.paths_eq
    hydra_dns.Filtering.Trie.reversed_labels
served_is_listed = refl

missing_is_not : any_listed (missing ∷ []) a_dot_b ≡ false
unfolding any_listed
missing_is_not = refl

evaluate-refresh-parsed_example :
    (evaluate a_dot_b (refresh (map parsed (missing ∷ served ∷ [])) empty_engine)).0.action ≡ (
      if empty_engine.enabled
        && (not (contains a_dot_b empty_engine.whitelist)
            && any_listed (missing ∷ served ∷ []) a_dot_b)
      then empty_engine.block_action
      else allow)
evaluate-refresh-parsed_example =
    evaluate-refresh-parsed (missing ∷ served ∷ []) a_dot_b empty_engine
