-- ===== src/Filtering/Parser/Blocking.antt =====
-- From the text of the lists to what a policy blocks.
use hydra_dns.Base.{
  ◌≡◌, refl, ◌∙◌, inl, inr, arith, [], ◌∷◌, List, Bool, true, false, not, ◌&&◌, ◌||◌, ◌==◌,
  if◌then◌else◌, Bytes, Option, none, some, Option-cases, map,
}
use hydra_dns.Base.Int.{ℤ}
use hydra_dns.Filtering.Trie.{DomainTrie, new_domain_trie, add, contains}
use hydra_dns.Filtering.Trie.Sized.{IsValid, TrieReachable, fresh, added, TrieReachable-IsValid}
use hydra_dns.Filtering.Policy.{allow, PolicyEngine, add_all, evaluate, refresh}
use hydra_dns.Filtering.Policy.Rules.{
  any_covers, any_contains, AreTrees, contains_new, contains-add_all, evaluate-refresh,
}
use hydra_dns.Filtering.Parser.{
  ListFormat, format_auto, Parser, new_parser, parse_lines, scan_lines, parse, HttpResponse,
  parse_url, url_timeout,
}
use hydra_dns.Filtering.Parser.Found.{rule_list, is_fixed, parse_lines_lem}
use hydra_dns.Filtering.Parser.Detected.{list_format, is_fixed-list_format, parse_lines-list_format}

-- The format in which the lines are read.
unfoldable pub resolved : ListFormat → List Bytes → ListFormat
resolved format_auto ls = list_format ls
resolved format ls = format

-- The domains that the lines of a list give.
unfoldable pub list_rules : ListFormat → Bytes → List Bytes
unfolding resolved
list_rules format content =
    let ls = (scan_lines [] content).0 in rule_list new_parser (resolved format ls) ls

parse_lines-resolved :
    (format : ListFormat) (ls : List Bytes) (t : DomainTrie)
    → parse_lines new_parser format ls t ≡ add_all (rule_list new_parser (resolved format ls) ls) t
unfolding resolved is_fixed
parse_lines-resolved format_auto ls t =
    parse_lines-list_format new_parser refl refl ls t
    ∙ parse_lines_lem new_parser (list_format ls) ls t (is_fixed-list_format ls)
parse_lines-resolved hydra_dns.Filtering.Parser.format_domains ls t =
    parse_lines_lem new_parser hydra_dns.Filtering.Parser.format_domains ls t refl
parse_lines-resolved hydra_dns.Filtering.Parser.format_hosts ls t =
    parse_lines_lem new_parser hydra_dns.Filtering.Parser.format_hosts ls t refl
parse_lines-resolved hydra_dns.Filtering.Parser.format_adblock ls t =
    parse_lines_lem new_parser hydra_dns.Filtering.Parser.format_adblock ls t refl

-- Parse gives the trie of the domains that its lines give, or an error.
pub parse_lem :
    (format : ListFormat) (content : Bytes) (read_error : Bool)
    → parse new_parser format content read_error ≡ (
        if (scan_lines [] content).1 || read_error
        then none
        else some (add_all (list_rules format content) new_domain_trie))
unfolding parse list_rules
parse_lem format content read_error =
    rw (parse_lines-resolved format (scan_lines [] content).0 new_domain_trie) refl

TrieReachable-add_all :
    (ds : List Bytes) (t : DomainTrie) → TrieReachable t → TrieReachable (add_all ds t)
unfolding add_all
TrieReachable-add_all [] t h = h
TrieReachable-add_all (d ∷ ds) t h = TrieReachable-add_all ds (add d true t) (added d true t h)

-- A trie that holds what the lines give: of the shape that Merge needs, and with their domains.
abbrev pub HoldsRules : List Bytes → DomainTrie → Type 0
HoldsRules rules t = IsValid t × ((d : Bytes) → contains d t ≡ any_covers rules d)

HoldsRules-add_all : (rules : List Bytes) → HoldsRules rules (add_all rules new_domain_trie)
HoldsRules-add_all rules = (
  TrieReachable-IsValid (add_all rules new_domain_trie)
      (TrieReachable-add_all rules new_domain_trie fresh),
  λ (d : Bytes). contains-add_all d rules new_domain_trie ∙ ground (arith, contains_new d),
)

-- The domains of a remote list, where it could be read: the response has status 200, and neither
-- the connection nor a line that fills the buffer ends it early.
unfoldable pub url_rules : (ℤ → Option HttpResponse) → ListFormat → Option (List Bytes)
unfolding list_rules
url_rules fetch format = elim (fetch (url_timeout new_parser.timeout)) [
  | none ↦ none
  | some resp ↦
      if resp.status_code == 200 && not ((scan_lines [] resp.body).1 || resp.body_error)
      then some (list_rules format resp.body)
      else none
]

-- The trie of the domains of a remote list.
unfoldable pub rules_trie : Option (List Bytes) → Option DomainTrie
rules_trie none = none
rules_trie (some rules) = some (add_all rules new_domain_trie)

parse_url-rules_trie :
    (fetch : ℤ → Option HttpResponse) (format : ListFormat)
    → parse_url fetch new_parser format ≡ rules_trie (url_rules fetch format)
unfolding parse_url url_rules rules_trie
parse_url-rules_trie fetch format = elim (Option-cases (fetch (url_timeout new_parser.timeout))) [
  | inl e ↦ rw (parse_url, url_rules, e) refl
  | inr (resp, e) ↦
      rw (parse_url, url_rules, e) (ground (arith, parse_lem format resp.body resp.body_error))
]

-- A remote list of the configuration: how it is fetched, and its format.
pub record RemoteList : Type 0 where
  pub fetch : ℤ → Option HttpResponse
  pub format : ListFormat

abbrev pub parsed : RemoteList → Option DomainTrie
parsed l = parse_url l.fetch new_parser l.format

-- Some list that could be read has a line whose domain, with its subdomains, covers the domain.
unfoldable pub any_listed : List RemoteList → Bytes → Bool
unfolding url_rules
any_listed [] d = false
any_listed (l ∷ ls) d = elim (url_rules l.fetch l.format) [
  | none ↦ any_listed ls d
  | some rules ↦ any_covers rules d || any_listed ls d
]

any_contains-parsed :
    (ls : List RemoteList) (d : Bytes) → any_contains (map parsed ls) d ≡ any_listed ls d
unfolding any_contains any_listed rules_trie
any_contains-parsed [] d = refl
any_contains-parsed (l ∷ ls) d = elim (Option-cases (url_rules l.fetch l.format)) [
  | inl e ↦ rw (parse_url-rules_trie l.fetch l.format, any_listed, e) (any_contains-parsed ls d)
  | inr (rules, e) ↦
      rw (parse_url-rules_trie l.fetch l.format, any_listed, e)
        (rw ((HoldsRules-add_all rules).1 d, any_contains-parsed ls d) refl)
]

AreTrees-parsed : (ls : List RemoteList) → AreTrees (map parsed ls)
unfolding rules_trie
AreTrees-parsed [] = tt
AreTrees-parsed (l ∷ ls) = elim (Option-cases (url_rules l.fetch l.format)) [
  | inl e ↦ rw (parse_url-rules_trie l.fetch l.format, e) (AreTrees-parsed ls)
  | inr (rules, e) ↦
      rw (parse_url-rules_trie l.fetch l.format, e)
        ((HoldsRules-add_all rules).0.tree, AreTrees-parsed ls)
]

-- After a refresh, an engine that is enabled takes the block action exactly on the domains that its
-- whitelist does not contain and that are covered by a line of some remote list that could be read:
-- a list whose request fails, whose status is not 200, or whose reading ends early counts for
-- nothing.
pub evaluate-refresh-parsed :
    (ls : List RemoteList) (d : Bytes) (pe : PolicyEngine)
    → (evaluate d (refresh (map parsed ls) pe)).0.action ≡ (
        if pe.enabled && (not (contains d pe.whitelist) && any_listed ls d)
        then pe.block_action
        else allow)
evaluate-refresh-parsed ls d pe =
    evaluate-refresh (map parsed ls) d pe (AreTrees-parsed ls) ∙ rw (any_contains-parsed ls d) refl
