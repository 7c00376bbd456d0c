-- ===== src/Filtering/DomainSet.antt =====
-- internal/filtering/trie.go: the set of domains with exact matching. A Go map whose values are
-- empty is the list of its keys.
use hydra_dns.Base.{ℕ, [], ◌∷◌, List, Bool, false, ◌||◌, if◌then◌else◌, length, Bytes, bytes_eq}
use hydra_dns.Filtering.Trie.{normalize_domain}

unfoldable pub has_member : Bytes → List Bytes → Bool
has_member x [] = false
has_member x (y ∷ ys) = bytes_eq y x || has_member x ys

unfoldable pub set_add : Bytes → List Bytes → List Bytes
unfolding has_member
set_add domain s = elim (normalize_domain domain) [
  | [] ↦ s
  | c ∷ cs ↦ if has_member (c ∷ cs) s then s else (c ∷ cs) ∷ s
]

unfoldable pub set_contains : Bytes → List Bytes → Bool
unfolding has_member
set_contains domain s = elim (normalize_domain domain) [
  | [] ↦ false
  | c ∷ cs ↦ has_member (c ∷ cs) s
]

unfoldable pub set_size : List Bytes → ℕ
set_size s = length s

unfoldable pub set_clear : List Bytes → List Bytes
set_clear s = []
