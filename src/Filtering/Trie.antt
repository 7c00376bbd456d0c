-- ===== src/Filtering/Trie.antt =====
-- internal/filtering/trie.go: domains by their labels, the last label at the root. A node's map of
-- children is a list of labels with the parts of their nodes; text is ASCII.
pub mod Marks
pub mod Shape
pub mod Added
pub mod Removed
pub mod Merged
pub mod Counted
pub mod Covered
pub mod Domains
pub mod Sized
use hydra_dns.Base.{
  ℕ, zero, suc, ◌+◌, ◌-◌, [], ◌∷◌, List, Bool, true, false, not, ◌&&◌, ◌||◌, ◌==◌, if◌then◌else◌,
  Option, none, some, Bytes, bytes_eq,
}
use mathlib.Core.List.{reverse}
use hydra_dns.Base.Text.{trim_space, split}
use hydra_dns.Dns.Name.{to_lower, trim_suffix_dot}

-- Each entry is a label and the node under it: its children, isEnd and isWild.
pub data Children : Type 0 where
  nil : Children
  child : Bytes → Children → Bool → Bool → Children → Children

pub record TrieNode : Type 0 where
  pub children : Children
  pub is_end : Bool
  pub is_wild : Bool

pub record DomainTrie : Type 0 where
  pub root : TrieNode
  pub size : ℕ

abbrev pub new_trie_node : TrieNode
new_trie_node = record { children = nil; is_end = false; is_wild = false }

abbrev pub new_domain_trie : DomainTrie
new_domain_trie = record { root = new_trie_node; size = 0 }

-- `children[label]`
unfoldable pub get_child : Bytes → Children → Option TrieNode
get_child l nil = none
get_child l (child k cs e w rest) =
    let later = get_child l rest in
    if bytes_eq k l then some (record { children = cs; is_end = e; is_wild = w }) else later

-- `children[label] = node`
unfoldable pub put_child : Bytes → TrieNode → Children → Children
put_child l n nil = child l n.children n.is_end n.is_wild nil
put_child l n (child k cs e w rest) =
    let later = child k cs e w (put_child l n rest) in
    if bytes_eq k l then child k n.children n.is_end n.is_wild rest else later

-- `delete(children, label)`
unfoldable pub delete_child : Bytes → Children → Children
delete_child l nil = nil
delete_child l (child k cs e w rest) =
    let later = child k cs e w (delete_child l rest) in if bytes_eq k l then rest else later

-- The child, or the new node that Add and Merge put in its place.
unfoldable pub child_or_new : Bytes → Children → TrieNode
unfolding get_child
child_or_new l cs = elim (get_child l cs) [ some n ↦ n | none ↦ new_trie_node ]

unfoldable pub normalize_domain : Bytes → Bytes
normalize_domain domain = trim_suffix_dot (to_lower (trim_space domain))

unfoldable pub reversed_labels : Bytes → List Bytes
reversed_labels domain = reverse (split b'.' domain)

-- The loop of Add below a node. With it comes whether the last node had no end mark before.
unfoldable pub add_labels : List Bytes → Bool → TrieNode → TrieNode × Bool
add_labels [] wildcard n =
    (record n { is_end = true; is_wild = n.is_wild || wildcard }, not n.is_end)
add_labels (l ∷ ls) wildcard n =
    let (below, fresh) = add_labels ls wildcard (child_or_new l n.children) in
    (record n { children = put_child l below n.children }, fresh)

unfoldable pub add : Bytes → Bool → DomainTrie → DomainTrie
add domain wildcard t = elim (normalize_domain domain) [
  | [] ↦ t
  | c ∷ cs ↦
      let (root, fresh) = add_labels (reversed_labels (c ∷ cs)) wildcard t.root in
      record { root = root; size = if fresh then suc t.size else t.size }
]

-- The loop of Contains below a node.
unfoldable pub contains_labels : List Bytes → TrieNode → Bool
contains_labels [] n = n.is_end
contains_labels (l ∷ ls) n = elim (get_child l n.children) [
  | none ↦ false
  | some below ↦
      let rest = contains_labels ls below in
      if below.is_wild && (elim ls [ [] ↦ false | x ∷ xs ↦ true ]) then true else rest
]

unfoldable pub contains : Bytes → DomainTrie → Bool
contains domain t = elim (normalize_domain domain) [
  | [] ↦ false
  | c ∷ cs ↦ contains_labels (reversed_labels (c ∷ cs)) t.root
]

unfoldable pub is_orphan : TrieNode → Bool
is_orphan n =
    (elim n.children [ nil ↦ true | child k cs e w rest ↦ false ])
    && (not n.is_end && not n.is_wild)

-- Remove below a node: `none` where it answers false. With the node comes whether the cleanup,
-- which runs from the last label back, has not met its `break`.
unfoldable pub remove_labels : List Bytes → TrieNode → Option (TrieNode × Bool)
remove_labels [] n =
    if n.is_end then some (record n { is_end = false; is_wild = false }, true) else none
remove_labels (l ∷ ls) n = elim (get_child l n.children) [
  | none ↦ none
  | some below ↦ elim (remove_labels ls below) [
    | none ↦ none
    | some (below', going) ↦
        if going && is_orphan below'
        then some (record n { children = delete_child l n.children }, true)
        else some (record n { children = put_child l below' n.children }, false)
  ]
]

unfoldable pub remove : Bytes → DomainTrie → Bool × DomainTrie
remove domain t = elim (normalize_domain domain) [
  | [] ↦ (false, t)
  | c ∷ cs ↦ elim (remove_labels (reversed_labels (c ∷ cs)) t.root) [
    | none ↦ (false, t)
    | some (root, going) ↦ (true, record { root = root; size = t.size - 1 })
  ]
]

unfoldable pub clear : DomainTrie → DomainTrie
clear t = new_domain_trie

-- mergeNode: the children of the other trie, and how many end marks are new.
unfoldable pub merge_children : Children → Children → Children × ℕ
merge_children nil dst = (dst, 0)
merge_children (child l cs e w rest) dst =
    let old = child_or_new l dst in
    let (below, inner) = merge_children cs old.children in
    let merged : TrieNode = record {
      children = below;
      is_end = old.is_end || e;
      is_wild = old.is_wild || w;
    } in
    let (dst', others) = merge_children rest (put_child l merged dst) in
    (dst', (if e && not old.is_end then 1 else 0) + inner + others)

unfoldable pub merge : DomainTrie → DomainTrie → DomainTrie
merge t other =
    let (children, fresh) = merge_children other.root.children t.root.children in
    record { root = record t.root { children = children }; size = t.size + fresh }
