-- ===== src/Filtering/Trie/Sized.antt =====
-- Any sequence of calls keeps the trie in shape and its size right.
use hydra_dns.Base.{
  ℕ, ◌-◌, ◌≡◌, inl, inr, refl, sym, ◌∙◌, arith, [], ◌∷◌, List, Bool, true, false, ◌&&◌,
  if◌then◌else◌, none, some, Bytes, Bool-cases, Option-cases, List-cases,
}
use hydra_dns.Filtering.Trie.{TrieNode, remove_labels}
use hydra_dns.Filtering.Trie.Marks.{Marks, no_marks, marks_at, paths_eq, IsTree}
use hydra_dns.Filtering.Trie.{
  DomainTrie, add, remove, merge, clear, new_domain_trie, normalize_domain, reversed_labels,
}
use hydra_dns.Filtering.Trie.Shape.{IsTree-add_labels}
use hydra_dns.Filtering.Trie.Domains.{covers}
use hydra_dns.Filtering.Trie.Shape.{IsTree-merge_children}
use hydra_dns.Filtering.Trie.Removed.{Removes, Removes-remove_labels}
use hydra_dns.Filtering.Trie.Counted.{
  node_ends, count_ends, node_ends-add_labels, HasOneLess, HasOneLess-remove_labels,
  count_ends-merge_children,
}

pub record IsValid (t : DomainTrie) : Type 0 where
  pub tree : IsTree t.root.children
  pub counted : t.size ≡ node_ends t.root

pub add-IsValid :
    (d : Bytes) (wildcard : Bool) (t : DomainTrie) → IsValid t → IsValid (add d wildcard t)
unfolding add
add-IsValid d wildcard t v = elim (List-cases (normalize_domain d)) [
  | inl e ↦ rw (add, e) v
  | inr (c, cs, e) ↦
      rw (add, e)
        (record {
          tree = IsTree-add_labels (reversed_labels (c ∷ cs)) wildcard t.root v.tree;
          counted =
              ground
                (arith, v.counted, node_ends-add_labels (reversed_labels (c ∷ cs)) wildcard t.root);
        })
]

pub remove-IsValid : (d : Bytes) (t : DomainTrie) → IsValid t → IsValid (remove d t).1
unfolding remove
remove-IsValid d t v = elim (List-cases (normalize_domain d)) [
  | inl e ↦ rw (remove, e) v
  | inr (c, cs, e) ↦
      let path = reversed_labels (c ∷ cs) in
      elim (Option-cases (remove_labels path t.root)) [
        | inl none_there ↦ rw (remove, e, none_there) v
        | inr ((root, going), there) ↦
            let shape : Removes path t.root (some (root, going)) =
              rw there at (Removes-remove_labels path t.root v.tree) in
            let less : HasOneLess t.root (some (root, going)) =
              rw there at (HasOneLess-remove_labels path t.root) in
            rw (remove, e, there)
              (record {
                tree = unfold Removes in shape.1;
                counted = unfold HasOneLess in omega (arith, v.counted, less);
              })
      ]
]

pub merge-IsValid :
    (t other : DomainTrie) → IsValid t → IsTree other.root.children → IsValid (merge t other)
unfolding merge node_ends
merge-IsValid t other v tree = record {
  tree = IsTree-merge_children other.root.children t.root.children tree v.tree;
  counted = omega (arith, v.counted, count_ends-merge_children other.root.children t.root.children);
}

-- What any sequence of calls makes of a new trie.
pub data TrieReachable : DomainTrie → Type 0 where
  fresh : TrieReachable new_domain_trie
  added :
      (d : Bytes) (wildcard : Bool) (t : DomainTrie)
      → TrieReachable t
      → TrieReachable (add d wildcard t)
  removed : (d : Bytes) (t : DomainTrie) → TrieReachable t → TrieReachable (remove d t).1
  merged :
      (t other : DomainTrie) → TrieReachable t → TrieReachable other → TrieReachable (merge t other)
  cleared : (t : DomainTrie) → TrieReachable t → TrieReachable (clear t)

-- Whatever is called on a new trie, no label stands twice at a node, and the size is the number of
-- end marks.
pub TrieReachable-IsValid : (t : DomainTrie) → TrieReachable t → IsValid t
unfolding node_ends count_ends clear
TrieReachable-IsValid _ fresh = record { tree = tt; counted = refl }
TrieReachable-IsValid _ (added d wildcard t r) =
    add-IsValid d wildcard t (TrieReachable-IsValid t r)
TrieReachable-IsValid _ (removed d t r) = remove-IsValid d t (TrieReachable-IsValid t r)
TrieReachable-IsValid _ (merged t other r r') =
    merge-IsValid t other (TrieReachable-IsValid t r) (TrieReachable-IsValid other r').tree
TrieReachable-IsValid _ (cleared t r) = record { tree = tt; counted = refl }

-- The marks of a domain; none of the empty name.
unfoldable pub domain_marks : Bytes → DomainTrie → Marks
domain_marks d t = elim (normalize_domain d) [
  | [] ↦ no_marks
  | c ∷ cs ↦ marks_at (reversed_labels (c ∷ cs)) t.root
]

after_removal :
    (d d' : Bytes) (c : ℕ) (cs : Bytes)
    → normalize_domain d ≡ c ∷ cs
    → (t : DomainTrie) (root : TrieNode) (size : ℕ)
    → ((p : List Bytes)
        → marks_at p root
          ≡ (if paths_eq (reversed_labels (c ∷ cs)) p then no_marks else marks_at p t.root))
    → domain_marks d' (record { root = root; size = size })
      ≡ (if covers d false d' then no_marks else domain_marks d' t)
unfolding domain_marks covers
after_removal d d' c cs e t root size marks = elim (List-cases (normalize_domain d')) [
  | inl e' ↦ rw (domain_marks, covers, e, e') refl
  | inr (x, xs, e') ↦
      let p = reversed_labels (c ∷ cs) in
      let q = reversed_labels (x ∷ xs) in
      rw (domain_marks, covers, e, e')
        (marks q ∙ elim (Bool-cases (paths_eq p q)) [ inl s ↦ rw s refl | inr s ↦ rw s refl ])
]

-- Remove answers whether the domain had been added; if so, it takes its marks, and in any case no
-- others, whatever nodes it deletes.
pub domain_marks-remove :
    (d d' : Bytes) (t : DomainTrie)
    → IsTree t.root.children
    → ((remove d t).0 ≡ (domain_marks d t).0)
      × (domain_marks d' (remove d t).1
          ≡ (if (remove d t).0 && covers d false d' then no_marks else domain_marks d' t))
unfolding remove domain_marks covers Removes
domain_marks-remove d d' t tree = elim (List-cases (normalize_domain d)) [
  | inl e ↦
      let same : remove d t ≡ (false, t) = rw (remove, e) refl in
      let none_of_d : domain_marks d t ≡ no_marks = rw (domain_marks, e) refl in
      rw (same, none_of_d) (refl, refl)
  | inr (c, cs, e) ↦
      let path = reversed_labels (c ∷ cs) in
      elim (Option-cases (remove_labels path t.root)) [
        | inl none_there ↦
            let unmarked : Removes path t.root none =
              rw none_there at (Removes-remove_labels path t.root tree) in
            let same : remove d t ≡ (false, t) = rw (remove, e, none_there) refl in
            let of_d : domain_marks d t ≡ marks_at path t.root = rw (domain_marks, e) refl in
            rw (same, of_d) (sym unmarked, refl)
        | inr ((root, going), there) ↦
            let shape : Removes path t.root (some (root, going)) =
              rw there at (Removes-remove_labels path t.root tree) in
            let (marked, _, marks) = shape in
            let same : remove d t ≡ (true, record { root = root; size = t.size - 1 }) =
              rw (remove, e, there) refl in
            let of_d : domain_marks d t ≡ marks_at path t.root = rw (domain_marks, e) refl in
            rw (same, of_d) (sym marked, after_removal d d' c cs e t root (t.size - 1) marks)
      ]
]
