-- ===== src/Filtering/Trie/Domains.antt =====
-- The trie as a set of domains: what Add, Remove and Merge do to what Contains answers.
use mathlib.Core.Path.{fun_ext}
use hydra_dns.Base.{
  ℕ, ◌≡◌, inl, inr, refl, arith, [], ◌∷◌, List, Bool, false, ◌&&◌, ◌||◌, Bytes, List-cases,
  append_one,
}
use hydra_dns.Filtering.Trie.{add_labels}
use hydra_dns.Filtering.Trie.Marks.{marks_at, paths_eq, IsTree}
use mathlib.Core.List.{reverse, reverse-cons}
use hydra_dns.Base.Text.{split, split_from_some}
use hydra_dns.Filtering.Trie.{DomainTrie, add, contains, merge, normalize_domain, reversed_labels}
use hydra_dns.Filtering.Trie.Added.{is_covered, marks_at-add_labels, contains_labels_marks}
use hydra_dns.Filtering.Trie.Merged.{marks_at-merge_children}
use hydra_dns.Filtering.Trie.Covered.{
  is_strict_prefix, updated, is_covered-updated, is_covered-below,
}

reversed_labels_some : (d : Bytes) → (a : Bytes) × (q : List Bytes) × (reversed_labels d ≡ a ∷ q)
unfolding reversed_labels split
reversed_labels_some d =
    let (x, xs, e) = split_from_some b'.' [] d in
    let (a, q, e') = append_one (reverse xs) x in (a, q, rw (e, reverse-cons) e')

-- The rule for one domain: it covers itself, and with a wildcard its subdomains.
unfoldable pub covers : Bytes → Bool → Bytes → Bool
unfolding normalize_domain
covers rule wildcard domain = elim (normalize_domain rule) [
  | [] ↦ false
  | c ∷ cs ↦ elim (normalize_domain domain) [
    | [] ↦ false
    | x ∷ xs ↦
        let r = reversed_labels (c ∷ cs) in
        let d = reversed_labels (x ∷ xs) in paths_eq r d || (wildcard && is_strict_prefix r d)
  ]
]

-- Contains on a domain that is not empty.
contains_marks :
    (d : Bytes) (c : ℕ) (cs : Bytes) (t : DomainTrie)
    → normalize_domain d ≡ c ∷ cs
    → contains d t ≡ is_covered (λ p. marks_at p t.root) (reversed_labels (c ∷ cs))
unfolding contains
contains_marks d c cs t e =
    rw (contains, e) (contains_labels_marks (reversed_labels (c ∷ cs)) t.root)

contains_empty : (d : Bytes) (t : DomainTrie) → normalize_domain d ≡ [] → contains d t ≡ false
unfolding contains
contains_empty d t e = rw (contains, e) refl

-- After Add, a trie contains what it contained and what the added rule covers: the domain, and with
-- a wildcard its subdomains.
pub contains-add :
    (d rule : Bytes) (wildcard : Bool) (t : DomainTrie)
    → contains d (add rule wildcard t) ≡ (contains d t || covers rule wildcard d)
unfolding add covers
contains-add d rule wildcard t = elim (List-cases (normalize_domain d)) [
  | inl none_d ↦ elim (List-cases (normalize_domain rule)) [
    | inl e ↦
        rw (contains_empty d t none_d, contains_empty d (add rule wildcard t) none_d, covers, e)
          refl
    | inr (c, cs, e) ↦
        rw
          (
            contains_empty d t none_d,
            contains_empty d (add rule wildcard t) none_d,
            covers,
            e,
            none_d,
          )
          refl
  ]
  | inr (x, xs, e) ↦ elim (List-cases (normalize_domain rule)) [
    | inl none_r ↦ rw (add, covers, none_r) (ground arith)
    | inr (c, cs, e') ↦
        let (a, q, labels) = reversed_labels_some (c ∷ cs) in
        let path = reversed_labels (x ∷ xs) in
        let after : (λ p. marks_at p (add_labels (a ∷ q) wildcard t.root).0)
            ≡ updated (λ p. marks_at p t.root) (a ∷ q) wildcard =
          fun_ext λ p. marks_at-add_labels p (a ∷ q) wildcard t.root in
        rw
          (
            contains_marks d x xs t e,
            contains_marks d x xs (add rule wildcard t) e,
            add,
            covers,
            e',
            e,
            labels,
            after,
          )
          (is_covered-updated q path a (λ p. marks_at p t.root) wildcard)
  ]
]

-- After Merge, a trie contains what either of the two contained.
pub contains-merge :
    (d : Bytes) (t other : DomainTrie)
    → IsTree other.root.children
    → contains d (merge t other) ≡ (contains d t || contains d other)
unfolding merge marks_at
contains-merge d t other tree = elim (List-cases (normalize_domain d)) [
  | inl e ↦
      rw (contains_empty d t e, contains_empty d other e, contains_empty d (merge t other) e) refl
  | inr (x, xs, e) ↦
      let (a, q, labels) = reversed_labels_some (x ∷ xs) in
      let after = marks_at-merge_children other.root.children t.root.children tree a in
      rw
        (
          contains_marks d x xs t e,
          contains_marks d x xs other e,
          contains_marks d x xs (merge t other) e,
          labels,
        )
        (is_covered-below a q (λ p. marks_at p (merge t other).root) (λ p. marks_at p t.root)
          (λ p. marks_at p other.root) after)
]
