-- ===== src/Filtering/Trie/Added.antt =====
-- Add and Contains, by the marks.
use hydra_dns.Base.{
  ◌≡◌, inl, inr, refl, sym, ◌∙◌, arith, [], ◌∷◌, List, Bool, true, false, ◌&&◌, ◌||◌, if◌then◌else◌,
  Bytes, bytes_eq, bytes_eq_iff, Bool-cases, Option-cases,
}
use hydra_dns.Filtering.Trie.{TrieNode, get_child, child_or_new, add_labels, contains_labels}
use hydra_dns.Filtering.Trie.Marks.{
  Marks, no_marks, marks_at, paths_eq, marks_at-child_or_new, marks_at_put,
}

-- Add sets the end mark at its path, and the wildcard mark if it is asked to, and no other mark.
pub marks_at-add_labels :
    (p q : List Bytes) (wildcard : Bool) (n : TrieNode)
    → marks_at p (add_labels q wildcard n).0
      ≡ (if paths_eq q p then (true, (marks_at q n).1 || wildcard) else marks_at p n)
unfolding add_labels paths_eq
marks_at-add_labels [] [] wildcard n = unfold marks_at in refl
marks_at-add_labels (p ∷ ps) [] wildcard n = unfold marks_at in refl
marks_at-add_labels [] (q ∷ qs) wildcard n = unfold marks_at in refl
marks_at-add_labels (p ∷ ps) (q ∷ qs) wildcard n =
    let below = (add_labels qs wildcard (child_or_new q n.children)).0 in
    marks_at_put q p ps below n ∙ elim (Bool-cases (bytes_eq q p)) [
      | inl s ↦
          rw
            (
              s,
              marks_at-add_labels ps qs wildcard (child_or_new q n.children),
              (bytes_eq_iff q p).0 s,
              marks_at-child_or_new qs p n,
              marks_at-child_or_new ps p n,
            )
            refl
      | inr s ↦ rw s refl
    ]

-- What the marks say of a path: it ends a domain, or a part of it from the root is a wildcard.
unfoldable pub is_covered : (List Bytes → Marks) → List Bytes → Bool
is_covered marks [] = (marks []).0
is_covered marks (l ∷ ls) =
    ((marks (l ∷ [])).1 && (elim ls [ [] ↦ false | x ∷ xs ↦ true ]))
    || is_covered (λ p. marks (l ∷ p)) ls

is_covered_none : (ls : List Bytes) → is_covered (λ p. no_marks) ls ≡ false
unfolding is_covered
is_covered_none [] = refl
is_covered_none (l ∷ ls) = is_covered_none ls

-- Contains reads off the marks.
pub contains_labels_marks :
    (ls : List Bytes) (n : TrieNode) → contains_labels ls n ≡ is_covered (λ p. marks_at p n) ls
unfolding contains_labels is_covered marks_at
contains_labels_marks [] n = refl
contains_labels_marks (l ∷ ls) n = elim (Option-cases (get_child l n.children)) [
  | inl e ↦ rw (contains_labels, is_covered, marks_at, e) (sym (is_covered_none ls))
  | inr (b, e) ↦
      rw (contains_labels, is_covered, marks_at, e, contains_labels_marks ls b) (ground arith)
]
