-- ===== src/Filtering/Trie/Removed.antt =====
-- Remove, by the marks: the nodes that it deletes had none.
use hydra_dns.Base.{
  ◌≡◌, inl, inr, refl, sym, ◌∙◌, arith, [], ◌∷◌, List, Bool, true, false, ◌&&◌, if◌then◌else◌,
  Option, none, some, Bytes, bytes_eq, bytes_eq_iff, Bool-cases, Option-cases,
}
use hydra_dns.Filtering.Trie.{
  Children, nil, child, TrieNode, get_child, put_child, delete_child, is_orphan, remove_labels,
}
use hydra_dns.Filtering.Trie.Marks.{
  no_marks, marks_at, below_marks, paths_eq, IsTree, get_child-delete_child, marks_at-cons,
  marks_at_put,
}
use hydra_dns.Filtering.Trie.Shape.{IsTree-put_child, IsTree-delete_child, IsTree-get_child}

orphan_parts :
    (cs : Children) (e w : Bool) (p : List Bytes)
    → is_orphan (record { children = cs; is_end = e; is_wild = w }) ≡ true
    → marks_at p (record { children = cs; is_end = e; is_wild = w }) ≡ no_marks
unfolding is_orphan marks_at get_child
orphan_parts nil false false [] h = refl
orphan_parts nil false false (l ∷ ls) h = refl
orphan_parts nil false true p h = cc
orphan_parts nil true w p h = cc
orphan_parts (child k cs e' w' rest) e w p h = cc

orphan_marks : (n : TrieNode) (p : List Bytes) → is_orphan n ≡ true → marks_at p n ≡ no_marks
orphan_marks n p h = orphan_parts n.children n.is_end n.is_wild p h

-- What Remove does below a node.
unfoldable pub Removes : List Bytes → TrieNode → Option (TrieNode × Bool) → Type 0
Removes q n none = (marks_at q n).0 ≡ false
Removes q n (some (n', going)) =
    ((marks_at q n).0 ≡ true)
    × IsTree n'.children
    × ((p : List Bytes) → marks_at p n' ≡ (if paths_eq q p then no_marks else marks_at p n))

module _ (l : Bytes) (ls : List Bytes) (n b b' : TrieNode) (going : Bool)
    (there : get_child l n.children ≡ some b) (tree : IsTree n.children)
    (removed : Removes ls b (some (b', going))) where
  -- The end mark, seen from the node above.
  marked_above : (marks_at (l ∷ ls) n).0 ≡ true
  unfolding below_marks Removes
  marked_above = rw (marks_at-cons l ls n, there) removed.0

  through :
      (ps : List Bytes)
      → marks_at ps b' ≡ (if paths_eq ls ps then no_marks else marks_at (l ∷ ps) n)
  unfolding below_marks Removes
  through ps = rw (marks_at-cons l ps n, there) (removed.2 ps)

  replaced_marks :
      (p : List Bytes)
      → marks_at p (record n { children = put_child l b' n.children })
        ≡ (if paths_eq (l ∷ ls) p then no_marks else marks_at p n)
  unfolding paths_eq
  replaced_marks [] = unfold marks_at in refl
  replaced_marks (x ∷ ps) = marks_at_put l x ps b' n ∙ elim (Bool-cases (bytes_eq l x)) [
    | inl s ↦ rw (s, ← (bytes_eq_iff l x).0 s) (through ps)
    | inr s ↦ rw s refl
  ]

  pub replaced :
      Removes (l ∷ ls) n (some (record n { children = put_child l b' n.children }, false))
  unfolding Removes
  replaced = (marked_above, IsTree-put_child l b' n.children tree removed.1, replaced_marks)

  deleted_marks :
      is_orphan b' ≡ true
      → (p : List Bytes)
      → marks_at p (record n { children = delete_child l n.children })
        ≡ (if paths_eq (l ∷ ls) p then no_marks else marks_at p n)
  unfolding paths_eq below_marks
  deleted_marks orphan [] = unfold marks_at in refl
  deleted_marks orphan (x ∷ ps) =
      marks_at-cons x ps (record n { children = delete_child l n.children })
      ∙ rw (get_child-delete_child x l n.children tree) (elim (Bool-cases (bytes_eq l x)) [
        | inl s ↦
            let gone = sym (orphan_marks b' ps orphan) ∙ through ps in
            rw (s, ← (bytes_eq_iff l x).0 s) gone
        | inr s ↦ rw s (sym (marks_at-cons x ps n))
      ])

  pub deleted :
      is_orphan b' ≡ true
      → Removes (l ∷ ls) n (some (record n { children = delete_child l n.children }, true))
  unfolding Removes
  deleted orphan = (marked_above, IsTree-delete_child l n.children tree, deleted_marks orphan)

not_marked_above :
    (l : Bytes) (ls : List Bytes) (n b : TrieNode)
    → get_child l n.children ≡ some b
    → Removes ls b none
    → Removes (l ∷ ls) n none
unfolding Removes below_marks
not_marked_above l ls n b there h = rw (marks_at-cons l ls n, there) h

no_child_above :
    (l : Bytes) (ls : List Bytes) (n : TrieNode)
    → get_child l n.children ≡ none
    → Removes (l ∷ ls) n none
unfolding Removes below_marks
no_child_above l ls n e = rw (marks_at-cons l ls n, e) refl

end_removed :
    (n : TrieNode) (p : List Bytes)
    → marks_at p (record n { is_end = false; is_wild = false })
      ≡ (if paths_eq [] p then no_marks else marks_at p n)
unfolding paths_eq marks_at
end_removed n [] = refl
end_removed n (x ∷ ps) = refl

Removes-here : (n : TrieNode) → IsTree n.children → Removes [] n (remove_labels [] n)
unfolding Removes remove_labels marks_at
Removes-here n h = elim (Bool-cases n.is_end) [
  | inl e ↦ rw (Removes, remove_labels, e) (e, h, end_removed n)
  | inr e ↦ rw (Removes, remove_labels, e) e
]

-- Remove answers whether its path had an end mark, and then takes the marks of that path and no
-- others.
pub Removes-remove_labels :
    (q : List Bytes) (n : TrieNode) → IsTree n.children → Removes q n (remove_labels q n)
unfolding remove_labels
Removes-remove_labels [] n h = Removes-here n h
Removes-remove_labels (l ∷ ls) n h = elim (Option-cases (get_child l n.children)) [
  | inl e ↦ rw (remove_labels, e) (no_child_above l ls n e)
  | inr (b, e) ↦
      let ih = Removes-remove_labels ls b (IsTree-get_child l n.children b h e) in
      elim (Option-cases (remove_labels ls b)) [
        | inl e' ↦ rw (remove_labels, e, e') (not_marked_above l ls n b e (rw e' at ih))
        | inr ((b', going), e') ↦
            let removed : Removes ls b (some (b', going)) = rw e' at ih in
            elim (Bool-cases (going && is_orphan b')) [
              | inl gone ↦
                  rw (remove_labels, e, e', gone)
                    (deleted l ls n b b' going e h removed (ground (arith, gone)))
              | inr stays ↦
                  rw (remove_labels, e, e', stays) (replaced l ls n b b' going e h removed)
            ]
      ]
]
