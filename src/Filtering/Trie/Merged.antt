-- ===== src/Filtering/Trie/Merged.antt =====
-- Merge, by the marks.
use hydra_dns.Base.{
  ◌≡◌, inl, inr, refl, sym, ◌∙◌, [], ◌∷◌, List, Bool, true, false, ◌||◌, if◌then◌else◌, Bytes,
  bytes_eq, bytes_eq_iff, Bool-cases,
}
use hydra_dns.Filtering.Trie.{
  Children, nil, child, TrieNode, get_child, put_child, child_or_new, merge_children,
}
use hydra_dns.Filtering.Trie.Marks.{
  Marks, no_marks, marks_at, below_marks, IsTree, marks_at_new, marks_at-cons,
  marks_at-child_or_new, marks_at_put,
}

-- The marks of two tries together.
infixl 55 ◌∪◌
abbrev pub ◌∪◌ : Marks → Marks → Marks
a ∪ b = (a.0 || b.0, a.1 || b.1)

∪_none : (a : Marks) → a ∪ no_marks ≡ a
∪_none (false, false) = refl
∪_none (false, true) = refl
∪_none (true, false) = refl
∪_none (true, true) = refl

-- A node without marks of its own.
abbrev pub under : Children → TrieNode
under cs = record { children = cs; is_end = false; is_wild = false }

marks_under :
    (l : Bytes) (ps : List Bytes) (n : TrieNode)
    → marks_at (l ∷ ps) n ≡ marks_at (l ∷ ps) (under n.children)
unfolding marks_at
marks_under l ps n = refl

-- A child of the merged node has the marks of both children.
merged_node :
    (old : TrieNode) (below cs : Children) (e w : Bool)
    → ((x : Bytes) (xs : List Bytes)
        → marks_at (x ∷ xs) (under below)
          ≡ marks_at (x ∷ xs) (under old.children) ∪ marks_at (x ∷ xs) (under cs))
    → (ps : List Bytes)
    → marks_at ps
        (record { children = below; is_end = old.is_end || e; is_wild = old.is_wild || w })
      ≡ marks_at ps old ∪ marks_at ps (record { children = cs; is_end = e; is_wild = w })
merged_node old below cs e w h [] = unfold marks_at in refl
merged_node old below cs e w h (x ∷ xs) =
    marks_under x xs _
    ∙ h x xs
    ∙ rw
        (marks_under x xs old, marks_under x xs (record { children = cs; is_end = e; is_wild = w }))
        refl

marks_at_child :
    (l k : Bytes) (ps : List Bytes) (cs : Children) (e w : Bool) (rest : Children)
    → marks_at (l ∷ ps) (under (child k cs e w rest)) ≡ (
        if bytes_eq k l
        then marks_at ps (record { children = cs; is_end = e; is_wild = w })
        else marks_at (l ∷ ps) (under rest))
unfolding get_child marks_at
marks_at_child l k ps cs e w rest = elim (Bool-cases (bytes_eq k l)) [
  | inl s ↦ rw (marks_at, s) refl
  | inr s ↦ rw (marks_at, s) refl
]

-- Merge unites the marks of every path below the root.
pub marks_at-merge_children :
    (src dst : Children)
    → IsTree src
    → (l : Bytes) (ps : List Bytes)
    → marks_at (l ∷ ps) (under (merge_children src dst).0)
      ≡ marks_at (l ∷ ps) (under dst) ∪ marks_at (l ∷ ps) (under src)
unfolding merge_children
marks_at-merge_children nil dst h l ps =
    let none_there : marks_at (l ∷ ps) (under nil) ≡ no_marks = marks_at_new (l ∷ ps) in
    rw none_there (sym (∪_none (marks_at (l ∷ ps) (under dst))))
marks_at-merge_children (child k cs e w rest) dst (tree, once, later) l ps =
    let old = child_or_new k dst in
    let inner = marks_at-merge_children cs old.children tree in
    let merged : TrieNode = record {
      children = (merge_children cs old.children).0;
      is_end = old.is_end || e;
      is_wild = old.is_wild || w;
    } in
    let rest_merged = marks_at-merge_children rest (put_child k merged dst) later l ps in
    let below = merged_node old merged.children cs e w inner ps in
    let put = marks_at_put k l ps merged (under dst) in
    let src = marks_at_child l k ps cs e w rest in
    elim (Bool-cases (bytes_eq k l)) [
      | inr s ↦ rest_merged ∙ rw (put, src, s) refl
      | inl s ↦
          let same = (bytes_eq_iff k l).0 s in
          let gone : marks_at (l ∷ ps) (under rest) ≡ no_marks =
            marks_at-cons l ps (under rest) ∙ rw (← same, once) (unfold below_marks in refl) in
          let before : marks_at ps old ≡ marks_at (l ∷ ps) (under dst) =
            marks_at-child_or_new ps k (under dst) ∙ rw same refl in
          rest_merged ∙ rw (gone, put, src, s, ∪_none (marks_at ps merged), below, before) refl
    ]
