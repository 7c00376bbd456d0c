-- ===== src/Filtering/Trie/Shape.antt =====
-- No label stands twice at a node, whatever is put or deleted.
use hydra_dns.Base.{
  ◌≡◌, inl, inr, refl, arith, [], ◌∷◌, List, Bool, false, ◌||◌, none, some, Bytes, bytes_eq,
  bytes_eq_iff, Bool-cases, Option-cases,
}
use hydra_dns.Filtering.Trie.{
  Children, nil, child, TrieNode, get_child, put_child, delete_child, child_or_new, add_labels,
  merge_children,
}
use hydra_dns.Filtering.Trie.Marks.{IsTree, bytes_eq_refl, get_child-put_child}

pub IsTree-put_child :
    (l : Bytes) (b : TrieNode) (cs : Children)
    → IsTree cs
    → IsTree b.children
    → IsTree (put_child l b cs)
unfolding put_child get_child
IsTree-put_child l b nil h k = (k, refl, tt)
IsTree-put_child l b (child x cs e w rest) (below, once, later) k =
    elim (Bool-cases (bytes_eq x l)) [
      | inl s ↦ rw s (k, once, later)
      | inr s ↦
          let other : bytes_eq l x ≡ false =
            ground (arith, s, bytes_eq_iff x l, bytes_eq_iff l x, bytes_eq_refl x) in
          let absent : get_child x (put_child l b rest) ≡ none =
            rw (get_child-put_child x l b rest, other) once in
          rw s (below, absent, IsTree-put_child l b rest later k)
    ]

get_child-delete_child-none :
    (p l : Bytes) (cs : Children) → get_child p cs ≡ none → get_child p (delete_child l cs) ≡ none
unfolding get_child delete_child
get_child-delete_child-none p l nil h = refl
get_child-delete_child-none p l (child x cs e w rest) h = elim (Bool-cases (bytes_eq x p)) [
  | inl s ↦ ground (arith, s, h)
  | inr s ↦
      let later : get_child p rest ≡ none = ground (arith, s, h) in
      elim (Bool-cases (bytes_eq x l)) [
        | inl t ↦ rw t later
        | inr t ↦ rw (t, s) (get_child-delete_child-none p l rest later)
      ]
]

pub IsTree-delete_child : (l : Bytes) (cs : Children) → IsTree cs → IsTree (delete_child l cs)
unfolding delete_child
IsTree-delete_child l nil h = tt
IsTree-delete_child l (child x cs e w rest) (below, once, later) =
    elim (Bool-cases (bytes_eq x l)) [
      | inl s ↦ rw s later
      | inr s ↦
          rw s (below, get_child-delete_child-none x l rest once, IsTree-delete_child l rest later)
    ]

pub IsTree-get_child :
    (l : Bytes) (cs : Children) (b : TrieNode)
    → IsTree cs
    → get_child l cs ≡ some b
    → IsTree b.children
unfolding get_child
IsTree-get_child l nil b h e = ground (arith, e)
IsTree-get_child l (child x cs e w rest) b (below, once, later) h =
    elim (Bool-cases (bytes_eq x l)) [
      | inl s ↦
          let same : record { children = cs; is_end = e; is_wild = w } ≡ b =
            ground (arith, rw s at h) in
          rw (← same) below
      | inr s ↦ IsTree-get_child l rest b later (rw s at h)
    ]

pub IsTree-child_or_new :
    (l : Bytes) (cs : Children) → IsTree cs → IsTree (child_or_new l cs).children
unfolding child_or_new
IsTree-child_or_new l cs h = elim (Option-cases (get_child l cs)) [
  | inl e ↦ rw (child_or_new, e) tt
  | inr (b, e) ↦ rw (child_or_new, e) (IsTree-get_child l cs b h e)
]

pub IsTree-add_labels :
    (q : List Bytes) (wildcard : Bool) (n : TrieNode)
    → IsTree n.children
    → IsTree (add_labels q wildcard n).0.children
unfolding add_labels
IsTree-add_labels [] wildcard n h = h
IsTree-add_labels (l ∷ ls) wildcard n h =
    IsTree-put_child l (add_labels ls wildcard (child_or_new l n.children)).0 n.children h (
      IsTree-add_labels ls wildcard (child_or_new l n.children)
        (IsTree-child_or_new l n.children h))

pub IsTree-merge_children :
    (src dst : Children) → IsTree src → IsTree dst → IsTree (merge_children src dst).0
unfolding merge_children
IsTree-merge_children nil dst h k = k
IsTree-merge_children (child l cs e w rest) dst (tree, once, later) k =
    let old = child_or_new l dst in
    let inner = IsTree-merge_children cs old.children tree (IsTree-child_or_new l dst k) in
    let below : TrieNode = record {
      children = (merge_children cs old.children).0;
      is_end = old.is_end || e;
      is_wild = old.is_wild || w;
    } in
    IsTree-merge_children rest (put_child l below dst) later (IsTree-put_child l below dst k inner)
