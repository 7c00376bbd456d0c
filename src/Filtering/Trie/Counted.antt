-- ===== src/Filtering/Trie/Counted.antt =====
-- The size of a trie is the number of its end marks.
use hydra_dns.Base.{
  ℕ, suc, ◌+◌, ◌≡◌, inl, inr, refl, ap, arith, [], ◌∷◌, List, Bool, true, false, ◌&&◌, ◌||◌, Option,
  none, some, Bytes, bytes_eq, Bool-cases, Option-cases,
}
use hydra_dns.Filtering.Trie.{
  Children, nil, child, TrieNode, get_child, put_child, delete_child, child_or_new, add_labels,
  is_orphan, remove_labels, merge_children,
}

abbrev one_if : Bool → ℕ
one_if true = 1
one_if false = 0

unfoldable pub count_ends : Children → ℕ
count_ends nil = 0
count_ends (child k cs e w rest) = one_if e + count_ends cs + count_ends rest

unfoldable pub node_ends : TrieNode → ℕ
unfolding count_ends
node_ends n = one_if n.is_end + count_ends n.children

count_ends-put_child :
    (l : Bytes) (b : TrieNode) (cs : Children)
    → count_ends (put_child l b cs) + node_ends (child_or_new l cs) ≡ count_ends cs + node_ends b
unfolding put_child child_or_new get_child count_ends node_ends
count_ends-put_child l b nil = omega arith
count_ends-put_child l b (child k cs e w rest) = elim (Bool-cases (bytes_eq k l)) [
  | inl s ↦ rw (child_or_new, s) (omega arith)
  | inr s ↦ rw (child_or_new, s) (omega (arith, count_ends-put_child l b rest))
]

count_ends-delete_child :
    (l : Bytes) (b : TrieNode) (cs : Children)
    → get_child l cs ≡ some b
    → count_ends (delete_child l cs) + node_ends b ≡ count_ends cs
unfolding delete_child get_child count_ends node_ends
count_ends-delete_child l b nil h = cc
count_ends-delete_child l b (child k cs e w rest) h = elim (Bool-cases (bytes_eq k l)) [
  | inl s ↦
      let same : record { children = cs; is_end = e; is_wild = w } ≡ b =
        ground (arith, rw s at h) in
      rw (s, ← same) (omega arith)
  | inr s ↦ rw s (omega (arith, count_ends-delete_child l b rest (rw s at h)))
]

pub node_ends-add_labels :
    (q : List Bytes) (wildcard : Bool) (n : TrieNode)
    → node_ends (add_labels q wildcard n).0 ≡ node_ends n + one_if (add_labels q wildcard n).1
unfolding add_labels node_ends
node_ends-add_labels [] wildcard n = ground arith
node_ends-add_labels (l ∷ ls) wildcard n = omega (
  arith,
  count_ends-put_child l (add_labels ls wildcard (child_or_new l n.children)).0 n.children,
  node_ends-add_labels ls wildcard (child_or_new l n.children),
)

orphan_ends : (n : TrieNode) → is_orphan n ≡ true → node_ends n ≡ 0
orphan_ends n h = parts n.children n.is_end n.is_wild h
  where
    parts :
        (cs : Children) (e w : Bool)
        → is_orphan (record { children = cs; is_end = e; is_wild = w }) ≡ true
        → node_ends (record { children = cs; is_end = e; is_wild = w }) ≡ 0
    parts nil false w h = unfold node_ends count_ends in refl
    parts nil true w h = unfold is_orphan in cc
    parts (child k cs e' w' rest) e w h = unfold is_orphan in cc

-- Remove takes one end mark away where it answers true.
unfoldable pub HasOneLess : TrieNode → Option (TrieNode × Bool) → Type 0
HasOneLess n none = Unit {0}
HasOneLess n (some (n', going)) = suc (node_ends n') ≡ node_ends n

HasOneLess-put :
    (l : Bytes) (n b b' : TrieNode) (going : Bool)
    → get_child l n.children ≡ some b
    → HasOneLess b (some (b', going))
    → HasOneLess n (some (record n { children = put_child l b' n.children }, false))
unfolding HasOneLess node_ends child_or_new
HasOneLess-put l n b b' going there h =
    let old : child_or_new l n.children ≡ b = rw (child_or_new, there) refl in
    omega (arith, h, count_ends-put_child l b' n.children, ap node_ends old)

HasOneLess-delete :
    (l : Bytes) (n b b' : TrieNode) (going : Bool)
    → get_child l n.children ≡ some b
    → is_orphan b' ≡ true
    → HasOneLess b (some (b', going))
    → HasOneLess n (some (record n { children = delete_child l n.children }, true))
unfolding HasOneLess node_ends
HasOneLess-delete l n b b' going there orphan h =
    omega (arith, h, orphan_ends b' orphan, count_ends-delete_child l b n.children there)

pub HasOneLess-remove_labels : (q : List Bytes) (n : TrieNode) → HasOneLess n (remove_labels q n)
unfolding remove_labels
HasOneLess-remove_labels [] n = elim (Bool-cases n.is_end) [
  | inl e ↦ rw (remove_labels, e) (unfold HasOneLess node_ends in ground (arith, e))
  | inr e ↦ rw (remove_labels, e) (unfold HasOneLess in tt)
]
HasOneLess-remove_labels (l ∷ ls) n = elim (Option-cases (get_child l n.children)) [
  | inl e ↦ rw (remove_labels, e) (unfold HasOneLess in tt)
  | inr (b, e) ↦
      let ih = HasOneLess-remove_labels ls b in
      elim (Option-cases (remove_labels ls b)) [
        | inl e' ↦ rw (remove_labels, e, e') (unfold HasOneLess in tt)
        | inr ((b', going), e') ↦
            let less : HasOneLess b (some (b', going)) = rw e' at ih in
            elim (Bool-cases (going && is_orphan b')) [
              | inl gone ↦
                  rw (remove_labels, e, e', gone)
                    (HasOneLess-delete l n b b' going e (ground (arith, gone)) less)
              | inr stays ↦ rw (remove_labels, e, e', stays) (HasOneLess-put l n b b' going e less)
            ]
      ]
]

pub count_ends-merge_children :
    (src dst : Children)
    → count_ends (merge_children src dst).0 ≡ count_ends dst + (merge_children src dst).1
unfolding merge_children count_ends node_ends
count_ends-merge_children nil dst = omega arith
count_ends-merge_children (child k cs e w rest) dst =
    let old = child_or_new k dst in
    let merged : TrieNode = record {
      children = (merge_children cs old.children).0;
      is_end = old.is_end || e;
      is_wild = old.is_wild || w;
    } in
    ground (
      arith,
      count_ends-merge_children cs old.children,
      count_ends-merge_children rest (put_child k merged dst),
      count_ends-put_child k merged dst,
    )
