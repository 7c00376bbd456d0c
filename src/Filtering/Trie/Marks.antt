-- ===== src/Filtering/Trie/Marks.antt =====
-- The trie as a table of marks: for each path of labels, whether it ends a domain and whether it is
-- a wildcard.
use hydra_dns.Base.{
  ◌≡◌, inl, inr, refl, sym, arith, [], ◌∷◌, List, Bool, true, false, ◌&&◌, if◌then◌else◌, Option,
  none, some, Bytes, bytes_eq, bytes_eq_iff, Bool-cases, Option-cases,
}
use hydra_dns.Filtering.Trie.{
  Children, nil, child, TrieNode, new_trie_node, get_child, put_child, delete_child, child_or_new,
}

-- (isEnd, isWild)
abbrev pub Marks : Type 0
Marks = Bool × Bool

abbrev pub no_marks : Marks
no_marks = (false, false)

unfoldable pub marks_at : List Bytes → TrieNode → Marks
unfolding get_child
marks_at [] n = (n.is_end, n.is_wild)
marks_at (l ∷ ls) n = elim (get_child l n.children) [
  | none ↦ no_marks
  | some below ↦ marks_at ls below
]

unfoldable pub paths_eq : List Bytes → List Bytes → Bool
paths_eq [] [] = true
paths_eq (x ∷ xs) (y ∷ ys) = bytes_eq x y && paths_eq xs ys
paths_eq _ _ = false

-- No label twice, at any node.
abbrev pub IsTree : Children → Type 0
IsTree nil = Unit {0}
IsTree (child l cs e w rest) = IsTree cs × (get_child l rest ≡ none) × IsTree rest

pub bytes_eq_refl : (x : Bytes) → bytes_eq x x ≡ true
bytes_eq_refl x = (bytes_eq_iff x x).1 refl

-- The map's laws.
pub get_child-put_child :
    (p l : Bytes) (n : TrieNode) (cs : Children)
    → get_child p (put_child l n cs) ≡ (if bytes_eq l p then some n else get_child p cs)
unfolding get_child put_child
get_child-put_child p l n nil = refl
get_child-put_child p l n (child k cs e w rest) = elim (Bool-cases (bytes_eq k l)) [
  | inl s ↦ rw (s, (bytes_eq_iff k l).0 s) (ground arith)
  | inr s ↦ elim (Bool-cases (bytes_eq k p)) [
    | inl t ↦
        let other : bytes_eq l p ≡ false =
          ground (arith, s, t, bytes_eq_iff k p, bytes_eq_iff l p, bytes_eq_iff k l) in
        rw (s, t, other) refl
    | inr t ↦ rw (s, t) (get_child-put_child p l n rest)
  ]
]

pub get_child-delete_child :
    (p l : Bytes) (cs : Children)
    → IsTree cs
    → get_child p (delete_child l cs) ≡ (if bytes_eq l p then none else get_child p cs)
unfolding get_child delete_child
get_child-delete_child p l nil h = ground arith
get_child-delete_child p l (child k cs e w rest) (_, once, h) = elim (Bool-cases (bytes_eq k l)) [
  | inl s ↦ elim (Bool-cases (bytes_eq l p)) [
    | inl t ↦ rw (s, t, ← (bytes_eq_iff l p).0 t, ← (bytes_eq_iff k l).0 s) once
    | inr t ↦ rw (s, t, (bytes_eq_iff k l).0 s, t) refl
  ]
  | inr s ↦ elim (Bool-cases (bytes_eq k p)) [
    | inl t ↦
        let other : bytes_eq l p ≡ false =
          ground (arith, s, t, bytes_eq_iff k p, bytes_eq_iff l p, bytes_eq_iff k l) in
        rw (s, t, other) refl
    | inr t ↦ rw (s, t) (get_child-delete_child p l rest h)
  ]
]

pub marks_at_new : (p : List Bytes) → marks_at p new_trie_node ≡ no_marks
unfolding marks_at
marks_at_new [] = refl
marks_at_new (l ∷ ls) = refl

-- Marks below a child, with no child as with a new one.
unfoldable pub below_marks : List Bytes → Option TrieNode → Marks
below_marks ls none = no_marks
below_marks ls (some b) = marks_at ls b

pub marks_at-cons :
    (l : Bytes) (ls : List Bytes) (n : TrieNode)
    → marks_at (l ∷ ls) n ≡ below_marks ls (get_child l n.children)
unfolding marks_at below_marks
marks_at-cons l ls n = elim (Option-cases (get_child l n.children)) [
  | inl e ↦ rw (marks_at, e) refl
  | inr (b, e) ↦ rw (marks_at, e) refl
]

pub marks_at-child_or_new :
    (ls : List Bytes) (l : Bytes) (n : TrieNode)
    → marks_at ls (child_or_new l n.children) ≡ marks_at (l ∷ ls) n
unfolding child_or_new below_marks
marks_at-child_or_new ls l n =
    rw (marks_at-cons l ls n) (elim (Option-cases (get_child l n.children)) [
      | inl e ↦ rw (child_or_new, e) (marks_at_new ls)
      | inr (b, e) ↦ rw (child_or_new, e) refl
    ])

-- Where a child is replaced, the paths through it lead into the new node.
pub marks_at_put :
    (l p : Bytes) (ps : List Bytes) (b n : TrieNode)
    → marks_at (p ∷ ps) (record n { children = put_child l b n.children })
      ≡ (if bytes_eq l p then marks_at ps b else marks_at (p ∷ ps) n)
unfolding below_marks
marks_at_put l p ps b n =
    rw (marks_at-cons, get_child-put_child p l b n.children)
      (elim (Bool-cases (bytes_eq l p)) [
        | inl s ↦ rw s refl
        | inr s ↦ rw s (sym (marks_at-cons p ps n))
      ])
