-- ===== src/Filtering/Trie/Covered.antt =====
-- What is covered after a mark is set, and by two tables together.
use mathlib.Core.Path.{fun_ext}
use hydra_dns.Base.{
  ◌≡◌, inl, inr, refl, arith, [], ◌∷◌, List, Bool, true, false, ◌&&◌, ◌||◌, if◌then◌else◌, Bytes,
  bytes_eq, bytes_eq_iff, Bool-cases,
}
use hydra_dns.Filtering.Trie.Marks.{Marks, paths_eq}
use hydra_dns.Filtering.Trie.Added.{is_covered}
use hydra_dns.Filtering.Trie.Merged.{◌∪◌}

-- A path with more labels behind this one.
unfoldable pub is_strict_prefix : List Bytes → List Bytes → Bool
is_strict_prefix [] [] = false
is_strict_prefix [] (y ∷ ys) = true
is_strict_prefix (x ∷ xs) [] = false
is_strict_prefix (x ∷ xs) (y ∷ ys) = bytes_eq x y && is_strict_prefix xs ys

-- The table that Add leaves.
abbrev pub updated : (List Bytes → Marks) → List Bytes → Bool → List Bytes → Marks
updated m q w p = if paths_eq q p then (true, (m q).1 || w) else m p

pub is_covered-updated :
    (q ls : List Bytes) (a : Bytes) (m : List Bytes → Marks) (w : Bool)
    → is_covered (updated m (a ∷ q) w) ls
      ≡ (is_covered m ls || (paths_eq (a ∷ q) ls || (w && is_strict_prefix (a ∷ q) ls)))
unfolding is_covered paths_eq is_strict_prefix
is_covered-updated q [] a m w = ground arith
is_covered-updated [] (l ∷ []) a m w = elim (Bool-cases (bytes_eq a l)) [
  | inl s ↦ rw s (ground arith)
  | inr s ↦ rw s (ground arith)
]
is_covered-updated [] (l ∷ k ∷ ls) a m w = elim (Bool-cases (bytes_eq a l)) [
  | inl s ↦ rw (s, (bytes_eq_iff a l).0 s) (ground arith)
  | inr s ↦ rw s (ground arith)
]
is_covered-updated (b ∷ q) (l ∷ ls) a m w = elim (Bool-cases (bytes_eq a l)) [
  | inl s ↦
      let rest = is_covered-updated q ls b (λ p. m (l ∷ p)) w in
      rw (s, (bytes_eq_iff a l).0 s) (rw rest (ground arith))
  | inr s ↦ rw s (ground arith)
]

pub is_covered-∪ :
    (ls : List Bytes) (a b : List Bytes → Marks)
    → is_covered (λ p. a p ∪ b p) ls ≡ (is_covered a ls || is_covered b ls)
unfolding is_covered
is_covered-∪ [] a b = refl
is_covered-∪ (l ∷ ls) a b = ground (arith, is_covered-∪ ls (λ p. a (l ∷ p)) (λ p. b (l ∷ p)))

-- The same below a label: the root's own marks do not count.
pub is_covered-below :
    (a : Bytes) (q : List Bytes) (f g h : List Bytes → Marks)
    → ((p : List Bytes) → f (a ∷ p) ≡ g (a ∷ p) ∪ h (a ∷ p))
    → is_covered f (a ∷ q) ≡ (is_covered g (a ∷ q) || is_covered h (a ∷ q))
unfolding is_covered
is_covered-below a q f g h e =
    rw (fun_ext e, e []) (ground (arith, is_covered-∪ q (λ p. g (a ∷ p)) (λ p. h (a ∷ p))))
