-- ===== src/Base/Text.antt =====
-- What the Go code uses of `strings`, on ASCII text: white space, dots and labels.
use Prim.Native.Nat.{ℕ}
use mathlib.Core.Path.{◌≡◌, refl, ap}
use mathlib.Core.Bool.{Bool, true, false, ◌&&◌, ◌||◌}
use mathlib.Core.Logic.{inl, inr}
use mathlib.Core.List.{List, [], ◌∷◌, ◌++◌}
use native.Mathlib.Omega.{arith}
use hydra_dns.Base.Tests.{◌==◌, leb, if◌then◌else◌, Bool-cases}
use hydra_dns.Base.Wire.{Bytes}

-- TAB, LF, VT, FF, CR and space.
unfoldable pub is_space : ℕ → Bool
is_space c = (leb 9 c && leb c 13) || c == 32

unfoldable pub trim_left : Bytes → Bytes
unfolding is_space
trim_left [] = []
trim_left (c ∷ cs) = let rest = trim_left cs in if is_space c then rest else c ∷ cs

unfoldable pub trim_right : Bytes → Bytes
unfolding is_space
trim_right [] = []
trim_right (c ∷ cs) = elim (trim_right cs) [
  | [] ↦ if is_space c then [] else c ∷ []
  | d ∷ ds ↦ c ∷ d ∷ ds
]

-- strings.TrimSpace
unfoldable pub trim_space : Bytes → Bytes
unfolding trim_left trim_right
trim_space s = trim_right (trim_left s)

-- strings.Split(s, sep) for a separator of one byte: `piece` has been read.
unfoldable pub split_from : ℕ → Bytes → Bytes → List Bytes
split_from sep piece [] = piece ∷ []
split_from sep piece (c ∷ cs) =
    let here = piece ∷ split_from sep [] cs in
    let on = split_from sep (piece ++ (c ∷ [])) cs in if c == sep then here else on

unfoldable pub split : ℕ → Bytes → List Bytes
unfolding split_from
split sep s = split_from sep [] s

pub split_from_some :
    (sep : ℕ) (piece s : Bytes)
    → (x : Bytes) × (xs : List Bytes) × (split_from sep piece s ≡ x ∷ xs)
unfolding split_from
split_from_some sep piece [] = (piece, [], refl)
split_from_some sep piece (c ∷ cs) = elim (Bool-cases (c == sep)) [
  | inl e ↦ (piece, split_from sep [] cs, rw e refl)
  | inr e ↦
      let (x, xs, same) = split_from_some sep (piece ++ (c ∷ [])) cs in (x, xs, rw (e, same) refl)
]

-- The pieces on both sides of a separator.
pub split_from-append :
    (sep : ℕ) (piece xs ys : Bytes)
    → split_from sep piece (xs ++ (sep ∷ ys)) ≡ split_from sep piece xs ++ split_from sep [] ys
unfolding split_from
split_from-append sep piece [] ys = ground arith
split_from-append sep piece (c ∷ xs) ys = elim (Bool-cases (c == sep)) [
  | inl e ↦ rw e (ap (◌∷◌ piece) (split_from-append sep [] xs ys))
  | inr e ↦ rw e (split_from-append sep (piece ++ (c ∷ [])) xs ys)
]

-- strings.HasPrefix(s, prefix)
unfoldable pub has_prefix : Bytes → Bytes → Bool
has_prefix [] s = true
has_prefix (p ∷ ps) [] = false
has_prefix (p ∷ ps) (c ∷ cs) = p == c && has_prefix ps cs

-- strings.Contains(s, sub) for a text of one byte.
unfoldable pub contains_byte : ℕ → Bytes → Bool
contains_byte b [] = false
contains_byte b (c ∷ cs) = c == b || contains_byte b cs

-- `s[:strings.Index(s, sep)]` for a separator of one byte, and s where it does not occur.
unfoldable pub cut_before : ℕ → Bytes → Bytes
cut_before b [] = []
cut_before b (c ∷ cs) = let rest = c ∷ cut_before b cs in if c == b then [] else rest

-- strings.Fields: `field` has been read.
unfoldable pub fields_from : Bytes → Bytes → List Bytes
fields_from [] [] = []
fields_from (f ∷ fs) [] = (f ∷ fs) ∷ []
fields_from field (c ∷ cs) =
    let next = fields_from [] cs in
    let on = fields_from (field ++ (c ∷ [])) cs in
    if is_space c then (elim field [ [] ↦ next | f ∷ fs ↦ (f ∷ fs) ∷ next ]) else on

unfoldable pub fields : Bytes → List Bytes
unfolding fields_from
fields s = fields_from [] s
