-- ===== src/Base/Table.antt =====
-- Go's maps with strings as keys, as association lists: what a lookup gives after a change.
use Prim.Native.Nat.{suc, ◌≤◌}
use mathlib.Core.Path.{◌≡◌, refl, sym, ap, ◌∙◌}
use mathlib.Core.Logic.{inl, inr}
use mathlib.Core.Bool.{Bool, true, false}
use mathlib.Core.Option.{Option, none, some}
use mathlib.Core.List.{List, [], ◌∷◌}
use native.Mathlib.Omega.{arith}
use hydra_dns.Base.Tests.{if◌then◌else◌, Bool-cases, bytes_eq, bytes_eq_iff}
use hydra_dns.Base.Lists.{length}
use hydra_dns.Base.Wire.{Bytes}

-- `m[k]`, and `m[k] = a`
module _ {ℓ} {A : Type ℓ} where
  unfoldable pub table_get : Bytes → List (Bytes × A) → Option A
  table_get k [] = none
  table_get k ((x, a) ∷ rest) =
      let later = table_get k rest in if bytes_eq x k then some a else later

  unfoldable pub table_set : Bytes → A → List (Bytes × A) → List (Bytes × A)
  table_set k a [] = (k, a) ∷ []
  table_set k a ((x, b) ∷ rest) =
      let later = (x, b) ∷ table_set k a rest in if bytes_eq x k then (x, a) ∷ rest else later

  -- `delete(m, k)` for every key that fails the test.
  unfoldable pub table_keep : (Bytes → Bool) → List (Bytes × A) → List (Bytes × A)
  table_keep keep [] = []
  table_keep keep ((x, a) ∷ rest) =
      let later = table_keep keep rest in if keep x then (x, a) ∷ later else later

pub bytes_eq_apart :
    (x k j : Bytes) → bytes_eq x k ≡ false → bytes_eq x j ≡ true → bytes_eq k j ≡ false
bytes_eq_apart x k j e h = elim (Bool-cases (bytes_eq k j)) [
  | inr f ↦ f
  | inl f ↦
      let same : x ≡ k = (bytes_eq_iff x j).0 h ∙ sym ((bytes_eq_iff k j).0 f) in
      absurd (ground (arith, e, (bytes_eq_iff x k).1 same))
]

module _ {ℓ} {A : Type ℓ} where
  pub table_get-table_set :
      (j k : Bytes) (a : A) (m : List (Bytes × A))
      → table_get j (table_set k a m) ≡ (if bytes_eq k j then some a else table_get j m)
  unfolding table_get table_set
  table_get-table_set j k a [] = refl
  table_get-table_set j k a ((x, b) ∷ rest) = elim (Bool-cases (bytes_eq x k)) [
    | inl e ↦ let same : x ≡ k = (bytes_eq_iff x k).0 e in rw (e, same) (ground arith)
    | inr e ↦
        let differ : bytes_eq x j ≡ true → bytes_eq k j ≡ false = bytes_eq_apart x k j e in
        rw (e, table_get-table_set j k a rest) (ground (arith, differ))
  ]

  pub table_get-table_keep :
      (j : Bytes) (keep : Bytes → Bool) (m : List (Bytes × A))
      → table_get j (table_keep keep m) ≡ (if keep j then table_get j m else none)
  unfolding table_get table_keep
  table_get-table_keep j keep [] = ground arith
  table_get-table_keep j keep ((x, b) ∷ rest) = elim (Bool-cases (bytes_eq x j)) [
    | inl e ↦
        let same : x ≡ j = (bytes_eq_iff x j).0 e in
        elim (Bool-cases (keep x)) [
          | inl f ↦ let f' : keep j ≡ true = sym (ap keep same) ∙ f in rw (f, f') (rw (e) refl)
          | inr f ↦
              let f' : keep j ≡ false = sym (ap keep same) ∙ f in
              rw (f, table_get-table_keep j keep rest, f') refl
        ]
    | inr e ↦ elim (Bool-cases (keep x)) [
      | inl f ↦ rw (f) (rw (e, table_get-table_keep j keep rest) refl)
      | inr f ↦ rw (f, e) (table_get-table_keep j keep rest)
    ]
  ]

  pub length-table_keep :
      (keep : Bytes → Bool) (m : List (Bytes × A)) → length (table_keep keep m) ≤ length m
  unfolding table_keep
  length-table_keep keep [] = omega arith
  length-table_keep keep ((x, b) ∷ rest) = ground (arith, length-table_keep keep rest)

  pub length-table_set :
      (k : Bytes) (a : A) (m : List (Bytes × A)) → length (table_set k a m) ≤ suc (length m)
  unfolding table_set
  length-table_set k a [] = omega arith
  length-table_set k a ((x, b) ∷ rest) = ground (arith, length-table_set k a rest)

  -- To set a key that is there keeps the number of entries.
  pub length-table_set-some :
      (k : Bytes) (a b : A) (m : List (Bytes × A))
      → table_get k m ≡ some b
      → length (table_set k a m) ≡ length m
  unfolding table_get table_set
  length-table_set-some k a b [] h = ground (arith, h)
  length-table_set-some k a b ((x, c) ∷ rest) h = elim (Bool-cases (bytes_eq x k)) [
    | inl e ↦ rw (e) refl
    | inr e ↦
        let later : table_get k rest ≡ some b = ground (arith, e, h) in
        rw (e) (ap suc (length-table_set-some k a b rest later))
  ]
