-- ===== src/Resolvers/Decision/Minimum.antt =====
-- The TTL of a positive cache entry, and of every decision.
use hydra_dns.Base.{
  ℕ, ◌≤◌, ◌<◌, ◌≡◌, ◌⊎◌, inl, inr, refl, arith, [], ◌∷◌, List, some, ltb, ◌==◌, All, Bool-cases,
  sym,
}
use mathlib.Core.Path.{subst}
use hydra_dns.Dns.Record.{Record, record_header}
use hydra_dns.Resolvers.Decision.{minimum_ttl_loop, find_minimum_ttl}

abbrev pub ttl_of : Record → ℕ
ttl_of r = (record_header r).ttl

-- Some record has this TTL.
abbrev pub HasTtl : ℕ → List Record → Type 0
HasTtl n [] = ⊥
HasTtl n (r ∷ rs) = (ttl_of r ≡ n) ⊎ HasTtl n rs

-- Every TTL is 0, which findMinimumTTL leaves out, or at least this.
abbrev pub IsLowerBound : ℕ → List Record → Type 0
IsLowerBound n = All (λ r. (ttl_of r ≡ 0) ⊎ (n ≤ ttl_of r))

loop_from :
    (least : ℕ) (rs : List Record)
    → 0 < least
    → (n : ℕ) × (minimum_ttl_loop (some least) rs ≡ some n)
      × (0 < n)
      × (n ≤ least)
      × ((n ≡ least) ⊎ HasTtl n rs)
      × IsLowerBound n rs
unfolding minimum_ttl_loop
loop_from least [] h = (least, refl, h, omega arith, inl refl, tt)
loop_from least (r ∷ rs) h = elim (Bool-cases (ttl_of r == 0)) [
  | inl no_ttl ↦
      let (n, e, p, le, has, low) = loop_from least rs h in
      (n, rw no_ttl e, p, le, ground (arith, has), (inl (ground (arith, no_ttl)), low))
  | inr some_ttl ↦ elim (Bool-cases (ltb (ttl_of r) least)) [
    | inl less ↦
        let (n, e, p, le, has, low) = loop_from (ttl_of r) rs (ground (arith, some_ttl)) in
        (n, rw (some_ttl, less) e, p, ground (arith, less, le), ground (arith, has), (inr le, low))
    | inr more ↦
        let (n, e, p, le, has, low) = loop_from least rs h in
        (
          n,
          rw (some_ttl, more) e,
          p,
          le,
          ground (arith, has),
          (inr (ground (arith, more, le)), low),
        )
  ]
]

-- The least TTL of the records whose TTL is not 0; it is 0 if there is none.
unfoldable pub IsLeastTtl : ℕ → List Record → Type 0
IsLeastTtl n rs =
    ((n ≡ 0) × All (λ r. ttl_of r ≡ 0) rs) ⊎ ((0 < n) × HasTtl n rs × IsLowerBound n rs)

IsLeastTtl-skip :
    (n : ℕ) (r : Record) (rs : List Record) → ttl_of r ≡ 0 → IsLeastTtl n rs → IsLeastTtl n (r ∷ rs)
unfolding IsLeastTtl
IsLeastTtl-skip n r rs no_ttl (inl (e, zeros)) = inl (e, (no_ttl, zeros))
IsLeastTtl-skip n r rs no_ttl (inr (p, has, low)) = inr (p, inr has, (inl no_ttl, low))

-- findMinimumTTL computes the least TTL of the records whose TTL is not 0, and 0 if there is none.
pub find_minimum_ttl_lem : (rs : List Record) → IsLeastTtl (find_minimum_ttl rs) rs
unfolding find_minimum_ttl minimum_ttl_loop IsLeastTtl
find_minimum_ttl_lem [] = inl (refl, tt)
find_minimum_ttl_lem (r ∷ rs) = elim (Bool-cases (ttl_of r == 0)) [
  | inl no_ttl ↦
      let same : find_minimum_ttl (r ∷ rs) ≡ find_minimum_ttl rs =
        rw (find_minimum_ttl, no_ttl) refl in
      subst (λ n. IsLeastTtl n (r ∷ rs)) (sym same)
        (IsLeastTtl-skip _ r rs (ground (arith, no_ttl)) (find_minimum_ttl_lem rs))
  | inr some_ttl ↦
      let (n, e, p, le, has, low) = loop_from (ttl_of r) rs (ground (arith, some_ttl)) in
      let same : find_minimum_ttl (r ∷ rs) ≡ n = rw (find_minimum_ttl, some_ttl, e) refl in
      subst (λ n. IsLeastTtl n (r ∷ rs)) (sym same) (inr (p, ground (arith, has), (inr le, low)))
]
