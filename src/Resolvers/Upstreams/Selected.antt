-- ===== src/Resolvers/Upstreams/Selected.antt =====
-- selectUpstream asks the upstreams in strict order, but for those that failed in the last hour.
use hydra_dns.Base.{
  ℕ, suc, ◌+◌, ◌-◌, ◌≤◌, ◌≡◌, ◌⊎◌, inl, inr, refl, arith, [], ◌∷◌, List, Bool, true, false, leb,
  if◌then◌else◌, Bool-cases, Option-cases, bytes_eq, bytes_eq_iff, Option, none, some, Bytes,
}
use hydra_dns.Resolvers.Upstreams.{
  upstream_recovery_duration, Failures, failed_at, mark_healthy, can_try_upstream, select_loop,
  select_upstream,
}

-- An upstream that has not failed, or failed at least an hour ago.
abbrev pub IsRecovered : ℕ → Option ℕ → Type 0
IsRecovered now none = Unit {0}
IsRecovered now (some t) = t + upstream_recovery_duration ≤ now

abbrev pub IsUsable : ℕ → Bytes → Failures → Type 0
IsUsable now up failures = IsRecovered now (failed_at up failures)

-- The upstream is the first usable one, each looked at at its time.
abbrev pub IsFirstUsable : (ℕ → ℕ) → List Bytes → Failures → Bytes → Type 0
IsFirstUsable clock [] failures up = ⊥
IsFirstUsable clock (u ∷ us) failures up =
    ((up ≡ u) × IsUsable (clock 0) u failures)
    ⊎ ((¬ IsUsable (clock 0) u failures) × IsFirstUsable (λ i. clock (suc i)) us failures up)

abbrev pub NoneUsable : (ℕ → ℕ) → List Bytes → Failures → Type 0
NoneUsable clock [] failures = Unit {0}
NoneUsable clock (u ∷ us) failures =
    (¬ IsUsable (clock 0) u failures) × NoneUsable (λ i. clock (suc i)) us failures

-- Without the failure of one upstream.
abbrev pub ForgetsOnly : Bytes → Failures → Failures → Type 0
ForgetsOnly up before left =
    (other : Bytes)
    → failed_at other left ≡ (if bytes_eq up other then none else failed_at other before)

failed_at-mark_healthy :
    (up other : Bytes) (failures : Failures)
    → failed_at other (mark_healthy up failures)
      ≡ (if bytes_eq up other then none else failed_at other failures)
unfolding failed_at mark_healthy
failed_at-mark_healthy up other [] = ground arith
failed_at-mark_healthy up other ((u, t) ∷ rest) = ground (
  arith,
  failed_at-mark_healthy up other rest,
  Bool-cases (bytes_eq u up),
  Bool-cases (bytes_eq u other),
  Bool-cases (bytes_eq up other),
  bytes_eq_iff u up,
  bytes_eq_iff u other,
  bytes_eq_iff up other,
)

-- A look at one upstream.
data Looked (now : ℕ) (up : Bytes) (failures : Failures) (r : Bool × Failures) : Type 0 where
  usable :
      IsUsable now up failures → ForgetsOnly up failures r.1 → r.0 ≡ true → Looked now up failures r
  unusable : ¬ IsUsable now up failures → r ≡ (false, failures) → Looked now up failures r

can_try_upstream-Looked :
    (now : ℕ) (up : Bytes) (failures : Failures)
    → Looked now up failures (can_try_upstream now up failures)
unfolding can_try_upstream
can_try_upstream-Looked now up failures = elim (Option-cases (failed_at up failures)) [
  | inl e ↦ rw (can_try_upstream, e) (usable (rw e tt) (kept e) refl)
  | inr (t, e) ↦ elim (Bool-cases (leb upstream_recovery_duration (now - t))) [
    | inl old ↦
        rw (can_try_upstream, e, old)
          (usable (rw e (ground (arith, old))) (λ other. failed_at-mark_healthy up other failures)
            refl)
    | inr recent ↦
        rw (can_try_upstream, e, recent)
          (unusable (rw e (λ (h : t + upstream_recovery_duration ≤ now). ground (arith, recent, h)))
            refl)
  ]
]
  where
    kept : failed_at up failures ≡ none → ForgetsOnly up failures failures
    kept e other = ground (arith, e, Bool-cases (bytes_eq up other), bytes_eq_iff up other)

-- The loop ends with the first usable upstream, without its failure, or with none and nothing
-- changed.
abbrev Selects : (ℕ → ℕ) → List Bytes → Failures → Option Bytes × Failures → Type 0
Selects clock ups failures (some u, left) =
    IsFirstUsable clock ups failures u × ForgetsOnly u failures left
Selects clock ups failures (none, left) = NoneUsable clock ups failures

skipped :
    (clock : ℕ → ℕ) (u : Bytes) (us : List Bytes) (failures : Failures)
    (r : Option Bytes × Failures)
    → ¬ IsUsable (clock 0) u failures
    → Selects (λ i. clock (suc i)) us failures r
    → Selects clock (u ∷ us) failures r
skipped clock u us failures (some v, left) down h = (inr (down, h.0), h.1)
skipped clock u us failures (none, left) down h = (down, h)

select_loop-Selects :
    (clock : ℕ → ℕ) (ups : List Bytes) (failures : Failures)
    → Selects clock ups failures (select_loop clock ups failures)
unfolding select_loop
select_loop-Selects clock [] failures = tt
select_loop-Selects clock (u ∷ us) failures = elim (can_try_upstream-Looked (clock 0) u failures) [
  | usable yes_now forgets e ↦ rw e (inl (refl, yes_now), forgets)
  | unusable no_yet e ↦
      rw e (
        skipped clock u us failures _ no_yet (select_loop-Selects (λ i. clock (suc i)) us failures))
]

-- What selectUpstream answers, and the failures that it leaves.
abbrev pub Chooses : (ℕ → ℕ) → Bytes → List Bytes → Failures → Bytes × Failures → Type 0
Chooses clock first others failures (chosen, left) =
    (IsFirstUsable clock (first ∷ others) failures chosen × ForgetsOnly chosen failures left)
    ⊎ (NoneUsable clock (first ∷ others) failures × (chosen ≡ first) × (left ≡ []))

-- selectUpstream answers the first upstream that has not failed or failed at least an hour ago, and
-- takes its failure and no other out of the map; where all failed in the last hour, it answers the
-- first one and empties the map.
pub select_upstream-Chooses :
    (clock : ℕ → ℕ) (first : Bytes) (others : List Bytes) (failures : Failures)
    → Chooses clock first others failures (select_upstream clock first others failures)
unfolding select_upstream
select_upstream-Chooses clock first others failures =
    chosen_of (select_loop clock (first ∷ others) failures)
      (select_loop-Selects clock (first ∷ others) failures)
  where
    chosen_of :
        (r : Option Bytes × Failures)
        → Selects clock (first ∷ others) failures r
        → Chooses clock first others failures
            (elim r.0 as (λ _. Bytes × Failures) [ some u ↦ (u, r.1) | none ↦ (first, []) ])
    chosen_of (some u, left) h = inl h
    chosen_of (none, left) h = inr (h, refl, refl)
