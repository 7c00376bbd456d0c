-- ===== src/Resolvers/Upstreams.antt =====
-- internal/resolvers/forwarding_resolver.go: which upstream is asked. The map of failures is a
-- list of names with times; each reading of the clock is an argument.
pub mod Selected
use hydra_dns.Base.{
  ℕ, suc, ◌-◌, ◌*◌, ◌≡◌, inl, inr, refl, arith, [], ◌∷◌, List, Bool, true, false, leb,
  if◌then◌else◌, Bool-cases, bytes_eq, bytes_eq_iff, Option, none, some, Bytes,
}

-- `time.Hour` in nanoseconds.
abbrev pub upstream_recovery_duration : ℕ
upstream_recovery_duration = 3600 * 1000000000

-- The map `upstreamFailedAt`.
abbrev pub Failures : Type 0
Failures = List (Bytes × ℕ)

unfoldable pub failed_at : Bytes → Failures → Option ℕ
failed_at up [] = none
failed_at up ((u, t) ∷ rest) = if bytes_eq u up then some t else failed_at up rest

unfoldable pub mark_healthy : Bytes → Failures → Failures
mark_healthy up [] = []
mark_healthy up ((u, t) ∷ rest) =
    let others = mark_healthy up rest in if bytes_eq u up then others else (u, t) ∷ others

unfoldable pub mark_failed : ℕ → Bytes → Failures → Failures
mark_failed now up failures = elim (failed_at up failures) [
  | some t ↦ failures
  | none ↦ (up, now) ∷ failures
]

-- `time.Since` of a time in the past.
unfoldable pub can_try_upstream : ℕ → Bytes → Failures → Bool × Failures
can_try_upstream now up failures = elim (failed_at up failures) [
  | none ↦ (true, failures)
  | some t ↦
      if leb upstream_recovery_duration (now - t)
      then (true, mark_healthy up failures)
      else (false, failures)
]

-- The loop of selectUpstream; `clock i` is the time at which the i-th upstream is looked at.
unfoldable pub select_loop : (ℕ → ℕ) → List Bytes → Failures → Option Bytes × Failures
select_loop clock [] failures = (none, failures)
select_loop clock (u ∷ us) failures =
    let (usable, left) = can_try_upstream (clock 0) u failures in
    let rest = select_loop (λ i. clock (suc i)) us left in if usable then (some u, left) else rest

-- With the first upstream apart from the others: the resolver always has one.
unfoldable pub select_upstream : (ℕ → ℕ) → Bytes → List Bytes → Failures → Bytes × Failures
select_upstream clock first others failures =
    let (chosen, left) = select_loop clock (first ∷ others) failures in
    elim chosen [ some u ↦ (u, left) | none ↦ (first, []) ]

failed_at_first :
    (up : Bytes) (t : ℕ) (failures : Failures) → failed_at up ((up, t) ∷ failures) ≡ some t
unfolding failed_at
failed_at_first up t failures = rw ((bytes_eq_iff up up).1 refl) refl

-- An upstream without a recorded failure that is marked as failed can be tried again as soon as an
-- hour has passed since, and not before; marking it again in between changes nothing.
pub can_try_upstream-mark_failed :
    (now again later : ℕ) (up : Bytes) (failures : Failures)
    → failed_at up failures ≡ none
    → ((can_try_upstream later up (mark_failed now up failures)).0
        ≡ leb upstream_recovery_duration (later - now))
      × (mark_failed again up (mark_failed now up failures) ≡ mark_failed now up failures)
unfolding mark_failed can_try_upstream
can_try_upstream-mark_failed now again later up failures none_yet =
    let marked : mark_failed now up failures ≡ (up, now) ∷ failures =
      rw (mark_failed, none_yet) refl in
    let there = failed_at_first up now failures in
    rw marked (
      elim (Bool-cases (leb upstream_recovery_duration (later - now))) [
        | inl old ↦ rw (can_try_upstream, there, old) refl
        | inr recent ↦ rw (can_try_upstream, there, recent) refl
      ],
      rw (mark_failed, there) refl,
    )
