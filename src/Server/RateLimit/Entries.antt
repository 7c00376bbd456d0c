-- ===== src/Server/RateLimit/Entries.antt =====
-- The maps of a limiter do not outgrow their limit, and have the same keys.
use hydra_dns.Base.{
  ℕ, zero, suc, ◌+◌, ◌≤◌, ◌≡◌, refl, ap, inl, inr, arith, [], ◌∷◌, List, Bool, false, not, ltb, leb,
  if◌then◌else◌, length, some, Bytes, Bool-cases, Option-cases, bytes_eq,
}
use hydra_dns.Base.Int.{ℤ, pos, negsuc}
use hydra_dns.Base.Table.{table_get, table_set, table_keep}
use hydra_dns.Server.RateLimit.{
  Floats, TokenBucketConfig, new_token_bucket_rate_limiter, positive_or, TokenBucketRateLimiter,
  one, is_disabled, is_stale, cleanup_locked, refilled, set_bucket, consume, admit_new, allow_swept,
  allow_key,
}
use hydra_dns.Base.Table.{length-table_keep, length-table_set, length-table_set-some}
use hydra_dns.Server.RateLimit.Steps.{
  admit_new_full, admit_new_room, allow_swept_known, allow_swept_full, allow_swept_room,
  allow_key_due, allow_key_soon,
}

-- What any calls of Allow lead to.
pub data BucketReachable {F : Type 0} (fl : Floats F) : TokenBucketRateLimiter F → Type 0 where
  made :
      (now : ℕ) (cfg : TokenBucketConfig F)
      → BucketReachable fl (new_token_bucket_rate_limiter fl now cfg)
  asked :
      (key : Bytes) (now : ℕ) (l : TokenBucketRateLimiter F)
      → BucketReachable fl l
      → BucketReachable fl (allow_key fl key now l).1

-- The keys of a map.
unfoldable pub keys : {A : Type 0} → List (Bytes × A) → List Bytes
keys [] = []
keys ((k, v) ∷ rest) = k ∷ keys rest

keys-table_set :
    {A B : Type 0} (k : Bytes) (a : A) (b : B) (m : List (Bytes × A)) (n : List (Bytes × B))
    → keys m ≡ keys n
    → keys (table_set k a m) ≡ keys (table_set k b n)
unfolding keys table_set
keys-table_set k a b [] [] h = refl
keys-table_set k a b [] ((x, v) ∷ n) h = ground (arith, h)
keys-table_set k a b ((x, v) ∷ m) [] h = ground (arith, h)
keys-table_set k a b ((x, v) ∷ m) ((y, w) ∷ n) h =
    let both : ◌≡◌ {A = List Bytes} (x ∷ keys m) (y ∷ keys n) = h in
    let same : x ≡ y = cc in
    let rest : keys m ≡ keys n = cc in
    elim (Bool-cases (bytes_eq y k)) [
      | inl e ↦ rw (same, e) (ap (◌∷◌ y) rest)
      | inr e ↦ rw (same, e) (ap (◌∷◌ y) (keys-table_set k a b m n rest))
    ]

keys-table_keep :
    {A B : Type 0} (keep : Bytes → Bool) (m : List (Bytes × A)) (n : List (Bytes × B))
    → keys m ≡ keys n
    → keys (table_keep keep m) ≡ keys (table_keep keep n)
unfolding keys table_keep
keys-table_keep keep [] [] h = refl
keys-table_keep keep [] ((x, v) ∷ n) h = ground (arith, h)
keys-table_keep keep ((x, v) ∷ m) [] h = ground (arith, h)
keys-table_keep keep ((x, v) ∷ m) ((y, w) ∷ n) h =
    let both : ◌≡◌ {A = List Bytes} (x ∷ keys m) (y ∷ keys n) = h in
    let same : x ≡ y = cc in
    let rest = keys-table_keep keep m n (cc) in
    elim (Bool-cases (keep y)) [
      | inl e ↦ rw (same, e) (ap (◌∷◌ y) rest)
      | inr e ↦ rw (same, e) rest
    ]

-- The two maps hold the same keys, and no more than the limit.
abbrev pub IsLimited : {F : Type 0} → TokenBucketRateLimiter F → Type 0
IsLimited l =
    (keys l.tokens ≡ keys l.last_update)
    × (1 ≤ l.max_entries)
    × (length l.last_update ≤ l.max_entries)

module _ {F : Type 0} (fl : Floats F) where
  IsLimited-cleanup_locked :
      (now : ℕ) (l : TokenBucketRateLimiter F) → IsLimited l → IsLimited (cleanup_locked now l)
  unfolding cleanup_locked
  IsLimited-cleanup_locked now l h =
      let keep = λ (k : Bytes). not (is_stale l.cleanup_interval now (table_get k l.last_update)) in
      (
        keys-table_keep keep l.tokens l.last_update h.0,
        h.1,
        omega (arith, length-table_keep keep l.last_update, h.2),
      )

  IsLimited-known :
      (key : Bytes) (now last : ℕ) (parts : F) (l : TokenBucketRateLimiter F)
      → table_get key l.last_update ≡ some last
      → IsLimited l
      → IsLimited (set_bucket key now parts l)
  unfolding set_bucket
  IsLimited-known key now last parts l known h = (
    keys-table_set key parts now l.tokens l.last_update h.0,
    h.1,
    omega (arith, length-table_set-some key now last l.last_update known, h.2),
  )

  IsLimited-room :
      (key : Bytes) (now : ℕ) (parts : F) (l : TokenBucketRateLimiter F)
      → leb l.max_entries (length l.last_update) ≡ false
      → IsLimited l
      → IsLimited (set_bucket key now parts l)
  unfolding set_bucket
  IsLimited-room key now parts l room h = (
    keys-table_set key parts now l.tokens l.last_update h.0,
    h.1,
    ground (arith, length-table_set key now l.last_update, room),
  )

  IsLimited-admit_new :
      (key : Bytes) (now : ℕ) (l : TokenBucketRateLimiter F)
      → IsLimited l
      → IsLimited (admit_new fl key now l).1
  unfolding cleanup_locked
  IsLimited-admit_new key now l h =
      let swept = cleanup_locked now l in
      let h' = IsLimited-cleanup_locked now l h in
      elim (Bool-cases (leb l.max_entries (length swept.last_update))) [
        | inl full ↦ rw (admit_new_full fl key now l full) h'
        | inr room ↦
            rw (admit_new_room fl key now l room)
              (IsLimited-room key now (fl.minus l.burst (one fl)) swept room h')
      ]

  -- The parts that consume leaves in the bucket.
  left_over : Bytes → ℕ → TokenBucketRateLimiter F → F
  left_over key now l =
      if fl.le (one fl) (refilled fl key now l)
      then fl.minus (refilled fl key now l) (one fl)
      else refilled fl key now l

  consume_sets :
      (key : Bytes) (now : ℕ) (l : TokenBucketRateLimiter F)
      → (consume fl key now l).1 ≡ set_bucket key now (left_over key now l) l
  unfolding consume left_over
  consume_sets key now l = elim (Bool-cases (fl.le (one fl) (refilled fl key now l))) [
    | inl e ↦ rw (consume, e) refl
    | inr e ↦ rw (consume, e) refl
  ]

  IsLimited-allow_swept :
      (key : Bytes) (now : ℕ) (l : TokenBucketRateLimiter F)
      → IsLimited l
      → IsLimited (allow_swept fl key now l).1
  IsLimited-allow_swept key now l h =
      let parts = left_over key now l in
      elim (Option-cases (table_get key l.last_update)) [
        | inr (last, e) ↦
            rw (allow_swept_known fl key now l last e, consume_sets key now l)
              (IsLimited-known key now last parts l e h)
        | inl e ↦ elim (Bool-cases (leb l.max_entries (length l.last_update))) [
          | inl full ↦ rw (allow_swept_full fl key now l e full) (IsLimited-admit_new key now l h)
          | inr room ↦
              rw (allow_swept_room fl key now l e room, consume_sets key now l)
                (IsLimited-room key now parts l room h)
        ]
      ]

  IsLimited-allow_key :
      (key : Bytes) (now : ℕ) (l : TokenBucketRateLimiter F)
      → IsLimited l
      → IsLimited (allow_key fl key now l).1
  unfolding allow_key
  IsLimited-allow_key key now l h = elim (Bool-cases (is_disabled fl l)) [
    | inl off ↦ rw (allow_key, off) h
    | inr enabled ↦ elim (Bool-cases (ltb (l.last_cleanup + l.cleanup_interval) now)) [
      | inl due ↦
          rw (allow_key_due fl key now l enabled due) (
            IsLimited-allow_swept key now (cleanup_locked now l) (IsLimited-cleanup_locked now l h))
      | inr soon ↦ rw (allow_key_soon fl key now l enabled soon) (IsLimited-allow_swept key now l h)
    ]
  ]

positive_or_positive : (n : ℤ) → 1 ≤ positive_or n 1
unfolding positive_or
positive_or_positive (pos zero) = omega arith
positive_or_positive (pos (suc n)) = omega arith
positive_or_positive (negsuc n) = omega arith

-- Whatever calls a limiter has seen, its two maps have the same keys, and no more of them than its
-- limit, which is at least one.
pub BucketReachable-IsLimited :
    {F : Type 0} (fl : Floats F) (l : TokenBucketRateLimiter F) → BucketReachable fl l → IsLimited l
unfolding new_token_bucket_rate_limiter keys
BucketReachable-IsLimited fl _ (made now cfg) =
    (refl, positive_or_positive cfg.max_entries, omega arith)
BucketReachable-IsLimited fl _ (asked key now l r) =
    IsLimited-allow_key fl key now l (BucketReachable-IsLimited fl l r)
