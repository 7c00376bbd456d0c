-- ===== src/Server/RateLimit.antt =====
-- internal/server/rate_limit.go: a token bucket for each key.
-- Times are nanoseconds of one clock that runs less than 292 years. The arithmetic of float64, which
-- rounds, is a parameter.
pub mod Steps
pub mod Entries
pub mod Tiers
use hydra_dns.Base.{
  ℕ, zero, suc, ◌+◌, ◌-◌, [], ◌∷◌, List, Bool, true, false, not, ◌||◌, ltb, leb, if◌then◌else◌,
  length, Option, none, some, Bytes,
}
use hydra_dns.Base.Int.{ℤ, pos, negsuc}
use hydra_dns.Base.Table.{table_get, table_set, table_keep}

-- What the limiter uses of Go's float64: `seconds` is Duration.Seconds of so many nanoseconds, and
-- `duration` is `time.Duration(f * float64(time.Second))`.
pub record Floats (F : Type 0) : Type 0 where
  pub of_int : ℤ → F
  pub plus : F → F → F
  pub minus : F → F → F
  pub times : F → F → F
  pub min_of : F → F → F
  pub max_of : F → F → F
  pub le : F → F → Bool
  pub seconds : ℕ → F
  pub duration : F → ℤ

pub record TokenBucketConfig (F : Type 0) : Type 0 where
  pub rate : F
  pub burst : ℤ
  pub cleanup_interval : ℤ
  pub max_entries : ℤ

pub record TokenBucketRateLimiter (F : Type 0) : Type 0 where
  pub rate : F
  pub burst : F
  pub cleanup_interval : ℕ
  pub max_entries : ℕ
  pub last_cleanup : ℕ
  pub last_update : List (Bytes × ℕ)
  pub tokens : List (Bytes × F)

-- `n`, or the default where `n <= 0`.
unfoldable pub positive_or : ℤ → ℕ → ℕ
positive_or (pos (suc n)) default = suc n
positive_or n default = default

-- Sixty seconds.
abbrev pub default_cleanup_interval : ℕ
default_cleanup_interval = 60000000000

-- `!last.After(now.Add(-interval))`
unfoldable pub is_stale : ℕ → ℕ → Option ℕ → Bool
is_stale interval now none = false
is_stale interval now (some last) = leb (last + interval) now

-- The nanoseconds since the last call for a key; from the zero time on, a Duration's largest value.
unfoldable pub elapsed : ℕ → Option ℕ → ℕ
elapsed now none = 9223372036854775807
elapsed now (some last) = now - last

module _ {F : Type 0} (fl : Floats F) where
  unfoldable pub new_token_bucket_rate_limiter : ℕ → TokenBucketConfig F → TokenBucketRateLimiter F
  unfolding positive_or
  new_token_bucket_rate_limiter now cfg = record {
    rate = cfg.rate;
    burst = fl.of_int cfg.burst;
    cleanup_interval = positive_or cfg.cleanup_interval default_cleanup_interval;
    max_entries = positive_or cfg.max_entries 1;
    last_cleanup = now;
    last_update = [];
    tokens = [];
  }

  -- `1.0` and `0.0`
  abbrev pub one : F
  one = fl.of_int (pos 1)

  abbrev pub nothing : F
  nothing = fl.of_int (pos 0)

  unfoldable pub is_disabled : TokenBucketRateLimiter F → Bool
  is_disabled l = fl.le l.rate nothing || fl.le l.burst nothing

  -- `l.tokens[key]`, which is zero for a missing key.
  unfoldable pub tokens_of : Bytes → TokenBucketRateLimiter F → F
  tokens_of key l = elim (table_get key l.tokens) [ none ↦ nothing | some t ↦ t ]

  -- The tokens of a key once the time since its last call is added.
  unfoldable pub refilled : Bytes → ℕ → TokenBucketRateLimiter F → F
  unfolding elapsed tokens_of
  refilled key now l =
      let e = elapsed now (table_get key l.last_update) in
      if ltb 0 e
      then fl.min_of l.burst (fl.plus (tokens_of key l) (fl.times (fl.seconds e) l.rate))
      else tokens_of key l

module _ {F : Type 0} where
  unfoldable pub cleanup_locked : ℕ → TokenBucketRateLimiter F → TokenBucketRateLimiter F
  unfolding is_stale
  cleanup_locked now l =
      let keep = λ (k : Bytes). not (is_stale l.cleanup_interval now (table_get k l.last_update)) in
      record l {
        last_update = table_keep keep l.last_update;
        tokens = table_keep keep l.tokens;
        last_cleanup = now;
      }

  unfoldable pub set_bucket : Bytes → ℕ → F → TokenBucketRateLimiter F → TokenBucketRateLimiter F
  set_bucket key now left l = record l {
    last_update = table_set key now l.last_update;
    tokens = table_set key left l.tokens;
  }

  unfoldable pub sweep_if_due : ℕ → TokenBucketRateLimiter F → TokenBucketRateLimiter F
  unfolding cleanup_locked
  sweep_if_due now l =
      if ltb (l.last_cleanup + l.cleanup_interval) now then cleanup_locked now l else l

module _ {F : Type 0} (fl : Floats F) where
  -- The last part of Allow, for a key that has a bucket or may have one.
  unfoldable pub consume : Bytes → ℕ → TokenBucketRateLimiter F → Bool × TokenBucketRateLimiter F
  unfolding refilled set_bucket
  consume key now l =
      let tokens = refilled fl key now l in
      if fl.le (one fl) tokens
      then (true, set_bucket key now (fl.minus tokens (one fl)) l)
      else (false, set_bucket key now tokens l)

  -- Allow for a new key where the map is full.
  unfoldable pub admit_new : Bytes → ℕ → TokenBucketRateLimiter F → Bool × TokenBucketRateLimiter F
  unfolding cleanup_locked set_bucket
  admit_new key now l =
      let swept = cleanup_locked now l in
      if leb swept.max_entries (length swept.last_update)
      then (false, swept)
      else (true, set_bucket key now (fl.minus l.burst (one fl)) swept)

  -- Allow behind the periodic cleanup, by the last call for the key.
  unfoldable pub allow_found :
      Option ℕ → Bytes → ℕ → TokenBucketRateLimiter F → Bool × TokenBucketRateLimiter F
  unfolding consume admit_new
  allow_found (some last) key now l = consume key now l
  allow_found none key now l =
      if leb l.max_entries (length l.last_update) then admit_new key now l else consume key now l

  unfoldable pub allow_swept :
      Bytes → ℕ → TokenBucketRateLimiter F → Bool × TokenBucketRateLimiter F
  unfolding allow_found
  allow_swept key now l = allow_found (table_get key l.last_update) key now l

  -- TokenBucketRateLimiter.Allow at a time.
  unfoldable pub allow_key : Bytes → ℕ → TokenBucketRateLimiter F → Bool × TokenBucketRateLimiter F
  unfolding is_disabled allow_swept sweep_if_due
  allow_key key now l =
      if is_disabled fl l then (true, l) else allow_swept key now (sweep_if_due now l)
