-- ===== src/Server/RateLimit/Tiers.antt =====
-- internal/server/rate_limit.go: the limiter of all clients, of each network and of each address.
use hydra_dns.Base.{
  ℕ, suc, [], ◌∷◌, ◌++◌, Bool, true, false, ◌&&◌, ◌==◌, if◌then◌else◌, Option, none, some, Bytes,
}
use hydra_dns.Base.Int.{ℤ, pos}
use hydra_dns.Base.Text.{contains_byte}
use hydra_dns.Server.RateLimit.{
  Floats, TokenBucketRateLimiter, positive_or, default_cleanup_interval,
  new_token_bucket_rate_limiter, allow_key,
}

pub record RateLimiter (F : Type 0) : Type 0 where
  pub global : TokenBucketRateLimiter F
  pub prefix : TokenBucketRateLimiter F
  pub ip : TokenBucketRateLimiter F

pub record RateLimitSettings (F : Type 0) : Type 0 where
  pub cleanup_seconds : F
  pub max_ip_entries : ℤ
  pub max_prefix_entries : ℤ
  pub global_qps : F
  pub global_burst : ℤ
  pub prefix_qps : F
  pub prefix_burst : ℤ
  pub ip_qps : F
  pub ip_burst : ℤ

-- `time.Duration(math.Max(0.0, s.CleanupSeconds) * float64(time.Second))`, or sixty seconds where it
-- is not positive.
module _ {F : Type 0} (fl : Floats F) where
  unfoldable pub cleanup_interval_of : F → ℕ
  unfolding positive_or
  cleanup_interval_of s =
      positive_or (fl.duration (fl.max_of (fl.of_int (pos 0)) s)) default_cleanup_interval

  unfoldable pub new_rate_limiter : ℕ → RateLimitSettings F → RateLimiter F
  unfolding cleanup_interval_of new_token_bucket_rate_limiter
  new_rate_limiter now s =
      let interval = cleanup_interval_of s.cleanup_seconds in
      record {
        global = new_token_bucket_rate_limiter fl now (record {
          rate = s.global_qps;
          burst = s.global_burst;
          cleanup_interval = pos interval;
          max_entries = pos 1;
        });
        prefix = new_token_bucket_rate_limiter fl now (record {
          rate = s.prefix_qps;
          burst = s.prefix_burst;
          cleanup_interval = pos interval;
          max_entries = s.max_prefix_entries;
        });
        ip = new_token_bucket_rate_limiter fl now (record {
          rate = s.ip_qps;
          burst = s.ip_burst;
          cleanup_interval = pos interval;
          max_entries = s.max_ip_entries;
        });
      }

-- `*`, the one key of the global limiter.
abbrev pub global_key : Bytes
global_key = b'*' ∷ []

-- How the answers of the three limiters end the check: one that refuses leaves the later ones as
-- they are.
unfoldable pub combine_tiers :
    {F : Type 0}
    → RateLimiter F
    → Bool × TokenBucketRateLimiter F
    → Bool × TokenBucketRateLimiter F
    → Bool × TokenBucketRateLimiter F
    → Bool × RateLimiter F
combine_tiers r (false, global) p i = (false, record r { global = global })
combine_tiers r (true, global) (false, prefix) i =
    (false, record r { global = global; prefix = prefix })
combine_tiers r (true, global) (true, prefix) (passed, ip) =
    (passed, record { global = global; prefix = prefix; ip = ip })

-- The three limiters in turn, which ask for the time one after another.
unfoldable pub allow_tiers :
    {F : Type 0} → Floats F → Bytes → Bytes → ℕ → ℕ → ℕ → RateLimiter F → Bool × RateLimiter F
allow_tiers fl prefix_key ip_key t0 t1 t2 r =
    combine_tiers r (allow_key fl global_key t0 r.global) (allow_key fl prefix_key t1 r.prefix)
      (allow_key fl ip_key t2 r.ip)

-- `ip[:dotPositions[2]]`, where there are three dots.
unfoldable pub three_octets : ℕ → Bytes → Option Bytes
three_octets dots [] = none
three_octets dots (c ∷ cs) =
    let rest = three_octets (if c == b'.' then suc dots else dots) cs in
    if c == b'.' && dots == 2
    then some []
    else (elim rest [ none ↦ none | some front ↦ some (c ∷ front) ])

-- `v4:`, `v6:`, `ip:`, `.0/24` and `/64`.
abbrev pub v4_mark : Bytes
v4_mark = b'v' ∷ b'4' ∷ b':' ∷ []

abbrev pub v6_mark : Bytes
v6_mark = b'v' ∷ b'6' ∷ b':' ∷ []

abbrev pub ip_mark : Bytes
ip_mark = b'i' ∷ b'p' ∷ b':' ∷ []

abbrev pub slash_24 : Bytes
slash_24 = b'.' ∷ b'0' ∷ b'/' ∷ b'2' ∷ b'4' ∷ []

abbrev pub slash_64 : Bytes
slash_64 = b'/' ∷ b'6' ∷ b'4' ∷ []

-- prefixKey. `network_64` is netip's ParseAddr with the text of the masked prefix of 64 bits,
-- `none` for an error.
unfoldable pub prefix_key : (Bytes → Option Bytes) → Bytes → Bytes
unfolding three_octets
prefix_key network_64 ip =
    if contains_byte b':' ip
    then (elim (network_64 ip) [
      | some network ↦ v6_mark ++ (network ++ slash_64)
      | none ↦ v6_mark ++ ip
    ])
    else (elim (three_octets 0 ip) [
      | some front ↦ v4_mark ++ (front ++ slash_24)
      | none ↦ ip_mark ++ ip
    ])

-- RateLimiter.Allow at the times of the three calls.
unfoldable pub allow_ip :
    {F : Type 0}
    → Floats F
    → (Bytes → Option Bytes)
    → Bytes
    → ℕ
    → ℕ
    → ℕ
    → RateLimiter F
    → Bool × RateLimiter F
unfolding allow_tiers prefix_key
allow_ip fl network_64 ip t0 t1 t2 r = allow_tiers fl (prefix_key network_64 ip) ip t0 t1 t2 r

-- What the limiter uses of netip.Addr.
pub record AddrText {ℓ} (A : Type ℓ) : Type ℓ where
  pub is_4 : A → Bool
  pub prefix_text : ℕ → A → Bytes
  pub text : A → Bytes

unfoldable pub prefix_key_from_addr {ℓ} : {A : Type ℓ} → AddrText A → A → Bytes
prefix_key_from_addr addrs a = addrs.prefix_text (if addrs.is_4 a then 24 else 64) a

-- RateLimiter.AllowAddr at the times of the three calls.
unfoldable pub allow_addr {ℓ} :
    {A : Type ℓ} {F : Type 0}
    → Floats F
    → AddrText A
    → A
    → ℕ
    → ℕ
    → ℕ
    → RateLimiter F
    → Bool × RateLimiter F
unfolding allow_tiers prefix_key_from_addr
allow_addr fl addrs a t0 t1 t2 r =
    allow_tiers fl (prefix_key_from_addr addrs a) (addrs.text a) t0 t1 t2 r
