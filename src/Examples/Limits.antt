-- ===== src/Examples/Limits.antt =====
-- A bucket of two tokens, with whole numbers for floats: a second brings one token.
use hydra_dns.Base.{ℕ, ◌≡◌, refl, ◌+◌, ◌-◌, ◌*◌, ◌/◌, min, max, leb, [], ◌∷◌, true, false, Bytes}
use hydra_dns.Base.Int.{pos, pos_part}
use hydra_dns.Server.RateLimit.{
  Floats, TokenBucketConfig, TokenBucketRateLimiter, new_token_bucket_rate_limiter, allow_key,
}
use hydra_dns.Server.RateLimit.Entries.{made, asked, IsLimited, BucketReachable-IsLimited}

-- A client.
abbrev client : Bytes
client = b'a' ∷ []

abbrev whole : Floats ℕ
whole = record {
  of_int = pos_part;
  plus = λ x y. x + y;
  minus = λ x y. x - y;
  times = λ x y. x * y;
  min_of = λ x y. min x y;
  max_of = λ x y. max x y;
  le = λ x y. leb x y;
  seconds = λ n. n / 1000000000;
  duration = λ x. pos (x * 1000000000);
}

abbrev one_each_second : TokenBucketConfig ℕ
one_each_second = record {
  rate = 1;
  burst = pos 2;
  cleanup_interval = pos 60000000000;
  max_entries = pos 2;
}

abbrev at_start : TokenBucketRateLimiter ℕ
at_start = new_token_bucket_rate_limiter whole 0 one_each_second

abbrev after_one : TokenBucketRateLimiter ℕ
after_one = (allow_key whole client 0 at_start).1

abbrev after_two : TokenBucketRateLimiter ℕ
after_two = (allow_key whole client 1 after_one).1

second_admitted : (allow_key whole client 1 after_one).0 ≡ true
unfolding allow_key new_token_bucket_rate_limiter hydra_dns.Base.Table.table_get
    hydra_dns.Base.bytes_eq hydra_dns.Base.Table.table_set
second_admitted = refl

third_refused : (allow_key whole client 2 after_two).0 ≡ false
unfolding allow_key new_token_bucket_rate_limiter hydra_dns.Base.Table.table_get
    hydra_dns.Base.bytes_eq hydra_dns.Base.Table.table_set
third_refused = refl

BucketReachable-IsLimited_example : IsLimited after_one
BucketReachable-IsLimited_example =
    BucketReachable-IsLimited whole after_one (asked client 0 at_start (made 0 one_each_second))
