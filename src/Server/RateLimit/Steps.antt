-- ===== src/Server/RateLimit/Steps.antt =====
-- Allow, by the branch that it takes.
use hydra_dns.Base.{ℕ, ◌+◌, ◌≡◌, refl, ap, ◌∙◌, true, false, ltb, leb, length, none, some, Bytes}
use hydra_dns.Base.Table.{table_get}
use hydra_dns.Server.RateLimit.{
  Floats, TokenBucketRateLimiter, one, is_disabled, cleanup_locked, set_bucket, consume, admit_new,
  allow_found, allow_swept, sweep_if_due, allow_key,
}

module _ {F : Type 0} (fl : Floats F) (key : Bytes) (now : ℕ) (l : TokenBucketRateLimiter F) where
  pub admit_new_full :
      leb l.max_entries (length (cleanup_locked now l).last_update) ≡ true
      → admit_new fl key now l ≡ (false, cleanup_locked now l)
  unfolding admit_new cleanup_locked
  admit_new_full h = rw (h) refl

  pub admit_new_room :
      leb l.max_entries (length (cleanup_locked now l).last_update) ≡ false
      → admit_new fl key now l
        ≡ (true, set_bucket key now (fl.minus l.burst (one fl)) (cleanup_locked now l))
  unfolding admit_new cleanup_locked set_bucket
  admit_new_room h = rw (h) refl

  pub allow_swept_known :
      (last : ℕ)
      → table_get key l.last_update ≡ some last
      → allow_swept fl key now l ≡ consume fl key now l
  unfolding allow_swept allow_found
  allow_swept_known last h = ap (λ o. allow_found fl o key now l) h

  pub allow_swept_full :
      table_get key l.last_update ≡ none
      → leb l.max_entries (length l.last_update) ≡ true
      → allow_swept fl key now l ≡ admit_new fl key now l
  unfolding allow_swept allow_found
  allow_swept_full h full = ap (λ o. allow_found fl o key now l) h ∙ rw (full) refl

  pub allow_swept_room :
      table_get key l.last_update ≡ none
      → leb l.max_entries (length l.last_update) ≡ false
      → allow_swept fl key now l ≡ consume fl key now l
  unfolding allow_swept allow_found
  allow_swept_room h room = ap (λ o. allow_found fl o key now l) h ∙ rw (room) refl

  pub allow_key_due :
      is_disabled fl l ≡ false
      → ltb (l.last_cleanup + l.cleanup_interval) now ≡ true
      → allow_key fl key now l ≡ allow_swept fl key now (cleanup_locked now l)
  unfolding allow_key sweep_if_due
  allow_key_due enabled due = rw (allow_key, enabled, sweep_if_due, due) refl

  pub allow_key_soon :
      is_disabled fl l ≡ false
      → ltb (l.last_cleanup + l.cleanup_interval) now ≡ false
      → allow_key fl key now l ≡ allow_swept fl key now l
  unfolding allow_key sweep_if_due
  allow_key_soon enabled soon = rw (allow_key, enabled, sweep_if_due, soon) refl
