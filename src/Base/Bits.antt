-- ===== src/Base/Bits.antt =====
-- Masks on bytes and 16-bit words as arithmetic: the native bit operations have no laws at
-- variables, so an equation over a word is a table of its values, checked by evaluation.
use Prim.Native.Nat.{ℕ, zero, suc, ◌+◌, ◌*◌, ◌/◌, ◌%◌, ◌<◌, bit_and, bit_xor}
use mathlib.Core.Path.{◌≡◌}
use mathlib.Core.Bool.{Bool, true, ◌&&◌}
use native.Mathlib.Omega.{arith}
use hydra_dns.Base.Tests.{◌==◌, ==_iff}

-- `a &^ b` on uint16.
unfoldable pub bit_clear16 : ℕ → ℕ → ℕ
bit_clear16 a b = bit_and a (bit_xor b 65535)

-- A test that holds at every number up to a bound, the bound left out.
unfoldable pub all_below : (ℕ → Bool) → ℕ → Bool
all_below test zero = true
all_below test (suc bound) = all_below test bound && test bound

all_below_at :
    (test : ℕ → Bool) {bound x : ℕ} → x < bound → all_below test bound ≡ true → test x ≡ true
unfolding all_below
all_below_at test {bound = zero} inside h = absurd (omega arith)
all_below_at test {bound = suc bound} {x = x} inside h =
    ground (arith, λ (before : x < bound). all_below_at test {bound = bound} {x = x} before)

-- Two functions with the same values at all bytes, or at all words.
unfoldable pub agree_on_bytes : (ℕ → ℕ) → (ℕ → ℕ) → Bool
unfolding all_below
agree_on_bytes f g = all_below (λ x. f x == g x) 256

unfoldable pub agree_on_words : (ℕ → ℕ) → (ℕ → ℕ) → Bool
unfolding all_below
agree_on_words f g =
    all_below (λ hi. all_below (λ lo. f (hi * 256 + lo) == g (hi * 256 + lo)) 256) 256

pub agree_on_bytes→eq : (f g : ℕ → ℕ) → agree_on_bytes f g ≡ true → (x : ℕ) → x < 256 → f x ≡ g x
unfolding agree_on_bytes
agree_on_bytes→eq f g e x h = (==_iff (f x) (g x)).0 (all_below_at (λ y. f y == g y) h e)

pub agree_on_words→eq : (f g : ℕ → ℕ) → agree_on_words f g ≡ true → (x : ℕ) → x < 65536 → f x ≡ g x
agree_on_words→eq f g e x h =
    at_parts (x / 256) (x % 256) x (omega arith) (omega arith) (omega arith)
  where
    rows : ℕ → Bool
    rows hi = all_below (λ lo. f (hi * 256 + lo) == g (hi * 256 + lo)) 256

    at_parts : (hi lo y : ℕ) → hi < 256 → lo < 256 → y ≡ hi * 256 + lo → f y ≡ g y
    at_parts hi lo y p q e' = rw e' (
        (==_iff _ _).0 (
          all_below_at (λ k. f (hi * 256 + k) == g (hi * 256 + k)) q
            (all_below_at rows p (unfold agree_on_words in e))))
