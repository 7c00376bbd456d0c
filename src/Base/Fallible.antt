-- ===== src/Base/Fallible.antt =====
-- Go's (value, error) pairs: the errors of internal/dns by their messages. `panic` stands for an
-- index or slice out of range, and `out_of_fuel` is no Go value: a loop of the model ran out.
use Prim.Native.Nat.{ℕ}
use mathlib.Core.Path.{◌≡◌, refl}
use mathlib.Core.Logic.{◌⊎◌, inl, inr}
use mathlib.Core.Bool.{Bool, true, false}

pub data Error : Type 0 where
  unexpected_eof too_many_pointers pointer_out_of_bounds pointer_loop reserved_label : Error
  non_ascii empty_name empty_label label_too_long name_too_long : Error
  bad_ip_length bad_ip rdata_mismatch rdata_too_large not_raw_bytes : Error
  message_too_large qr_set too_many_questions bad_question_count too_many_records : Error
  too_many_total_records : Error
  bad_opcode : ℕ → Error
  panic out_of_fuel : Error

pub data Result {ℓ} (A : Type ℓ) : Type ℓ where
  ok : A → Result A
  err : Error → Result A

-- `if failed { return err }`
abbrev pub fail_if : Bool → Error → Result (Unit {0})
fail_if true e = err e
fail_if false e = ok tt

-- An error that the code returns, and neither a crash nor a loop that does not end.
abbrev pub IsReturned : Error → Type 0
IsReturned panic = ⊥
IsReturned out_of_fuel = ⊥
IsReturned _ = Unit

-- The call returns: an error of its own, or a value with the property.
abbrev pub Returns {ℓ} : {A : Type ℓ} → (A → Type 0) → Result A → Type 0
Returns P (ok a) = P a
Returns P (err e) = IsReturned e

infixl 5 ◌>>=◌ ◌>>◌
abbrev pub ◌>>=◌ {ℓ κ} : {A : Type ℓ} {B : Type κ} → Result A → (A → Result B) → Result B
err why >>= next = err why
ok value >>= next = next value

abbrev pub ◌>>◌ {ℓ} : {B : Type ℓ} → Result (Unit {0}) → Result B → Result B
err why >> next = err why
ok done >> next = next

module _ {ℓ κ} {A : Type ℓ} {B : Type κ} where
  pub >>=-eq-ok :
      {out : B} (first : Result A) (next : A → Result B)
      → (first >>= next) ≡ ok out
      → (value : A) × (first ≡ ok value) × (next value ≡ ok out)
  >>=-eq-ok (err why) next h = cc
  >>=-eq-ok (ok value) next h = (value, refl, h)

pub Returns-eq {ℓ} :
    {A : Type ℓ} (P : A → Type 0) (r : Result A) (a : A) → Returns P r → r ≡ ok a → P a
Returns-eq P r a h e = rw e at h

pub Returns-mono {ℓ} :
    {A : Type ℓ} (P Q : A → Type 0) (r : Result A)
    → Returns P r
    → ((a : A) → P a → Q a)
    → Returns Q r
Returns-mono P Q (ok a) h k = k a h
Returns-mono P Q (err e) h k = h

pub Result-cases {ℓ} :
    {A : Type ℓ} (r : Result A) → ((a : A) × (r ≡ ok a)) ⊎ ((e : Error) × (r ≡ err e))
Result-cases (ok a) = inl (a, refl)
Result-cases (err e) = inr (e, refl)

-- The call returns a value with the property, and no error.
abbrev pub Succeeds {ℓ} : {A : Type ℓ} → (A → Type 0) → Result A → Type 0
Succeeds P (ok a) = P a
Succeeds P (err e) = ⊥

pub Succeeds-value {ℓ} :
    {A : Type ℓ} (P : A → Type 0) (r : Result A) → Succeeds P r → (a : A) × (r ≡ ok a) × P a
Succeeds-value P (ok a) h = (a, refl, h)
Succeeds-value P (err e) h = absurd h
