-- ===== src/Base/Reads.antt =====
-- What the accessors of Base/Wire read: inside a slice, behind a prefix, and what was written.
use hydra_dns.Base.Tests.{lt→ltb}
use hydra_dns.Base.Lists.{
  length, get_or, take, drop, All, length-append, get_or-append_add, take-append, drop-append,
}
use hydra_dns.Base.Fallible.{ok, Returns}
use hydra_dns.Base.Wire.{
  Bytes, IsByte, IsU16, IsU32, byte_at, slice, put_uint16, put_uint32, uint16_at, uint32_at,
}
use Prim.Native.Nat.{ℕ, zero, suc, ◌+◌, ◌-◌, ◌*◌, ◌≤◌, ◌<◌}
use mathlib.Core.Path.{◌≡◌, refl, ap, sym, ◌∙◌}
use mathlib.Core.List.{[], ◌∷◌, ◌++◌, append_assoc}
use native.Mathlib.Omega.{arith}
use native.Mathlib.Nat.{add_assoc, add-zero}

pub byte_at_lem : (msg : Bytes) (i : ℕ) → i < length msg → byte_at msg i ≡ ok (get_or msg i 0)
unfolding byte_at
byte_at_lem msg i h = rw (lt→ltb _ _ h)

get_or-IsByte : (msg : Bytes) (i : ℕ) → All IsByte msg → get_or msg i 0 < 256
get_or-IsByte [] i h = omega arith
get_or-IsByte (x ∷ xs) zero h = h.0
get_or-IsByte (x ∷ xs) (suc i) h = get_or-IsByte xs i h.1

pub uint16_at_lem :
    (msg : Bytes) (i : ℕ)
    → i + 2 ≤ length msg
    → uint16_at msg i ≡ ok (get_or msg i 0 * 256 + get_or msg (i + 1) 0)
unfolding uint16_at
uint16_at_lem msg i h = rw (byte_at_lem msg i (omega arith), byte_at_lem msg (i + 1) (omega arith))

pub uint32_at_lem :
    (msg : Bytes) (i : ℕ)
    → i + 4 ≤ length msg
    → uint32_at msg i
      ≡ ok (
          (get_or msg i 0 * 256 + get_or msg (i + 1) 0) * 65536
          + (get_or msg (i + 2) 0 * 256 + get_or msg (i + 2 + 1) 0))
unfolding uint32_at
uint32_at_lem msg i h =
    rw (uint16_at_lem msg i (omega arith), uint16_at_lem msg (i + 2) (omega arith))

-- In range a read returns, and what it reads from bytes fits the word.
pub Returns-byte_at :
    (msg : Bytes) (i : ℕ) → i < length msg → All IsByte msg → Returns IsByte (byte_at msg i)
Returns-byte_at msg i h bytes = rw (byte_at_lem msg i h) ((get_or-IsByte msg i bytes))

pub Returns-uint16_at :
    (msg : Bytes) (i : ℕ) → i + 2 ≤ length msg → All IsByte msg → Returns IsU16 (uint16_at msg i)
Returns-uint16_at msg i h bytes =
    rw (uint16_at_lem msg i h)
      ((omega (arith, get_or-IsByte msg i bytes, get_or-IsByte msg (i + 1) bytes)))

pub Returns-uint32_at :
    (msg : Bytes) (i : ℕ) → i + 4 ≤ length msg → All IsByte msg → Returns IsU32 (uint32_at msg i)
unfolding uint32_at
Returns-uint32_at msg i h bytes =
    rw (uint16_at_lem msg i (omega arith), uint16_at_lem msg (i + 2) (omega arith))
      ((omega (
        arith,
        get_or-IsByte msg i bytes,
        get_or-IsByte msg (i + 1) bytes,
        get_or-IsByte msg (i + 2) bytes,
        get_or-IsByte msg (i + 2 + 1) bytes,
      )))

pub slice_lem :
    (msg : Bytes) (lo hi : ℕ)
    → lo ≤ hi
    → hi ≤ length msg
    → slice msg lo hi ≡ ok (take (hi - lo) (drop lo msg))
unfolding slice
slice_lem msg lo hi h k = ground arith

-- Behind a prefix.
pub byte_at-append : (pre xs : Bytes) (i : ℕ) → byte_at (pre ++ xs) (length pre + i) ≡ byte_at xs i
unfolding byte_at
byte_at-append pre xs i = ground (arith, length-append pre xs, get_or-append_add pre xs i 0)

pub uint16_at-append :
    (pre xs : Bytes) (i : ℕ) → uint16_at (pre ++ xs) (length pre + i) ≡ uint16_at xs i
unfolding uint16_at
uint16_at-append pre xs i =
    rw (byte_at-append pre xs i, add_assoc (length pre) i 1, byte_at-append pre xs (i + 1))

pub uint32_at-append :
    (pre xs : Bytes) (i : ℕ) → uint32_at (pre ++ xs) (length pre + i) ≡ uint32_at xs i
unfolding uint32_at
uint32_at-append pre xs i =
    rw (uint16_at-append pre xs i, add_assoc (length pre) i 2, uint16_at-append pre xs (i + 2))

-- A slice of exactly what stands behind a prefix.
pub slice-append :
    (pre xs post : Bytes)
    → slice (pre ++ (xs ++ post)) (length pre) (length pre + length xs) ≡ ok xs
slice-append pre xs post =
    slice_lem _ _ _ (omega arith)
      (omega (arith, length-append pre (xs ++ post), length-append xs post))
    ∙ rw (sub_self (length pre) (length xs), drop-append pre (xs ++ post), take-append xs post)
  where
    sub_self : (a b : ℕ) → a + b - a ≡ b
    sub_self a b = omega arith

-- Words are read back as they were written.
pub uint16_at-put_uint16 :
    (v : ℕ) (rest : Bytes) → IsU16 v → uint16_at (put_uint16 v ++ rest) 0 ≡ ok v
unfolding uint16_at put_uint16 byte_at
uint16_at-put_uint16 v rest h = ground arith

pub uint32_at-put_uint32 :
    (v : ℕ) (rest : Bytes) → IsU32 v → uint32_at (put_uint32 v ++ rest) 0 ≡ ok v
unfolding uint32_at uint16_at put_uint32 byte_at
uint32_at-put_uint32 v rest h = ground arith

-- A word `n` bytes into what stands behind a prefix.
pub uint16_at_field :
    (pre xs rest : Bytes) (v n : ℕ)
    → n ≡ length xs
    → IsU16 v
    → uint16_at (pre ++ (xs ++ (put_uint16 v ++ rest))) (length pre + n) ≡ ok v
uint16_at_field pre xs rest v n e h =
    uint16_at-append pre (xs ++ (put_uint16 v ++ rest)) n
    ∙ rw (e ∙ sym (add-zero (length xs)))
        (uint16_at-append xs (put_uint16 v ++ rest) 0 ∙ uint16_at-put_uint16 v rest h)

pub uint32_at_field :
    (pre xs rest : Bytes) (v n : ℕ)
    → n ≡ length xs
    → IsU32 v
    → uint32_at (pre ++ (xs ++ (put_uint32 v ++ rest))) (length pre + n) ≡ ok v
uint32_at_field pre xs rest v n e h =
    uint32_at-append pre (xs ++ (put_uint32 v ++ rest)) n
    ∙ rw (e ∙ sym (add-zero (length xs)))
        (uint32_at-append xs (put_uint32 v ++ rest) 0 ∙ uint32_at-put_uint32 v rest h)

pub uint16_at_here :
    (pre rest : Bytes) (v : ℕ)
    → IsU16 v
    → uint16_at (pre ++ (put_uint16 v ++ rest)) (length pre) ≡ ok v
uint16_at_here pre rest v h =
    ap (uint16_at (pre ++ (put_uint16 v ++ rest))) (sym (add-zero (length pre)))
    ∙ uint16_at_field pre [] rest v 0 refl h

-- The same with a piece of unknown length between, such as a name.
pub uint16_at_behind :
    (pre xs ys rest : Bytes) (v n : ℕ)
    → n ≡ length ys
    → IsU16 v
    → uint16_at (pre ++ (xs ++ (ys ++ (put_uint16 v ++ rest)))) (length pre + length xs + n) ≡ ok v
uint16_at_behind pre xs ys rest v n e h =
    rw (append_assoc pre xs (ys ++ (put_uint16 v ++ rest)), length-append pre xs) at
      (uint16_at_field (pre ++ xs) ys rest v n e h)

pub uint32_at_behind :
    (pre xs ys rest : Bytes) (v n : ℕ)
    → n ≡ length ys
    → IsU32 v
    → uint32_at (pre ++ (xs ++ (ys ++ (put_uint32 v ++ rest)))) (length pre + length xs + n) ≡ ok v
uint32_at_behind pre xs ys rest v n e h =
    rw (append_assoc pre xs (ys ++ (put_uint32 v ++ rest)), length-append pre xs) at
      (uint32_at_field (pre ++ xs) ys rest v n e h)

pub uint16_at_next :
    (pre xs rest : Bytes) (v : ℕ)
    → IsU16 v
    → uint16_at (pre ++ (xs ++ (put_uint16 v ++ rest))) (length pre + length xs) ≡ ok v
uint16_at_next pre xs rest v h = uint16_at_field pre xs rest v (length xs) refl h
