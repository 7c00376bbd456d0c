-- ===== src/Base/Wire.antt =====
-- Byte slices and the big-endian accessors of encoding/binary, with Go's bounds checks.
use hydra_dns.Base.Tests.{leb, ltb, if◌then◌else◌}
use hydra_dns.Base.Lists.{length, get_or, take, drop}
use hydra_dns.Base.Fallible.{Result, ok, err, panic, ◌>>=◌}
use Prim.Native.Nat.{ℕ, ◌+◌, ◌-◌, ◌*◌, ◌/◌, ◌%◌, ◌<◌}
use mathlib.Core.Bool.{◌&&◌}
use mathlib.Core.List.{List, [], ◌∷◌}

abbrev pub Bytes : Type 0
Bytes = List ℕ

abbrev pub IsByte : ℕ → Type 0
IsByte b = b < 256

abbrev pub IsU16 : ℕ → Type 0
IsU16 v = v < 65536

abbrev pub IsU32 : ℕ → Type 0
IsU32 v = v < 4294967296

-- `msg[i]`
unfoldable pub byte_at : Bytes → ℕ → Result ℕ
byte_at msg i = if ltb i (length msg) then ok (get_or msg i 0) else err panic

-- `msg[lo:hi]`
unfoldable pub slice : Bytes → ℕ → ℕ → Result Bytes
slice msg lo hi =
    if leb lo hi && leb hi (length msg) then ok (take (hi - lo) (drop lo msg)) else err panic

-- `binary.BigEndian.PutUint16` and `PutUint32` into a fresh field.
unfoldable pub put_uint16 : ℕ → Bytes
put_uint16 v = (v / 256 % 256) ∷ (v % 256) ∷ []

unfoldable pub put_uint32 : ℕ → Bytes
put_uint32 v = (v / 16777216 % 256) ∷ (v / 65536 % 256) ∷ (v / 256 % 256) ∷ (v % 256) ∷ []

-- `binary.BigEndian.Uint16(msg[i : i+2])`
unfoldable pub uint16_at : Bytes → ℕ → Result ℕ
uint16_at msg i = do hi ← byte_at msg i; lo ← byte_at msg (i + 1); ok (hi * 256 + lo)

-- `binary.BigEndian.Uint32(msg[i : i+4])`
unfoldable pub uint32_at : Bytes → ℕ → Result ℕ
uint32_at msg i = do hi ← uint16_at msg i; lo ← uint16_at msg (i + 2); ok (hi * 65536 + lo)
