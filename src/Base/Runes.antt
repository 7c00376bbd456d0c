-- ===== src/Base/Runes.antt =====
-- Go's loop over the runes of a string: UTF-8, where a byte that begins no encoding is the rune
-- 0xFFFD.
use hydra_dns.Base.{
  ℕ, zero, suc, ◌+◌, ◌-◌, ◌*◌, ◌<◌, ◌≡◌, arith, [], ◌∷◌, List, Bool, true, false, ◌&&◌, ltb, leb,
  ◌==◌, if◌then◌else◌, get_or, Bytes,
}

-- A byte that continues an encoding.
unfoldable pub continues : ℕ → Bool
continues b = leb 128 b && leb b 191

-- The second byte of an encoding of three or four bytes, by the first: no longer encoding than is
-- needed, no surrogate, and nothing above 0x10FFFF.
unfoldable pub second_of : ℕ → ℕ → Bool
second_of c b =
    leb (if c == 224 then 160 else if c == 240 then 144 else 128) b
    && leb b (if c == 237 then 159 else if c == 244 then 143 else 191)

-- A rune by its first byte and three bytes behind it, with its width.
unfoldable pub decode_bytes : ℕ → ℕ → ℕ → ℕ → ℕ × ℕ
decode_bytes c b1 b2 b3 =
    if ltb c 128
    then (c, 1)
    else (if leb 194 c && (leb c 223 && continues b1)
        then ((c - 192) * 64 + (b1 - 128), 2)
        else (if leb 224 c && (leb c 239 && (second_of c b1 && continues b2))
            then ((c - 224) * 4096 + (b1 - 128) * 64 + (b2 - 128), 3)
            else (if leb 240 c && (leb c 244 && (second_of c b1 && (continues b2 && continues b3)))
                then ((c - 240) * 262144 + (b1 - 128) * 4096 + (b2 - 128) * 64 + (b3 - 128), 4)
                else (65533, 1))))

-- A byte that is not there continues nothing.
unfoldable pub decode_rune : ℕ → Bytes → ℕ × ℕ
unfolding decode_bytes
decode_rune c cs = decode_bytes c (get_or cs 0 0) (get_or cs 1 0) (get_or cs 2 0)

-- The runes, behind so many bytes that belong to the one before.
unfoldable pub runes : ℕ → Bytes → List ℕ
unfolding decode_rune
runes skip [] = []
runes (suc skip) (c ∷ cs) = runes skip cs
runes zero (c ∷ cs) = (decode_rune c cs).0 ∷ runes ((decode_rune c cs).1 - 1) cs

-- The first bytes, so many, are there and not ASCII.
unfoldable pub starts_high : ℕ → Bytes → Bool
starts_high zero s = true
starts_high (suc n) [] = false
starts_high (suc n) (c ∷ cs) = leb 128 c && starts_high n cs

pub decode_rune_ascii : (c : ℕ) (cs : Bytes) → c < 128 → decode_rune c cs ≡ (c, 1)
unfolding decode_rune decode_bytes
decode_rune_ascii c cs h = ground (arith, h)

-- The bytes behind the first one of a rune are not ASCII.
pub decode_rune-starts_high :
    (c : ℕ) (cs : Bytes) → starts_high ((decode_rune c cs).1 - 1) cs ≡ true
unfolding decode_rune decode_bytes continues second_of starts_high
decode_rune-starts_high c [] = ground arith
decode_rune-starts_high c (b1 ∷ []) = ground arith
decode_rune-starts_high c (b1 ∷ b2 ∷ []) = ground arith
decode_rune-starts_high c (b1 ∷ b2 ∷ b3 ∷ cs) = ground arith
