-- ===== src/Dns/Name/Decode.antt =====
-- DecodeName on any message, well formed or not.
use hydra_dns.Base.{
  ℕ, zero, suc, ◌+◌, ◌-◌, ◌≤◌, ◌<◌, ◌≡◌, [], ◌∷◌, ◌++◌, List, false, arith, leb, if◌then◌else◌,
  length, All, All-append, Result, Bytes, Returns, Returns-mono, take, drop, get_or, ◌*◌,
  uint16_at_lem, slice_lem, byte_at_lem, bit_and,
}
use hydra_dns.Dns.Name.{
  is_empty, any_non_ascii, read_label, join_labels, follow_compression_pointer, decode_loop,
  decode_name_at, decode_name,
}

abbrev pub IsAscii : ℕ → Type 0
IsAscii b = b < 128

pub any_non_ascii-false : (s : Bytes) → any_non_ascii s ≡ false → All IsAscii s
unfolding any_non_ascii
any_non_ascii-false [] h = tt
any_non_ascii-false (c ∷ cs) h = (ground arith, any_non_ascii-false cs (ground arith))

pub join_labels-IsAscii : (ls : List Bytes) → All (All IsAscii) ls → All IsAscii (join_labels ls)
unfolding join_labels
join_labels-IsAscii [] h = tt
join_labels-IsAscii (l ∷ []) h = h.0
join_labels-IsAscii (l ∷ m ∷ ls) h =
    All-append IsAscii l _ h.0 (omega arith, join_labels-IsAscii (m ∷ ls) h.1)

leb-false : (a b : ℕ) → leb a b ≡ false → b < a
leb-false a b h = ground arith

-- What a call at `off` hands back: ASCII bytes, and an offset that moved on within the message.
abbrev Moved : Bytes → ℕ → Bytes × ℕ → Type 0
Moved msg off r = (off < r.1) × (r.1 ≤ length msg) × All IsAscii r.0

Returns-read_label :
    (msg : Bytes) (off len : ℕ) → 0 < len → Returns (Moved msg off) (read_label msg off len)
unfolding read_label
Returns-read_label msg off len pos = ground (
  arith,
  slice_lem msg off (off + len),
  any_non_ascii-false (take (off + len - off) (drop off msg)),
)

-- The same of the loop, which hands back the labels.
abbrev Decoded : Bytes → ℕ → List Bytes × ℕ → Type 0
Decoded msg off r = (off < r.1) × (r.1 ≤ length msg) × All (All IsAscii) r.0

-- Where the name at the pointer's target decodes or is refused, so is the pointer: the offset
-- moves behind its second byte.
Returns-follow :
    (msg : Bytes) (decode : ℕ → List ℕ → Result (Bytes × ℕ))
    → ((ptr : ℕ) (seen : List ℕ) → Returns (λ r. All IsAscii r.0) (decode ptr seen))
    → (off first : ℕ) (visited : List ℕ)
    → Returns
        (λ r. (r.1 ≡ off + 1) × (r.1 ≤ length msg) × All IsAscii r.0)
        (follow_compression_pointer decode msg off first visited)
unfolding follow_compression_pointer
Returns-follow msg decode h off first visited =
    let second = get_or msg off 0 in
    let target = get_or (bit_and first 0x3F ∷ second ∷ []) 0 0 * 256 + second in
    ground (
      arith,
      byte_at_lem msg off,
      uint16_at_lem (bit_and first 0x3F ∷ second ∷ []) 0,
      h target (target ∷ visited),
    )

Returns-decode_loop :
    (follow : ℕ → ℕ → Result (Bytes × ℕ)) (msg : Bytes)
    → ((off first : ℕ)
        → Returns (λ r. (r.1 ≡ off + 1) × (r.1 ≤ length msg) × All IsAscii r.0) (follow off first))
    → (fuel off : ℕ) (labels : List Bytes) → length msg < fuel + off
    → off ≤ length msg
    → All (All IsAscii) labels
    → Returns (Decoded msg off) (decode_loop follow fuel msg off labels)
unfolding decode_loop is_empty
Returns-decode_loop follow msg h zero off labels e inside a = omega arith
Returns-decode_loop follow msg h (suc fuel) off labels e inside a =
    let len = get_or msg off 0 in
    let later = λ (r : Bytes × ℕ). decode_loop follow fuel msg r.1 (labels ++ (r.0 ∷ [])) in
    let more : 0 < len
        → off < length msg
        → Returns (λ r. Returns (Decoded msg off) (later r)) (read_label msg (off + 1) len) =
      λ pos room.
        Returns-mono (Moved msg (off + 1)) _ _ (Returns-read_label msg (off + 1) len pos) λ r m.
          Returns-mono (Decoded msg r.1) _ _
            (Returns-decode_loop follow msg h fuel r.1 (labels ++ (r.0 ∷ [])) (omega arith) m.1
              (All-append (All IsAscii) labels (r.0 ∷ []) a (m.2, tt)))
            λ s n. (omega arith, n.1, n.2) in
    let pointed =
      Returns-mono _
        (λ r.
          (r.1 ≡ off + 1 + 1)
          × (r.1 ≤ length msg)
          × All (All IsAscii) (if is_empty r.0 then labels else labels ++ (r.0 ∷ [])))
        (follow (off + 1) len) (h (off + 1) len) λ r m. (m.0, m.1, appended r.0 m.2) in
    ground (arith, byte_at_lem msg off, more, pointed)
  where
    appended :
        (rest : Bytes)
        → All IsAscii rest
        → All (All IsAscii) (if is_empty rest then labels else labels ++ (rest ∷ []))
    appended [] m = a
    appended (c ∷ cs) m = All-append (All IsAscii) labels ((c ∷ cs) ∷ []) a (m, tt)

Returns-decode_name_at :
    (levels : ℕ) (msg : Bytes) (off : ℕ) (visited : List ℕ)
    → Returns (Moved msg off) (decode_name_at levels msg off visited)
unfolding decode_name_at
Returns-decode_name_at zero msg off visited = tt
Returns-decode_name_at (suc levels) msg off visited =
    let deeper = decode_name_at levels msg in
    let deep = λ (ptr : ℕ) (seen : List ℕ).
      Returns-mono (Moved msg ptr) (λ r. All IsAscii r.0) (deeper ptr seen)
        (Returns-decode_name_at levels msg ptr seen) λ r m. m.2 in
    let follow = λ (at first : ℕ). follow_compression_pointer deeper msg at first visited in
    let pointed = λ (at first : ℕ). Returns-follow msg deeper deep at first visited in
    let loop = λ (room : off < length msg).
      Returns-mono (Decoded msg off) (λ r. Moved msg off (join_labels r.0, r.1)) _
        (Returns-decode_loop follow msg pointed (suc (length msg)) off [] (omega arith)
          (omega arith) tt)
        λ r d. (d.0, d.1, join_labels-IsAscii r.0 d.2) in
    ground (arith, loop)

-- DecodeName returns on every message and offset: it never indexes out of range and its loops
-- end. A name that it returns is ASCII, and the offset has moved on and stays within the message.
pub decode_name-Returns :
    (msg : Bytes) (off : ℕ)
    → Returns (λ r. (off < r.1) × (r.1 ≤ length msg) × All IsAscii r.0) (decode_name msg off)
unfolding decode_name
decode_name-Returns msg off = Returns-decode_name_at 21 msg off []
