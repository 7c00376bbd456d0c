-- ===== src/Dns/Name.antt =====
-- internal/dns/codec.go: domain names. A Go string is its bytes. Decoding returns the advanced
-- offset beside the name; the error paths drop it, as every caller of the code does.
pub mod Encode
pub mod Decode
pub mod RoundTrip
use hydra_dns.Base.{
  ℕ, zero, suc, ◌+◌, ◌-◌, ◌*◌, ◌%◌, [], ◌∷◌, ◌++◌, List, map, Bool, true, false, not, ◌&&◌, ◌||◌,
  arith, ltb, leb, ◌==◌, if◌then◌else◌, length, Result, ok, err, ◌>>=◌, ◌>>◌, fail_if, Bytes,
  byte_at, slice, uint16_at, bit_and, unexpected_eof, too_many_pointers, pointer_out_of_bounds,
  pointer_loop, reserved_label, non_ascii, empty_name, empty_label, label_too_long, name_too_long,
  out_of_fuel,
}

unfoldable pub is_empty : Bytes → Bool
is_empty [] = true
is_empty (c ∷ cs) = false

-- `strings.ToLower` on ASCII; bytes from 0x80 on are left alone.
unfoldable pub lower_byte : ℕ → ℕ
lower_byte c = if leb b'A' c && leb c b'Z' then c + 32 else c

unfoldable pub to_lower : Bytes → Bytes
unfolding lower_byte
to_lower = map lower_byte

-- `strings.TrimSuffix(s, ".")`: one trailing dot.
unfoldable pub trim_suffix_dot : Bytes → Bytes
trim_suffix_dot [] = []
trim_suffix_dot (c ∷ []) = if c == b'.' then [] else c ∷ []
trim_suffix_dot (c ∷ d ∷ cs) = c ∷ trim_suffix_dot (d ∷ cs)

unfoldable pub normalize_name : Bytes → Bytes
unfolding to_lower trim_suffix_dot
normalize_name name = to_lower (trim_suffix_dot name)

-- `trimDot` drops every trailing dot: a dot goes exactly if all that follows it goes.
unfoldable pub trim_dot : Bytes → Bytes
unfolding is_empty
trim_dot [] = []
trim_dot (c ∷ cs) = let rest = trim_dot cs in if c == b'.' && is_empty rest then [] else c ∷ rest

unfoldable pub any_non_ascii : Bytes → Bool
any_non_ascii [] = false
any_non_ascii (c ∷ cs) = ltb 0x7F c || any_non_ascii cs

-- The body of EncodeName's `if`: one label is checked and appended.
unfoldable pub append_label : Bytes → Bytes → Result Bytes
unfolding is_empty
append_label label out = do
  fail_if (is_empty label) empty_label
  fail_if (any_non_ascii label) non_ascii
  fail_if (ltb 63 (length label)) label_too_long
  ok (out ++ ((length label % 256) ∷ label))

-- EncodeName's loop: `label` is domain[labelStart:i], and the list is domain[i:].
unfoldable pub encode_loop : Bytes → Bytes → Bytes → Result Bytes
encode_loop label [] out = append_label label out
encode_loop label (c ∷ cs) out =
    if c == b'.'
    then append_label label out >>= (λ out'. encode_loop [] cs out')
    else encode_loop (label ++ (c ∷ [])) cs out

-- What EncodeName does with a domain without trailing dots.
unfoldable pub encode_trimmed : Bytes → Result Bytes
encode_trimmed [] = ok (0 ∷ [])
encode_trimmed (c ∷ cs) = do
  body ← encode_loop [] (c ∷ cs) []
  let out = body ++ (0 ∷ [])
  fail_if (ltb 255 (length out)) name_too_long
  ok out

unfoldable pub encode_name : Bytes → Result Bytes
encode_name [] = err empty_name
encode_name (c ∷ cs) = encode_trimmed (trim_dot (c ∷ cs))

unfoldable pub is_compression_pointer : ℕ → Bool
is_compression_pointer b = bit_and b 0xC0 == 0xC0

unfoldable pub has_reserved_bits : ℕ → Bool
has_reserved_bits b = not (bit_and b 0xC0 == 0)

unfoldable pub read_label : Bytes → ℕ → ℕ → Result (Bytes × ℕ)
read_label msg off len = do
  fail_if (ltb (length msg) (off + len)) unexpected_eof
  label ← slice msg off (off + len)
  fail_if (any_non_ascii label) non_ascii
  ok (label, off + len)

unfoldable pub join_labels : List Bytes → Bytes
join_labels [] = []
join_labels (l ∷ []) = l
join_labels (l ∷ m ∷ ls) = l ++ (b'.' ∷ join_labels (m ∷ ls))

unfoldable pub visited_before : ℕ → List ℕ → Bool
visited_before ptr [] = false
visited_before ptr (v ∷ vs) = ptr == v || visited_before ptr vs

-- `decode` is decodeName one level deeper, at an offset and with the visited offsets.
unfoldable pub follow_compression_pointer :
    (ℕ → List ℕ → Result (Bytes × ℕ)) → Bytes → ℕ → ℕ → List ℕ → Result (Bytes × ℕ)
follow_compression_pointer decode msg off first_byte visited = do
  fail_if (leb (length msg) off) unexpected_eof
  second ← byte_at msg off
  ptr ← uint16_at (bit_and first_byte 0x3F ∷ second ∷ []) 0
  fail_if (leb (length msg) ptr) pointer_out_of_bounds
  fail_if (visited_before ptr visited) pointer_loop
  (rest, _) ← decode ptr (ptr ∷ visited)
  ok (rest, off + 1)

-- The loop of decodeName, on fuel. `follow` is followCompressionPointer; the loop ends behind a
-- pointer, so what the call adds to the visited offsets is not read again.
unfoldable pub decode_loop :
    (ℕ → ℕ → Result (Bytes × ℕ)) → ℕ → Bytes → ℕ → List Bytes → Result (List Bytes × ℕ)
decode_loop follow zero msg off labels = err out_of_fuel
decode_loop follow (suc fuel) msg off labels = do
  fail_if (leb (length msg) off) unexpected_eof
  label_len ← byte_at msg off
  if label_len == 0
      then ok (labels, off + 1)
      else (if is_compression_pointer label_len
          then (follow (off + 1) label_len >>= (λ (rest, off').
              ok ((if is_empty rest then labels else labels ++ (rest ∷ [])), off')))
          else (fail_if (has_reserved_bits label_len) reserved_label
              >> (read_label msg (off + 1) label_len >>= (λ (label, off').
                  decode_loop follow fuel msg off' (labels ++ (label ∷ []))))))

-- decodeName: `levels` is maxCompressionDepth + 1 - depth.
unfoldable pub decode_name_at : ℕ → Bytes → ℕ → List ℕ → Result (Bytes × ℕ)
decode_name_at zero msg off visited = err too_many_pointers
decode_name_at (suc levels) msg off visited = do
  fail_if (leb (length msg) off) unexpected_eof
  (labels, off') ←
      decode_loop
        (λ at first.
          follow_compression_pointer (λ ptr seen. decode_name_at levels msg ptr seen) msg at first
            visited)
        (suc (length msg)) msg off []
  ok (join_labels labels, off')

abbrev pub max_compression_depth : ℕ
max_compression_depth = 20

unfoldable pub decode_name : Bytes → ℕ → Result (Bytes × ℕ)
decode_name msg off = decode_name_at (max_compression_depth + 1) msg off []
