-- ===== src/Dns/Name/RoundTrip.antt =====
-- DecodeName reads back what EncodeName wrote, wherever it stands in a message.
use hydra_dns.Base.{
  ℕ, zero, suc, ◌+◌, ◌*◌, ◌/◌, ◌≤◌, ◌<◌, ◌≡◌, refl, sym, ap, ◌∙◌, [], ◌∷◌, ◌++◌, List, arith,
  length, All, length-append, Result, ok, Bytes, append_assoc, append-nil, byte_at, byte_at-append,
  slice-append, agree_on_bytes, agree_on_bytes→eq, bit_and,
}
use hydra_dns.Dns.Name.{
  read_label, is_compression_pointer, has_reserved_bits, decode_loop, decode_name_at, decode_name,
  encode_name, join_labels, trim_dot, follow_compression_pointer,
}
use hydra_dns.Dns.Name.Encode.{
  IsLabel, IsName, wire, split_dots, name_wire, encode_name_iff, join_labels-split_dots,
  any_non_ascii_of_IsAscii,
}
use native.Mathlib.Nat.{add-zero, add_assoc}

high_bits : (b : ℕ) → b < 256 → bit_and b 0xC0 ≡ b / 64 * 64
unfolding agree_on_bytes
high_bits = agree_on_bytes→eq _ _ refl

read_label_here :
    (pre l post : Bytes)
    → IsLabel l
    → read_label (pre ++ (l ++ post)) (length pre) (length l) ≡ ok (l, length pre + length l)
unfolding read_label
read_label_here pre l post h = ground (
  arith,
  slice-append pre l post,
  any_non_ascii_of_IsAscii l h.2,
  length-append pre (l ++ post),
  length-append l post,
)

-- The same behind the length byte.
read_label_behind :
    (pre l post : Bytes) (b : ℕ)
    → IsLabel l
    → read_label (pre ++ (b ∷ (l ++ post))) (length pre + 1) (length l)
      ≡ ok (l, length pre + 1 + length l)
read_label_behind pre l post b h =
    rw (append_assoc pre (b ∷ []) (l ++ post), length-append pre (b ∷ [])) at
      (read_label_here (pre ++ (b ∷ [])) l post h)

byte_at_here : (pre rest : Bytes) (b : ℕ) → byte_at (pre ++ (b ∷ rest)) (length pre) ≡ ok b
unfolding byte_at
byte_at_here pre rest b =
    ap (byte_at (pre ++ (b ∷ rest))) (sym (add-zero (length pre)))
    ∙ byte_at-append pre (b ∷ rest) 0
    ∙ ground arith

module _ (follow : ℕ → ℕ → Result (Bytes × ℕ)) where
  -- One round of the loop on a label, and on the byte that ends the name.
  decode_loop_label :
      (fuel : ℕ) (pre l rest : Bytes) (acc : List Bytes)
      → IsLabel l
      → decode_loop follow (suc fuel) (pre ++ (length l ∷ (l ++ rest))) (length pre) acc
        ≡ decode_loop follow fuel
            (pre ++ (length l ∷ (l ++ rest)))
            (length pre + 1 + length l)
            (acc ++ (l ∷ []))
  unfolding decode_loop is_compression_pointer has_reserved_bits
  decode_loop_label fuel pre l rest acc h = ground (
    arith,
    byte_at_here pre (l ++ rest) (length l),
    high_bits (length l),
    read_label_behind pre l rest (length l) h,
    length-append pre (length l ∷ (l ++ rest)),
  )

  decode_loop_end :
      (fuel : ℕ) (pre rest : Bytes) (acc : List Bytes)
      → decode_loop follow (suc fuel) (pre ++ (0 ∷ rest)) (length pre) acc
        ≡ ok (acc, length pre + 1)
  unfolding decode_loop
  decode_loop_end fuel pre rest acc =
      ground (arith, byte_at_here pre rest 0, length-append pre (0 ∷ rest))

  -- The loop over written labels, the byte that ends them, and anything behind it.
  decode_loop-wire :
      (ls : List Bytes) (fuel : ℕ) (pre post : Bytes) (acc : List Bytes)
      → All IsLabel ls
      → length ls < fuel
      → decode_loop follow fuel (pre ++ (wire ls ++ (0 ∷ post))) (length pre) acc
        ≡ ok (acc ++ ls, length pre + length (wire ls) + 1)
  unfolding wire
  decode_loop-wire ls zero pre post acc h e = absurd (omega arith)
  decode_loop-wire [] (suc fuel) pre post acc h e =
      decode_loop_end fuel pre post acc ∙ rw (append-nil acc, add-zero)
  decode_loop-wire (l ∷ ls) (suc fuel) pre post acc h e =
      let pre' : Bytes = pre ++ (length l ∷ l) in
      let rest : Bytes = wire ls ++ (0 ∷ post) in
      let longer : length pre' ≡ length pre + 1 + length l =
        omega (arith, length-append pre (length l ∷ l)) in
      let same : pre ++ (length l ∷ (l ++ rest)) ≡ pre' ++ rest =
        sym (append_assoc pre (length l ∷ l) rest) in
      rw (append_assoc l (wire ls) (0 ∷ post)) (
        decode_loop_label fuel pre l rest acc h.0
        ∙ rw (same, ← longer)
            (decode_loop-wire ls fuel pre' post (acc ++ (l ∷ [])) h.1 (omega arith))
        ∙ ap ok (λ i. (append_assoc acc (l ∷ []) ls i, total i)))
    where
      total :
          length (pre ++ (length l ∷ l)) + length (wire ls) + 1
          ≡ length pre + length (length l ∷ (l ++ wire ls)) + 1
      total = omega (arith, length-append pre (length l ∷ l), length-append l (wire ls))

length-le-wire : (ls : List Bytes) → length ls ≤ length (wire ls)
unfolding wire
length-le-wire [] = omega arith
length-le-wire (l ∷ ls) = omega (arith, length-le-wire ls, length-append l (wire ls))

-- Written labels, read by the whole decoder.
decode_name-wire :
    (ls : List Bytes) (pre post : Bytes)
    → All IsLabel ls
    → decode_name (pre ++ (wire ls ++ (0 ∷ post))) (length pre)
      ≡ ok (join_labels ls, length pre + length (wire ls) + 1)
unfolding decode_name decode_name_at
decode_name-wire ls pre post h =
    let msg : Bytes = pre ++ (wire ls ++ (0 ∷ post)) in
    let follow =
      λ (at first : ℕ). follow_compression_pointer (decode_name_at 20 msg) msg at first [] in
    let size = length-append pre (wire ls ++ (0 ∷ post)) in
    let size' = length-append (wire ls) (0 ∷ post) in
    let loop =
      decode_loop-wire follow ls (suc (length msg)) pre post [] h
        (omega (arith, length-le-wire ls, size, size')) in
    ground (arith, loop, size, size')

pub decode_name-name_wire :
    (name pre post : Bytes)
    → IsName name
    → decode_name (pre ++ (name_wire name ++ post)) (length pre)
      ≡ ok (name, length pre + length (name_wire name))
unfolding name_wire wire
decode_name-name_wire [] pre post h =
    decode_name-wire [] pre post tt
    ∙ ap ok {x = (join_labels [], length pre + 0 + 1)} (λ i. (root i, moved i))
  where
    root : join_labels [] ≡ []
    root = unfold join_labels in refl

    moved : length pre + 0 + 1 ≡ length pre + 1
    moved = omega arith
decode_name-name_wire (c ∷ cs) pre post h =
    let ls = split_dots [] (c ∷ cs) in
    rw (append_assoc (wire ls) (0 ∷ []) post, length-append (wire ls) (0 ∷ []))
      (decode_name-wire ls pre post h.0
        ∙ rw (join_labels-split_dots [] (c ∷ cs), add_assoc (length pre) _ 1))

-- A name that EncodeName accepts is decoded from what it wrote, behind any prefix and in front of
-- anything: DecodeName answers the name without its trailing dots, and stops behind the encoding.
pub decode_name-encode_name :
    (name w pre post : Bytes)
    → encode_name name ≡ ok w
    → decode_name (pre ++ (w ++ post)) (length pre) ≡ ok (trim_dot name, length pre + length w)
decode_name-encode_name name w pre post h =
    let (_, fit, e) = (encode_name_iff name w).0 h in
    rw e (decode_name-name_wire (trim_dot name) pre post fit)
