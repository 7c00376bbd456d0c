-- ===== src/Dns/Name/Encode.antt =====
-- EncodeName as labels: it succeeds exactly on the names whose labels are fit, and writes them.
use hydra_dns.Base.{
  ℕ, ◌≤◌, ◌<◌, ◌≡◌, ◌↔◌, refl, sym, ap, ◌∙◌, [], ◌∷◌, ◌++◌, List, true, false, arith, ◌==◌, length,
  All, length-append, ok, Bytes, append_assoc, append-nil, Bool-cases, inl, inr, >>=-eq-ok, ==_iff,
}
use hydra_dns.Dns.Name.{
  is_empty, any_non_ascii, append_label, encode_loop, encode_trimmed, encode_name, join_labels,
  trim_dot,
}
use hydra_dns.Dns.Name.Decode.{IsAscii, any_non_ascii-false}

-- The labels of what is left of a domain, of which `label` has been read.
unfoldable pub split_dots : Bytes → Bytes → List Bytes
split_dots label [] = label ∷ []
split_dots label (c ∷ cs) = elim (c == b'.') [
  | true ↦ label ∷ split_dots [] cs
  | false ↦ split_dots (label ++ (c ∷ [])) cs
]

split_dots_dot :
    (label : Bytes) (c : ℕ) (cs : Bytes)
    → (c == b'.') ≡ true
    → split_dots label (c ∷ cs) ≡ label ∷ split_dots [] cs
unfolding split_dots
split_dots_dot label c cs h = ground arith

split_dots_other :
    (label : Bytes) (c : ℕ) (cs : Bytes)
    → (c == b'.') ≡ false
    → split_dots label (c ∷ cs) ≡ split_dots (label ++ (c ∷ [])) cs
unfolding split_dots
split_dots_other label c cs h = ground arith

-- The labels, each behind its length.
unfoldable pub wire : List Bytes → Bytes
wire [] = []
wire (l ∷ ls) = (length l ∷ l) ++ wire ls

abbrev pub IsLabel : Bytes → Type 0
IsLabel l = (0 < length l) × (length l ≤ 63) × All IsAscii l

pub any_non_ascii_of_IsAscii : (s : Bytes) → All IsAscii s → any_non_ascii s ≡ false
unfolding any_non_ascii
any_non_ascii_of_IsAscii [] h = refl
any_non_ascii_of_IsAscii (c ∷ cs) h = ground (arith, any_non_ascii_of_IsAscii cs)

append_label-IsLabel : (l out : Bytes) → IsLabel l → append_label l out ≡ ok (out ++ (length l ∷ l))
unfolding append_label is_empty
append_label-IsLabel [] out h = absurd (omega arith)
append_label-IsLabel (c ∷ cs) out h = ground (arith, any_non_ascii_of_IsAscii (c ∷ cs))

append_label_ok :
    (l out w : Bytes) → append_label l out ≡ ok w → IsLabel l × (w ≡ out ++ (length l ∷ l))
unfolding append_label is_empty
append_label_ok [] out w h = cc
append_label_ok (c ∷ cs) out w h = ground (arith, any_non_ascii-false (c ∷ cs))

encode_loop_ok :
    (label rest out w : Bytes)
    → encode_loop label rest out ≡ ok w
    → All IsLabel (split_dots label rest) × (w ≡ out ++ wire (split_dots label rest))
unfolding encode_loop wire
encode_loop_ok label [] out w h =
    unfold split_dots in ground (arith, append_label_ok label out w, append-nil label)
encode_loop_ok label (c ∷ cs) out w h = elim (Bool-cases (c == b'.')) [
  | inl dot ↦
      let (out', e, more) =
        >>=-eq-ok (append_label label out) (λ o. encode_loop [] cs o) (rw dot at h) in
      let (fit, e') = append_label_ok label out out' e in
      let (fits, e'') = encode_loop_ok [] cs out' w more in
      rw (split_dots_dot label c cs dot)
        ((fit, fits), e'' ∙ rw e' (append_assoc out (length label ∷ label) _))
  | inr other ↦
      rw (split_dots_other label c cs other)
        (encode_loop_ok (label ++ (c ∷ [])) cs out w (rw other at h))
]

encode_loop-IsLabel :
    (label rest out : Bytes)
    → All IsLabel (split_dots label rest)
    → encode_loop label rest out ≡ ok (out ++ wire (split_dots label rest))
unfolding encode_loop
encode_loop-IsLabel label [] out h =
    unfold split_dots wire in rw (append-nil label) (append_label-IsLabel label out h.0)
encode_loop-IsLabel label (c ∷ cs) out h = elim (Bool-cases (c == b'.')) [
  | inl dot ↦
      let fits : IsLabel label × All IsLabel (split_dots [] cs) =
        rw (split_dots_dot label c cs dot) at h in
      rw (split_dots_dot label c cs dot, dot, append_label-IsLabel label out fits.0)
        (encode_loop-IsLabel [] cs (out ++ (length label ∷ label)) fits.1
          ∙ ap ok (unfold wire in append_assoc out (length label ∷ label) _))
  | inr other ↦
      rw (split_dots_other label c cs other, other)
        (encode_loop-IsLabel (label ++ (c ∷ [])) cs out
          (rw (split_dots_other label c cs other) at h))
]

join_labels-cons :
    (l label rest : Bytes)
    → join_labels (l ∷ split_dots label rest) ≡ l ++ (b'.' ∷ join_labels (split_dots label rest))
join_labels-cons l label [] = unfold join_labels split_dots in refl
join_labels-cons l label (c ∷ cs) = elim (Bool-cases (c == b'.')) [
  | inl dot ↦ rw (split_dots_dot label c cs dot) (unfold join_labels in refl)
  | inr other ↦ rw (split_dots_other label c cs other) (join_labels-cons l (label ++ (c ∷ [])) cs)
]

-- Joined, the labels are the domain.
pub join_labels-split_dots :
    (label rest : Bytes) → join_labels (split_dots label rest) ≡ label ++ rest
join_labels-split_dots label [] = unfold join_labels split_dots in sym (append-nil label)
join_labels-split_dots label (c ∷ cs) = elim (Bool-cases (c == b'.')) [
  | inl dot ↦
      rw (split_dots_dot label c cs dot)
        (join_labels-cons label [] cs ∙ rw (join_labels-split_dots [] cs, (==_iff c b'.').0 dot))
  | inr other ↦
      rw (split_dots_other label c cs other)
        (join_labels-split_dots (label ++ (c ∷ [])) cs ∙ append_assoc label (c ∷ []) cs)
]

-- What EncodeName writes for a domain, its trailing dots dropped.
unfoldable pub name_wire : Bytes → Bytes
name_wire [] = 0 ∷ []
name_wire (c ∷ cs) = wire (split_dots [] (c ∷ cs)) ++ (0 ∷ [])

abbrev pub IsName : Bytes → Type 0
IsName [] = Unit
IsName (c ∷ cs) =
    All IsLabel (split_dots [] (c ∷ cs)) × (length (wire (split_dots [] (c ∷ cs))) < 255)

encode_trimmed_iff :
    (name w : Bytes) → (encode_trimmed name ≡ ok w) ↔ (IsName name × (w ≡ name_wire name))
unfolding encode_trimmed name_wire
encode_trimmed_iff [] w = ground arith
encode_trimmed_iff (c ∷ cs) w = (there, back)
  where
    ls : List Bytes
    ls = split_dots [] (c ∷ cs)

    there : encode_trimmed (c ∷ cs) ≡ ok w → IsName (c ∷ cs) × (w ≡ name_wire (c ∷ cs))
    there h =
        let (body, e, more) = >>=-eq-ok (encode_loop [] (c ∷ cs) []) _ h in
        let (fits, e') = encode_loop_ok [] (c ∷ cs) [] body e in
        ground (arith, more, e', fits, length-append (wire ls) (0 ∷ []))

    back : IsName (c ∷ cs) × (w ≡ name_wire (c ∷ cs)) → encode_trimmed (c ∷ cs) ≡ ok w
    back h =
        ground (arith, encode_loop-IsLabel [] (c ∷ cs) [] h.0.0, length-append (wire ls) (0 ∷ []))

-- EncodeName succeeds exactly if the domain is not empty, each label between its dots, the
-- trailing ones dropped, has 1 to 63 ASCII bytes, and the encoding has at most 255 bytes. It then
-- writes each label behind its length, and a zero byte.
pub encode_name_iff :
    (name w : Bytes)
    → (encode_name name ≡ ok w)
      ↔ ((is_empty name ≡ false) × IsName (trim_dot name) × (w ≡ name_wire (trim_dot name)))
unfolding encode_name is_empty
encode_name_iff [] w = ground arith
encode_name_iff (c ∷ cs) w =
    let i = encode_trimmed_iff (trim_dot (c ∷ cs)) w in
    (λ h. (refl, (i.0 h).0, (i.0 h).1), λ h. i.1 (h.1, h.2))
