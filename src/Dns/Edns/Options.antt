-- ===== src/Dns/Edns/Options.antt =====
-- EDNS options: parsing returns on every RDATA, and reads back what was marshalled.
use hydra_dns.Base.{
  ℕ, zero, suc, ◌+◌, ◌-◌, ◌*◌, ◌≤◌, ◌<◌, ◌≡◌, refl, ap, ◌∙◌, [], ◌∷◌, ◌++◌, List, true, false, ◌&&◌,
  arith, ltb, leb, ltb→ge, if◌then◌else◌, length, drop, get_or, length-append, length-take,
  length-drop, append_assoc, append-nil, Bool-cases, inl, inr, ◌⊎◌, All, ok, Result-cases, Succeeds,
  Succeeds-value, ◌>>=◌, Bytes, IsU16, put_uint16, uint16_at, uint16_at_lem, uint16_at_here,
  uint16_at_field, slice, slice_lem, slice-append,
}
use hydra_dns.Base.Int.{pos}
use hydra_dns.Convert.{clamp_int_to_uint16, clamp_int_to_uint16_small}
use hydra_dns.Dns.Edns.{
  EdnsOption, is_allowed_edns_option, marshal_option, parse_options_loop, parse_edns_options,
  marshal_edns_options, edns_max_option_data_size,
}

-- COOKIE or PADDING, of at most 4096 bytes.
abbrev pub IsKept : EdnsOption → Type 0
IsKept o = ((o.code ≡ 10) ⊎ (o.code ≡ 12)) × (length o.content ≤ 4096)

Succeeds-parse_options_loop :
    (fuel : ℕ) (rdata : Bytes) (i : ℕ)
    → length rdata < fuel + i
    → i ≤ length rdata
    → Succeeds (All IsKept) (parse_options_loop fuel rdata i)
unfolding parse_options_loop
Succeeds-parse_options_loop zero rdata i h inside = absurd (omega arith)
Succeeds-parse_options_loop (suc fuel) rdata i h inside =
    let ln = get_or rdata (i + 2) 0 * 256 + get_or rdata (i + 2 + 1) 0 in
    let more = λ (small : i + 4 + ln ≤ length rdata).
      Succeeds-parse_options_loop fuel rdata (i + 4 + ln) (omega arith) small in
    ground (
      arith,
      uint16_at_lem rdata i,
      uint16_at_lem rdata (i + 2),
      slice_lem rdata (i + 4) (i + 4 + ln),
      length-take (i + 4 + ln - (i + 4)) (drop (i + 4) rdata),
      length-drop (i + 4) rdata,
      more,
    )

-- ParseEDNSOptions returns on every RDATA, without an error: its loop ends and never indexes out
-- of range. What it hands back are COOKIE and PADDING options of at most 4096 bytes.
pub parse_edns_options_total :
    (rdata : Bytes) → (os : List EdnsOption) × (parse_edns_options rdata ≡ ok os) × All IsKept os
unfolding parse_edns_options
parse_edns_options_total rdata =
    Succeeds-value (All IsKept) _
      (Succeeds-parse_options_loop (suc (length rdata)) rdata 0 (omega arith) (omega arith))

-- What of a list of options a receiver keeps.
unfoldable pub kept : List EdnsOption → List EdnsOption
kept [] = []
kept (o ∷ os) =
    if leb (length o.content) edns_max_option_data_size && is_allowed_edns_option o.code
    then o ∷ kept os
    else kept os

marshal_option_size : (o : EdnsOption) → length (marshal_option o) ≡ 4 + length o.content
unfolding marshal_option put_uint16
marshal_option_size o = omega arith

module _ (o : EdnsOption) (pre post : Bytes) where
  option_message : Bytes
  option_message = pre ++ (marshal_option o ++ post)

  -- The header and the content of an option, read where it stands.
  option_fields :
      IsU16 o.code
      → length o.content ≤ edns_max_option_data_size
      → (uint16_at option_message (length pre) ≡ ok o.code)
        × (uint16_at option_message (length pre + 2) ≡ ok (length o.content))
        × (slice option_message (length pre + 4) (length pre + 4 + length o.content) ≡ ok o.content)
  unfolding option_message marshal_option put_uint16
  option_fields a b =
      let n = clamp_int_to_uint16 (pos (length o.content)) in
      let small : n ≡ length o.content =
        clamp_int_to_uint16_small (length o.content) (omega arith) in
      let fields = put_uint16 o.code ++ put_uint16 n in
      let content =
        rw (append_assoc pre fields (o.content ++ post), length-append pre fields) at
          (slice-append (pre ++ fields) o.content post) in
      (
        uint16_at_here pre _ o.code a,
        uint16_at_field pre (put_uint16 o.code) (o.content ++ post) n 2 refl (omega (arith, small))
            ∙ ap ok small,
        content,
      )

  option_room : length pre + 4 + length o.content ≤ length option_message
  unfolding option_message
  option_room = omega (
    arith,
    length-append pre (marshal_option o ++ post),
    length-append (marshal_option o) post,
    marshal_option_size o,
  )

-- One round of the loop over a written option: kept, or passed over.
parse_options_loop_round :
    (fuel : ℕ) (o : EdnsOption) (pre post : Bytes)
    → IsU16 o.code
    → length o.content ≤ edns_max_option_data_size
    → parse_options_loop (suc fuel) (option_message o pre post) (length pre) ≡ (
        parse_options_loop fuel (option_message o pre post) (length pre + 4 + length o.content)
        >>= (λ os. ok (if is_allowed_edns_option o.code then o ∷ os else os)))
unfolding parse_options_loop
parse_options_loop_round fuel o pre post a b =
    let (code, ln, content) = option_fields o pre post a b in
    let rest =
      parse_options_loop fuel (option_message o pre post) (length pre + 4 + length o.content) in
    elim (Result-cases rest) [
      | inl (os, e) ↦ ground (arith, code, ln, content, option_room o pre post, e)
      | inr (why, e) ↦ ground (arith, code, ln, content, option_room o pre post, e)
    ]

-- An oversized option is neither written nor kept, any other is written.
marshal_oversized :
    (o : EdnsOption) (os : List EdnsOption)
    → ltb edns_max_option_data_size (length o.content) ≡ true
    → (marshal_edns_options (o ∷ os) ≡ marshal_edns_options os) × (kept (o ∷ os) ≡ kept os)
unfolding marshal_edns_options kept
marshal_oversized o os h = (rw h, ground arith)

marshal_fitting :
    (o : EdnsOption) (os : List EdnsOption)
    → ltb edns_max_option_data_size (length o.content) ≡ false
    → (marshal_edns_options (o ∷ os) ≡ marshal_option o ++ marshal_edns_options os)
      × (kept (o ∷ os) ≡ (if is_allowed_edns_option o.code then o ∷ kept os else kept os))
unfolding marshal_edns_options kept
marshal_fitting o os h = (rw h, ground arith)

parse_options_loop-marshal :
    (os : List EdnsOption) (fuel : ℕ) (pre : Bytes)
    → All (λ o. IsU16 o.code) os
    → length (marshal_edns_options os) < fuel
    → parse_options_loop fuel (pre ++ marshal_edns_options os) (length pre) ≡ ok (kept os)
unfolding option_message
parse_options_loop-marshal os zero pre c h = absurd (omega arith)
parse_options_loop-marshal [] (suc fuel) pre c h =
    unfold parse_options_loop marshal_edns_options kept in ground (arith, append-nil pre)
parse_options_loop-marshal (o ∷ os) (suc fuel) pre c h =
    elim (Bool-cases (ltb edns_max_option_data_size (length o.content))) [
      | inl big ↦
          let (same, dropped) = marshal_oversized o os big in
          rw (same, dropped)
            (parse_options_loop-marshal os (suc fuel) pre c.1 (omega (arith, ap length same)))
      | inr small ↦
          let (same, dropped) = marshal_fitting o os small in
          let fits : length o.content ≤ 4096 = ltb→ge _ _ small in
          let m = marshal_edns_options os in
          let size = length-append (marshal_option o) m in
          let longer : length (pre ++ marshal_option o) ≡ length pre + 4 + length o.content =
            omega (arith, length-append pre (marshal_option o), marshal_option_size o) in
          let later =
            rw (append_assoc pre (marshal_option o) m, longer) at
              (parse_options_loop-marshal os fuel (pre ++ marshal_option o) c.1
                (omega (arith, ap length same, size, marshal_option_size o))) in
          rw (same, dropped) (parse_options_loop_round fuel o pre m c.0 fits ∙ rw later)
    ]

-- For 16-bit codes, ParseEDNSOptions reads back, in order, the options that MarshalEDNSOptions was
-- given and that are COOKIE or PADDING of at most 4096 bytes, and drops the others.
pub parse_edns_options-marshal :
    (os : List EdnsOption)
    → All (λ o. IsU16 o.code) os
    → parse_edns_options (marshal_edns_options os) ≡ ok (kept os)
unfolding parse_edns_options
parse_edns_options-marshal os c = parse_options_loop-marshal os _ [] c (omega arith)
