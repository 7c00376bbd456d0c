-- ===== src/Filtering/Parser/Lines.antt =====
-- The scanner of a list: the lines of a text that was written line by line.
use hydra_dns.Base.{
  ◌≡◌, ◌<◌, refl, ap, sym, arith, [], ◌∷◌, ◌++◌, List, false, ◌==◌, leb, length, Bytes,
  append_assoc, append-nil, All,
}
use hydra_dns.Base.Text.{contains_byte}
use hydra_dns.Dns.Name.{is_empty}
use hydra_dns.Filtering.Parser.{max_token, drop_cr, scan_lines}

-- Each line with LF behind it.
unfoldable pub unlines : List Bytes → Bytes
unlines [] = []
unlines (l ∷ ls) = l ++ (10 ∷ unlines ls)

-- A line without LF and CR that the buffer of the scanner holds.
abbrev pub IsLine : Bytes → Type 0
IsLine l = (contains_byte 10 l ≡ false) × (contains_byte 13 l ≡ false) × (length l < max_token)

drop_cr-none : (s : Bytes) → contains_byte 13 s ≡ false → drop_cr s ≡ s
unfolding drop_cr contains_byte
drop_cr-none [] h = refl
drop_cr-none (c ∷ []) h = ground arith
drop_cr-none (c ∷ d ∷ cs) h = ap (◌∷◌ c) (drop_cr-none (d ∷ cs) (ground (arith, h)))

scan_lines-end :
    (line rest : Bytes)
    → length line < max_token
    → scan_lines line (10 ∷ rest) ≡ (drop_cr line ∷ (scan_lines [] rest).0, (scan_lines [] rest).1)
unfolding scan_lines
scan_lines-end line rest short =
    let fits : leb max_token (length line) ≡ false = ground arith in rw (fits) refl

scan_lines-line :
    (read line rest : Bytes)
    → contains_byte 10 line ≡ false
    → length (read ++ line) < max_token
    → scan_lines read (line ++ (10 ∷ rest))
      ≡ (drop_cr (read ++ line) ∷ (scan_lines [] rest).0, (scan_lines [] rest).1)
unfolding scan_lines contains_byte
scan_lines-line read [] rest no_lf short =
    rw (append-nil read) (scan_lines-end read rest (rw (sym (append-nil read)) short))
scan_lines-line read (c ∷ cs) rest no_lf short =
    let other : (c == 10) ≡ false = ground arith in
    let later : contains_byte 10 cs ≡ false = ground arith in
    let same : (read ++ (c ∷ [])) ++ cs ≡ read ++ (c ∷ cs) = append_assoc read (c ∷ []) cs in
    rw (other, sym same) (scan_lines-line (read ++ (c ∷ [])) cs rest later (rw same short))

-- The scanner delivers the lines of a text that was written line by line.
pub scan_lines-unlines :
    (ls : List Bytes) → All IsLine ls → scan_lines [] (unlines ls) ≡ (ls, false)
unfolding scan_lines unlines is_empty
scan_lines-unlines [] h = refl
scan_lines-unlines (l ∷ ls) h =
    let (no_lf, no_cr, short) = h.0 in
    rw
      (
        scan_lines-line [] l (unlines ls) no_lf short,
        scan_lines-unlines ls h.1,
        drop_cr-none l no_cr,
      )
      refl
