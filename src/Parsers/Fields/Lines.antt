-- ===== src/Parsers/Fields/Lines.antt =====
-- parsers/*/*.go: an output of JSON lines, each printed from an object, gives the records of the objects.
use gibson_tool_runner.Base.{
  ℕ, suc, ◌+◌, ◌<◌, Bytes, false, List, [], ◌∷◌, ◌++◌, none, some, ◌≡◌, refl, ap, ◌∙◌, arith, eqb,
  leb, length, map, foldl, All, trim_space, trim_space_visible,
}
use gibson_tool_runner.Graph.{DiscoveryResult}
use gibson_tool_runner.Registry.{ParseQuality}
use gibson_tool_runner.Json.{Members, object}
use gibson_tool_runner.Json.Parser.{max_depth}
use gibson_tool_runner.Json.Print.{print, IsGood}
use gibson_tool_runner.Json.Print.Laws.{print_braces, print-Stays}
use gibson_tool_runner.Json.Fields.{Field, set_members, unmarshal}
use gibson_tool_runner.Json.Fields.Laws.{known, unmarshal-print}
use gibson_tool_runner.Parsers.Lines.{
  record_of, scan, scan_lines, drop_cr, max_token, is_skipped, loop, finished, conclude,
}
use gibson_tool_runner.Parsers.Lines.Laws.{
  records, records_record, loop_record, quality_of, conclude_finished,
}
use gibson_tool_runner.Parsers.Lines.Split.{IsLine, join_lines, split_lines-join_lines}

-- The line of an object.
abbrev pub line_of : Members → Bytes
line_of ms = print (object ms)

pub drop_cr_end :
    (body : Bytes) (d : ℕ) → eqb d b'\r' ≡ false → drop_cr (body ++ (d ∷ [])) ≡ body ++ (d ∷ [])
unfolding drop_cr
drop_cr_end [] d h = rw h refl
drop_cr_end (c ∷ []) d h = rw h refl
drop_cr_end (c ∷ c' ∷ body) d h = ap (◌∷◌ c) (drop_cr_end (c' ∷ body) d h)

pub drop_cr-line_of : (ms : Members) → drop_cr (line_of ms) ≡ line_of ms
drop_cr-line_of ms = let (body, e) = print_braces ms in rw e (drop_cr_end (b'{' ∷ body) b'}' refl)

trim_space-line_of : (ms : Members) → trim_space (line_of ms) ≡ line_of ms
trim_space-line_of ms =
    let (body, e) = print_braces ms in
    rw e (trim_space_visible b'{' b'}' body (omega arith, omega arith) (omega arith, omega arith))

pub is_skipped-line_of : (ms : Members) → is_skipped (line_of ms) ≡ false
unfolding is_skipped
is_skipped-line_of ms = let (body, e) = print_braces ms in rw e refl

-- A line fits the scanner.
abbrev pub FitsLine : Members → Type 0
FitsLine ms = length (line_of ms) < max_token

-- It does so with a comma behind it.
abbrev pub FitsComma : Members → Type 0
FitsComma ms = length (line_of ms) + 1 < max_token

scan_lines_kept :
    (limit : ℕ) (mss : List Members)
    → All (λ ms. length (line_of ms) < limit) mss
    → scan_lines limit (map line_of mss) ≡ record { tokens = map line_of mss; error = none }
unfolding scan_lines
scan_lines_kept limit [] h = refl
scan_lines_kept limit (ms ∷ mss) (h, hs) =
    let rest = scan_lines_kept limit mss hs in
    let short : leb limit (length (line_of ms)) ≡ false = ground arith in
    rw (short, drop_cr-line_of ms, rest) refl

-- A text of lines of this kind.
abbrev pub text_of : List Members → Bytes
text_of mss = join_lines (map line_of mss)

-- An object whose lines a parser with these fields takes for the record: its texts and keys are plain
-- ASCII, its line fits the scanner, and the members that have a field make up the record.
module _ {R : Type 0} (fields : List (Field R)) (zero_value : R) where
  abbrev pub Says : Members → R → Type 0
  Says ms r =
      IsGood max_depth (object ms)
      × FitsLine ms
      × (set_members fields (known fields ms) zero_value ≡ some r)

  abbrev pub Written : List Members → List R → Type 0
  Written [] [] = Unit
  Written (ms ∷ mss) (r ∷ rs) = Says ms r × Written mss rs
  Written _ _ = ⊥

  pub decode-line_of :
      (ms : Members) (r : R) → Says ms r → unmarshal fields zero_value (line_of ms) ≡ record_of r
  decode-line_of ms r (g, f, e) = unmarshal-print fields max_depth ms zero_value r (omega arith) g e

  are_lines : (mss : List Members) (rs : List R) → Written mss rs → All IsLine (map line_of mss)
  are_lines [] rs h = tt
  are_lines (ms ∷ mss) [] h = elim h [ ]
  are_lines (ms ∷ mss) (r ∷ rs) ((g, f, e), h) =
      (print-Stays max_depth (object ms) g, are_lines mss rs h)

  fit_lines : (mss : List Members) (rs : List R) → Written mss rs → All FitsLine mss
  fit_lines [] rs h = tt
  fit_lines (ms ∷ mss) [] h = elim h [ ]
  fit_lines (ms ∷ mss) (r ∷ rs) ((g, f, e), h) = (f, fit_lines mss rs h)

  scan-text_of :
      (mss : List Members) (rs : List R)
      → Written mss rs
      → scan (text_of mss) ≡ record { tokens = map line_of mss; error = none }
  unfolding scan
  scan-text_of mss rs h =
      rw (split_lines-join_lines (map line_of mss) (are_lines mss rs h))
        (scan_lines_kept max_token mss (fit_lines mss rs h))

  records-text_of :
      (mss : List Members) (rs : List R)
      → Written mss rs
      → records trim_space (unmarshal fields zero_value) (map line_of mss) ≡ rs
  unfolding records
  records-text_of [] [] h = refl
  records-text_of [] (r ∷ rs) h = elim h [ ]
  records-text_of (ms ∷ mss) [] h = elim h [ ]
  records-text_of (ms ∷ mss) (r ∷ rs) (h, hs) =
      records_record trim_space (unmarshal fields zero_value) (line_of ms) (line_of ms)
        (map line_of mss) r (trim_space-line_of ms) (is_skipped-line_of ms) (decode-line_of ms r h)
      ∙ ap (◌∷◌ r) (records-text_of mss rs hs)

  pub lines_of-text_of :
      (mss : List Members) (rs : List R)
      → Written mss rs
      → records trim_space (unmarshal fields zero_value) (scan (text_of mss)).tokens ≡ rs
  lines_of-text_of mss rs h = rw (scan-text_of mss rs h) (records-text_of mss rs h)

  module _ {S : Type 0} (step : S → R → S) where
    loop-text_of :
        (mss : List Members) (rs : List R) (s : S) (n : ℕ)
        → Written mss rs
        → loop trim_space (unmarshal fields zero_value) step (map line_of mss) s n
          ≡ finished (foldl step s rs) (n + length rs)
    unfolding loop
    loop-text_of [] [] s n h = ap (finished s) (omega arith)
    loop-text_of [] (r ∷ rs) s n h = elim h [ ]
    loop-text_of (ms ∷ mss) [] s n h = elim h [ ]
    loop-text_of (ms ∷ mss) (r ∷ rs) s n (h, hs) =
        loop_record trim_space (unmarshal fields zero_value) step (line_of ms) (line_of ms)
          (map line_of mss) r s n (trim_space-line_of ms) (is_skipped-line_of ms)
          (decode-line_of ms r h)
        ∙ loop-text_of mss rs (step s r) (suc n) hs
        ∙ ap (finished (foldl step s (r ∷ rs))) (omega arith)

    -- The parser reads all of it, and no error comes up.
    pub conclude-text_of :
        (discovery : S → DiscoveryResult) (empty_quality : ParseQuality) (start : S)
        (mss : List Members) (rs : List R)
        → Written mss rs
        → conclude discovery empty_quality
            (scan (text_of mss)).error
            (loop trim_space (unmarshal fields zero_value) step (scan (text_of mss)).tokens start 0)
          ≡ record {
            discovery = discovery (foldl step start rs);
            quality = quality_of empty_quality rs;
            error = none;
          }
    conclude-text_of discovery q start mss rs h =
        rw (scan-text_of mss rs h, loop-text_of mss rs start 0 h)
          (conclude_finished discovery q (foldl step start rs) rs)
