-- ===== src/Parsers/Fields/Arrays.antt =====
-- parsers/masscan/masscan.go: an array with an object on each line.
use gibson_tool_runner.Base.{
  leb, ℕ, suc, ◌+◌, ◌<◌, Bytes, false, List, [], ◌∷◌, ◌++◌, none, ◌≡◌, refl, ap, ◌∙◌, arith, eqb,
  length, length-append, foldl, All, All-append, trim_space, trim_space_visible, trim_space_newline,
}
use gibson_tool_runner.Registry.{structured}
use gibson_tool_runner.Json.{Members, object}
use gibson_tool_runner.Json.Print.{IsGood}
use gibson_tool_runner.Json.Print.Laws.{print_braces, print-Stays}
use gibson_tool_runner.Json.Fields.{unmarshal}
use gibson_tool_runner.Json.Parser.{max_depth}
use gibson_tool_runner.Parsers.Lines.Laws.{
  records, records_record, loop_record, settled, quality_of, conclude_finished,
}
use gibson_tool_runner.Parsers.Masscan.{MasscanRecord, State, start, step}
use gibson_tool_runner.Parsers.Masscan.Graph.{graph, parse_json-graph}
use gibson_tool_runner.Parsers.Fields.{masscan_fields, masscan_zero}
use gibson_tool_runner.Parsers.Lines.{
  Decoded, Scanned, loop, finished, is_skipped, conclude, max_token, drop_cr, split_lines, scan,
  scan_lines,
}
use gibson_tool_runner.Parsers.Lines.Split.{IsLine, join_lines, split_lines-join_lines}
use gibson_tool_runner.Parsers.Masscan.{trim_prefix1, trim_suffix1, clean, body_of, parse_json}
use gibson_tool_runner.Parsers.Fields.Lines.{
  line_of, drop_cr_end, drop_cr-line_of, is_skipped-line_of, decode-line_of, Written, FitsComma,
}

-- All lines but the last one end in a comma.
abbrev pub array_lines : List Members → List Bytes
array_lines [] = []
array_lines (ms ∷ []) = line_of ms ∷ []
array_lines (ms ∷ ms' ∷ mss) = (line_of ms ++ (b',' ∷ [])) ∷ array_lines (ms' ∷ mss)

abbrev pub array_of : List Members → Bytes
array_of mss = b'[' ∷ (b'\n' ∷ join_lines (array_lines mss)) ++ (b']' ∷ b'\n' ∷ [])

trim_suffix1_end : (mark : ℕ) (body : Bytes) → trim_suffix1 mark (body ++ (mark ∷ [])) ≡ body
unfolding trim_suffix1
trim_suffix1_end mark [] = ground arith
trim_suffix1_end mark (c ∷ []) = ap (◌∷◌ c) (trim_suffix1_end mark [])
trim_suffix1_end mark (c ∷ d ∷ body) = ap (◌∷◌ c) (trim_suffix1_end mark (d ∷ body))

trim_suffix1_other :
    (mark d : ℕ) (body : Bytes)
    → eqb d mark ≡ false
    → trim_suffix1 mark (body ++ (d ∷ [])) ≡ body ++ (d ∷ [])
unfolding trim_suffix1
trim_suffix1_other mark d [] h = ground arith
trim_suffix1_other mark d (c ∷ []) h = ap (◌∷◌ c) (trim_suffix1_other mark d [] h)
trim_suffix1_other mark d (c ∷ c' ∷ body) h = ap (◌∷◌ c) (trim_suffix1_other mark d (c' ∷ body) h)

clean_last : (ms : Members) → clean (line_of ms) ≡ line_of ms
unfolding clean
clean_last ms =
    let (body, e) = print_braces ms in
    rw e (
      ap (trim_suffix1 b',')
        (trim_space_visible b'{' b'}' body (omega arith, omega arith) (omega arith, omega arith))
      ∙ trim_suffix1_other b',' b'}' (b'{' ∷ body) refl)

clean_comma : (ms : Members) → clean (line_of ms ++ (b',' ∷ [])) ≡ line_of ms
unfolding clean
clean_comma ms =
    let (body, e) = print_braces ms in
    rw e (
      ap (trim_suffix1 b',') (
        trim_space_visible b'{' b',' (body ++ (b'}' ∷ [])) (omega arith, omega arith)
          (omega arith, omega arith))
      ∙ trim_suffix1_end b',' (b'{' ∷ (body ++ (b'}' ∷ []))))

body_of-array_of :
    (mss : List Members) → body_of (array_of mss) ≡ b'\n' ∷ join_lines (array_lines mss)
unfolding body_of trim_prefix1
body_of-array_of mss =
    let lines = b'\n' ∷ join_lines (array_lines mss) in
    ap (λ s. trim_suffix1 b']' (trim_prefix1 b'[' s))
      (trim_space_newline b'[' b']' lines (omega arith, omega arith) (omega arith, omega arith))
    ∙ trim_suffix1_end b']' lines

-- A token that stands for an object.
abbrev IsToken : Bytes → Members → Type 0
IsToken token ms =
    IsLine token × (drop_cr token ≡ token) × (length token < max_token) × (clean token ≡ line_of ms)

abbrev AreTokens : List Bytes → List Members → Type 0
AreTokens [] [] = Unit
AreTokens (token ∷ tokens) (ms ∷ mss) = IsToken token ms × AreTokens tokens mss
AreTokens _ _ = ⊥

comma-IsToken :
    (n : ℕ) (ms : Members)
    → IsGood n (object ms)
    → FitsComma ms
    → IsToken (line_of ms ++ (b',' ∷ [])) ms
comma-IsToken n ms g f = (
  All-append (λ c. eqb c b'\n' ≡ false) (line_of ms) (b',' ∷ []) (print-Stays n (object ms) g)
      (refl, tt),
  drop_cr_end (line_of ms) b',' refl,
  omega (arith, length-append (line_of ms) (b',' ∷ [])),
  clean_comma ms,
)

last-IsToken :
    (n : ℕ) (ms : Members) → IsGood n (object ms) → FitsComma ms → IsToken (line_of ms) ms
last-IsToken n ms g f =
    (print-Stays n (object ms) g, drop_cr-line_of ms, omega arith, clean_last ms)

array_lines-AreTokens :
    (n : ℕ) (mss : List Members)
    → All (λ ms. IsGood n (object ms) × FitsComma ms) mss
    → AreTokens (array_lines mss) mss
array_lines-AreTokens n [] h = tt
array_lines-AreTokens n (ms ∷ []) ((g, f), _) = (last-IsToken n ms g f, tt)
array_lines-AreTokens n (ms ∷ ms' ∷ mss) ((g, f), hs) =
    (comma-IsToken n ms g f, array_lines-AreTokens n (ms' ∷ mss) hs)

AreTokens-lines :
    (tokens : List Bytes) (mss : List Members) → AreTokens tokens mss → All IsLine tokens
AreTokens-lines [] mss h = tt
AreTokens-lines (token ∷ tokens) [] h = elim h [ ]
AreTokens-lines (token ∷ tokens) (ms ∷ mss) ((l, _, _, _), h) = (l, AreTokens-lines tokens mss h)

AreTokens-scanned :
    (tokens : List Bytes) (mss : List Members)
    → AreTokens tokens mss
    → scan_lines max_token tokens ≡ record { tokens = tokens; error = none }
unfolding scan_lines
AreTokens-scanned [] mss h = refl
AreTokens-scanned (token ∷ tokens) [] h = elim h [ ]
AreTokens-scanned (token ∷ tokens) (ms ∷ mss) ((_, d, f, _), h) =
    let rest = AreTokens-scanned tokens mss h in
    let short : leb max_token (length token) ≡ false = ground arith in rw (short, d, rest) refl

scan_empty_first :
    (tokens : List Bytes)
    → scan_lines max_token tokens ≡ record { tokens = tokens; error = none }
    → scan_lines max_token ([] ∷ tokens) ≡ record { tokens = [] ∷ tokens; error = none }
unfolding scan_lines drop_cr
scan_empty_first tokens e = rw e refl

scan-array_of :
    (mss : List Members)
    → AreTokens (array_lines mss) mss
    → scan (body_of (array_of mss)) ≡ record { tokens = [] ∷ array_lines mss; error = none }
unfolding scan split_lines
scan-array_of mss h =
    ap scan (body_of-array_of mss)
    ∙ ap (λ lines. scan_lines max_token ([] ∷ lines))
        (split_lines-join_lines (array_lines mss) (AreTokens-lines (array_lines mss) mss h))
    ∙ scan_empty_first (array_lines mss) (AreTokens-scanned (array_lines mss) mss h)

abbrev decode : Bytes → Decoded MasscanRecord
decode = unmarshal masscan_fields masscan_zero

tokens-records :
    (tokens : List Bytes) (mss : List Members) (rs : List MasscanRecord)
    → AreTokens tokens mss
    → Written masscan_fields masscan_zero mss rs
    → records clean decode tokens ≡ rs
unfolding records
tokens-records [] [] [] h w = refl
tokens-records [] [] (r ∷ rs) h w = elim w [ ]
tokens-records [] (ms ∷ mss) rs h w = elim h [ ]
tokens-records (token ∷ tokens) [] rs h w = elim h [ ]
tokens-records (token ∷ tokens) (ms ∷ mss) [] h w = elim w [ ]
tokens-records (token ∷ tokens) (ms ∷ mss) (r ∷ rs) ((_, _, _, c), h) (s, w) =
    records_record clean decode token (line_of ms) tokens r c (is_skipped-line_of ms)
      (decode-line_of masscan_fields masscan_zero ms r s)
    ∙ ap (◌∷◌ r) (tokens-records tokens mss rs h w)

tokens-loop :
    (tokens : List Bytes) (mss : List Members) (rs : List MasscanRecord) (s : State) (n : ℕ)
    → AreTokens tokens mss
    → Written masscan_fields masscan_zero mss rs
    → loop clean decode step tokens s n ≡ finished (foldl step s rs) (n + length rs)
unfolding loop
tokens-loop [] [] [] s n h w = ap (finished s) (omega arith)
tokens-loop [] [] (r ∷ rs) s n h w = elim w [ ]
tokens-loop [] (ms ∷ mss) rs s n h w = elim h [ ]
tokens-loop (token ∷ tokens) [] rs s n h w = elim h [ ]
tokens-loop (token ∷ tokens) (ms ∷ mss) [] s n h w = elim w [ ]
tokens-loop (token ∷ tokens) (ms ∷ mss) (r ∷ rs) s n ((_, _, _, c), h) (says, w) =
    loop_record clean decode step token (line_of ms) tokens r s n c (is_skipped-line_of ms)
      (decode-line_of masscan_fields masscan_zero ms r says)
    ∙ tokens-loop tokens mss rs (step s r) (suc n) h w
    ∙ ap (finished (foldl step s (r ∷ rs))) (omega arith)

-- The line of the opening bracket is empty, and is skipped.
records_empty :
    (tokens : List Bytes) → records clean decode ([] ∷ tokens) ≡ records clean decode tokens
unfolding records clean is_skipped trim_space
records_empty tokens = refl

loop_empty :
    (tokens : List Bytes) (s : State)
    → loop clean decode step ([] ∷ tokens) s 0 ≡ loop clean decode step tokens s 0
unfolding loop clean is_skipped trim_space
loop_empty tokens s = refl

-- masscan's array, one object on each line and a comma behind all but the last one.
pub parse_json-array_of :
    (mss : List Members) (rs : List MasscanRecord)
    → Written masscan_fields masscan_zero mss rs
    → All (λ ms. IsGood max_depth (object ms) × FitsComma ms) mss
    → parse_json decode (array_of mss)
      ≡ record { discovery = graph rs; quality = quality_of structured rs; error = none }
unfolding parse_json
parse_json-array_of mss rs w h =
    let tokens = array_lines-AreTokens max_depth mss h in
    let scanned = scan-array_of mss tokens in
    let lines = array_lines mss in
    settled (graph rs) (quality_of structured rs)
      (ap
          (λ (sc : Scanned).
            conclude (λ (s : State). s.disc) structured sc.error
              (loop clean decode step sc.tokens start 0))
          scanned
        ∙ ap (conclude (λ (s : State). s.disc) structured none)
            (loop_empty lines start ∙ tokens-loop lines mss rs start 0 tokens w)
        ∙ conclude_finished (λ (s : State). s.disc) structured (foldl step start rs) rs)
      (parse_json-graph decode (array_of mss)
        ∙ ap graph (
            ap (λ (sc : Scanned). records clean decode sc.tokens) scanned
            ∙ records_empty lines
            ∙ tokens-records lines mss rs tokens w))
