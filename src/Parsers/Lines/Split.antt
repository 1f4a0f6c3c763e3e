-- ===== src/Parsers/Lines/Split.antt =====
-- bufio.ScanLines in parsers/*/*.go: lines that are put together come apart again.
use gibson_tool_runner.Base.{Bytes, false, List, [], ◌∷◌, ◌++◌, ◌≡◌, refl, ap, ◌∙◌, arith, eqb, All}
use gibson_tool_runner.Parsers.Lines.{split_lines}

-- A text with no newline.
abbrev pub IsLine : Bytes → Type 0
IsLine = All (λ c. eqb c b'\n' ≡ false)

abbrev pub join_lines : List Bytes → Bytes
join_lines [] = []
join_lines (line ∷ lines) = line ++ (b'\n' ∷ join_lines lines)

pub split_lines-line :
    (line rest : Bytes)
    → IsLine line
    → split_lines (line ++ (b'\n' ∷ rest)) ≡ line ∷ split_lines rest
unfolding split_lines
split_lines-line [] rest h = refl
split_lines-line (c ∷ line) rest h = ground (arith, split_lines-line line rest h.1)

pub split_lines-join_lines :
    (lines : List Bytes) → All IsLine lines → split_lines (join_lines lines) ≡ lines
unfolding split_lines
split_lines-join_lines [] h = refl
split_lines-join_lines (line ∷ lines) h =
    split_lines-line line (join_lines lines) h.0 ∙ ap (◌∷◌ line) (split_lines-join_lines lines h.1)
