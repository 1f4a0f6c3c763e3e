-- ===== src/Sandbox/Shell/Posix.antt =====
-- How a POSIX shell reads words that are written with single quotes, backslashes and spaces only
-- (Shell Command Language, 2.2 and 2.3): the independent description that the quoting of
-- internal/sandbox/sandbox.go is held against. Any other byte outside quotes gives `none`, so a
-- text that reads leaves nothing to the shell to expand, and no operator or newline ends it.
use gibson_tool_runner.Base.{ℕ, Bytes, List, [], ◌∷◌, ◌++◌, Option, none, some, eqb, if◌then◌else◌}

-- Where the reader stands, with the bytes of the word so far.
pub data Mode : Type 0 where
  gap : Mode
  word quoted escaped : Bytes → Mode

-- The mode behind a byte, or `none` where the byte means something else to the shell. `gap` behind
-- a word ends that word.
outside : (Bytes → Option Mode) → Bytes → ℕ → Option Mode
outside space w c =
    if eqb c b' '
    then space w
    else if eqb c b'\''
    then some (quoted w)
    else if eqb c b'\\'
    then some (escaped w)
    else none

unfoldable pub next_mode : Mode → ℕ → Option Mode
unfolding outside
next_mode gap c = outside (λ _. some gap) [] c
next_mode (word w) c = outside (λ _. some gap) w c
next_mode (quoted w) c = some (if eqb c b'\'' then word w else quoted (w ++ (c ∷ [])))
next_mode (escaped w) c = if eqb c b'\n' then none else some (word (w ++ (c ∷ [])))

-- The word that a byte ends.
unfoldable pub ended : Mode → ℕ → List Bytes
ended (word w) c = if eqb c b' ' then w ∷ [] else []
ended _ c = []

unfoldable pub finish : Mode → Option (List Bytes)
finish gap = some []
finish (word w) = some (w ∷ [])
finish (quoted w) = none
finish (escaped w) = none

abbrev pub prepend : List Bytes → Option (List Bytes) → Option (List Bytes)
prepend ws none = none
prepend ws (some rest) = some (ws ++ rest)

unfoldable pub read : Mode → Bytes → Option (List Bytes)
read m [] = finish m
read m (c ∷ cs) = elim (next_mode m c) [ none ↦ none | some m' ↦ prepend (ended m c) (read m' cs) ]

-- The words of a text.
unfoldable pub words : Bytes → Option (List Bytes)
words = read gap
