-- ===== src/Parsers/Lines.antt =====
-- The loop over the lines of a tool's output that stands in parsers/*/*.go: `bufio.Scanner` with lines
-- and the token limit set by `sc.Buffer`, the skipped lines, and `json.Unmarshal` of each other line.
-- The decoder of a line is a parameter.
pub mod Laws
pub mod Split
use gibson_tool_runner.Base.{
  ℕ, zero, suc, ◌+◌, ◌*◌, Bytes, codes, Bool, true, false, not, ◌&&◌, ◌||◌, List, [], ◌∷◌, ◌++◌,
  Option, none, some, Error, wrapping, foreign, eqb, leb, length, decimal, trim_space,
  if◌then◌else◌,
}
use gibson_tool_runner.Graph.{DiscoveryResult}
use gibson_tool_runner.Registry.{ParseQuality, structured, partial, raw}

-- The bytes between newlines; a text that ends in a newline has no line behind it.
cons_first : ℕ → List Bytes → List Bytes
cons_first c [] = (c ∷ []) ∷ []
cons_first c (line ∷ lines) = (c ∷ line) ∷ lines

unfoldable pub split_lines : Bytes → List Bytes
unfolding cons_first
split_lines [] = []
split_lines (c ∷ cs) =
    let rest = split_lines cs in if eqb c b'\n' then [] ∷ rest else cons_first c rest

-- `bufio.ScanLines` takes one carriage return off the end of a line.
unfoldable pub drop_cr : Bytes → Bytes
drop_cr [] = []
drop_cr (c ∷ []) = if eqb c b'\r' then [] else c ∷ []
drop_cr (c ∷ d ∷ cs) = c ∷ drop_cr (d ∷ cs)

-- The tokens that `sc.Scan()` gives, and `sc.Err()` at the end.
pub record Scanned : Type 0 where
  pub tokens : List Bytes
  pub error : Option Error

-- A line of `limit` bytes or more fills the buffer, and ends the scan.
unfoldable pub scan_lines : ℕ → List Bytes → Scanned
unfolding drop_cr
scan_lines limit [] = record { tokens = []; error = none }
scan_lines limit (line ∷ lines) =
    let rest = scan_lines limit lines in
    if leb limit (length line)
    then record { tokens = []; error = some (foreign (codes "bufio.Scanner: token too long")) }
    else record { tokens = drop_cr line ∷ rest.tokens; error = rest.error }

-- `10*1024*1024`, the second argument of `sc.Buffer`.
abbrev pub max_token : ℕ
max_token = 10 * 1024 * 1024

unfoldable pub scan : Bytes → Scanned
unfolding scan_lines split_lines
scan text = scan_lines max_token (split_lines text)

-- What `json.Unmarshal` makes of a line.
pub data Decoded (R : Type 0) : Type 0 where
  record_of : R → Decoded R
  malformed : Error → Decoded R

-- `len(line) == 0 || line[0] != '{'`
unfoldable pub is_skipped : Bytes → Bool
is_skipped [] = true
is_skipped (c ∷ cs) = not (eqb c b'{')

-- How the loop ends: at a line that does not decode, or behind the last token. Both carry the state
-- and the lines decoded.
pub data Looped (S : Type 0) : Type 0 where
  stopped : S → ℕ → Error → Looped S
  finished : S → ℕ → Looped S

module _ {S R : Type 0} (clean : Bytes → Bytes) (decode : Bytes → Decoded R)
    (step : S → R → S) where
  -- `clean` is what becomes of a token before it is looked at.
  unfoldable pub loop : List Bytes → S → ℕ → Looped S
  loop [] s lines = finished s lines
  loop (token ∷ tokens) s lines =
      let line = clean token in
      elim (is_skipped line) [
        | true ↦ loop tokens s lines
        | false ↦ elim (decode line) [
          | malformed err ↦ stopped s lines err
          | record_of r ↦ loop tokens (step s r) (suc lines)
        ]
      ]

-- The three results of a parser's `parseJSONLines`.
pub record Parsed : Type 0 where
  pub discovery : DiscoveryResult
  pub quality : ParseQuality
  pub error : Option Error

module _ {S : Type 0} (discovery : S → DiscoveryResult) (empty_quality : ParseQuality) where
  -- Behind the loop: the scanner's error, and the quality, which may differ where no line decoded.
  unfoldable pub conclude : Option Error → Looped S → Parsed
  conclude scan_err (stopped s lines err) = record {
    discovery = discovery s;
    quality = partial;
    error = some (wrapping (codes "line %d: %w") (decimal (lines + 1) ∷ []) err);
  }
  conclude (some err) (finished s lines) = record {
    discovery = discovery s;
    quality = partial;
    error = some err;
  }
  conclude none (finished s zero) = record {
    discovery = discovery s;
    quality = empty_quality;
    error = none;
  }
  conclude none (finished s (suc lines)) = record {
    discovery = discovery s;
    quality = structured;
    error = none;
  }
