-- ===== src/Runner/Line.antt =====
-- cmd/gibson-runner/main.go, `emitResponse` and `emitError`: the standard output as its reader takes it.
use gibson_tool_runner.Base.{
  trim_space, Bytes, codes, List, [], ◌∷◌, ◌++◌, Option, none, some, ◌≡◌, ◌⊎◌, refl, sym, ap, ◌∙◌,
  arith, eqb, All, All-append, append_assoc, inl, inr, if◌then◌else◌,
}
use gibson_tool_runner.Base64.{encode}
use gibson_tool_runner.Base64.Laws.{IsByte, decode-encode, encode-IsLine}
use gibson_tool_runner.Process.{World}
use gibson_tool_runner.Registry.{Registry}
use gibson_tool_runner.Parsers.Lines.{Decoded, record_of, split_lines}
use gibson_tool_runner.Parsers.Lines.Split.{IsLine, join_lines, split_lines-join_lines}
use gibson_tool_runner.Runner.{
  env_tool_name, decode_base64, Codec, CallToolResponse, output, error_line, output_line,
  abi_output_marker, abi_error_marker, printed, Exit, run_default,
}
use gibson_tool_runner.Runner.Abi.{
  Ends, unnamed, no_input, no_tool, report, reported, succeeded, not_encoded, run_default-Ends,
}

-- The part of a text behind a prefix.
unfoldable pub strip : Bytes → Bytes → Option Bytes
strip [] text = some text
strip (p ∷ prefix) [] = none
strip (p ∷ prefix) (c ∷ text) = let rest = strip prefix text in if eqb p c then rest else none

unfoldable pub last_line : List Bytes → Bytes
last_line [] = []
last_line (line ∷ []) = line
last_line (line ∷ next ∷ lines) = last_line (next ∷ lines)

-- What the reader finds on the last line.
pub data Reading : Type 0 where
  unmarked : Reading
  answer : Decoded Bytes → Reading
  complaint : Bytes → Reading

module _ (c : Codec) where
  abbrev behind_output : Option Bytes → Option Reading
  behind_output none = none
  behind_output (some b64) = some (answer (decode_base64 b64))

  abbrev behind_error : Option Bytes → Reading
  behind_error none = unmarked
  behind_error (some text) = complaint text

  -- As the README puts it: log lines may come first, and the last line has a marker.
  unfoldable pub read_line : Bytes → Reading
  read_line line = elim (behind_output (strip abi_output_marker line)) [
    | some reading ↦ reading
    | none ↦ behind_error (strip abi_error_marker line)
  ]

  unfoldable pub read_output : Bytes → Reading
  read_output text = read_line (last_line (split_lines text))

last_line-append : (lines : List Bytes) (line : Bytes) → last_line (lines ++ (line ∷ [])) ≡ line
unfolding last_line
last_line-append [] line = refl
last_line-append (l ∷ []) line = refl
last_line-append (l ∷ m ∷ lines) line = last_line-append (m ∷ lines) line

join_lines-append :
    (lines more : List Bytes) → join_lines (lines ++ more) ≡ join_lines lines ++ join_lines more
join_lines-append [] more = refl
join_lines-append (line ∷ lines) more =
    ap (λ t. line ++ (b'\n' ∷ t)) (join_lines-append lines more)
    ∙ sym (append_assoc line (b'\n' ∷ join_lines lines) (join_lines more))

strip-append : (prefix text : Bytes) → strip prefix (prefix ++ text) ≡ some text
unfolding strip
strip-append [] text = refl
strip-append (p ∷ prefix) text = ground (arith, strip-append prefix text)

-- Log lines, then one line more: the reader takes the last one.
read_output-last :
    (c : Codec) (logs : List Bytes) (line : Bytes)
    → All IsLine logs
    → IsLine line
    → read_output c (join_lines logs ++ (line ++ (b'\n' ∷ []))) ≡ read_line c line
unfolding read_output
read_output-last c logs line h k =
    ap (λ t. read_line c (last_line (split_lines t))) (sym (join_lines-append logs (line ∷ [])))
    ∙ ap (λ ls. read_line c (last_line ls))
        (split_lines-join_lines (logs ++ (line ∷ []))
          (All-append IsLine logs (line ∷ []) h (k, tt)))
    ∙ ap (read_line c) (last_line-append logs line)

module _ (c : Codec) (r : Registry) (w : World) (logs : List Bytes) where
  -- What the reader gets from a process behind these log lines, told apart by the exit code.
  pub data Reads (ex : Exit) : Type 0 where
    replied :
        (resp : CallToolResponse) (b : Bytes)
        → (ex.code ≡ 0) ⊎ (ex.code ≡ 2)
        → c.encode_response resp ≡ record_of b
        → read_output c (join_lines logs ++ printed c ex.emitted) ≡ answer (record_of b)
        → Reads ex
    complained :
        (name : Bytes)
        → ex.code ≡ 4
        → read_output c (join_lines logs ++ printed c ex.emitted)
          ≡ complaint (c.sprintf (codes "tool %q not registered in this runner image") (name ∷ []))
        → Reads ex
    quiet : (ex.code ≡ 1) ⊎ (ex.code ≡ 3) → printed c ex.emitted ≡ [] → Reads ex

  read_line-output :
      (b64 : Bytes) → read_line c (abi_output_marker ++ b64) ≡ answer (decode_base64 b64)
  unfolding read_line strip
  read_line-output b64 = refl

  read_line-error : (text : Bytes) → read_line c (abi_error_marker ++ text) ≡ complaint text
  unfolding read_line strip
  read_line-error text = refl

  decode_base64-encode : (b : Bytes) → All IsByte b → decode_base64 (encode b) ≡ record_of b
  unfolding decode_base64
  decode_base64-encode b h = rw (decode-encode b h, decode_base64) refl

  output_read :
      (b : Bytes)
      → All IsLine logs
      → All IsByte b
      → read_output c (join_lines logs ++ printed c (output_line b)) ≡ answer (record_of b)
  unfolding printed
  output_read b h bytes =
      read_output-last c logs (abi_output_marker ++ encode b) h
        (All-append _ abi_output_marker (encode b) (ground arith) (encode-IsLine b bytes))
      ∙ read_line-output (encode b)
      ∙ ap answer (decode_base64-encode b bytes)

  error_read :
      (format : Bytes) (args : List Bytes)
      → All IsLine logs
      → IsLine (c.sprintf format args)
      → read_output c (join_lines logs ++ printed c (error_line format args))
        ≡ complaint (c.sprintf format args)
  unfolding printed
  error_read format args h line =
      read_output-last c logs (abi_error_marker ++ c.sprintf format args) h
        (All-append _ abi_error_marker (c.sprintf format args) (ground arith) line)
      ∙ read_line-error (c.sprintf format args)

  module _ (h : All IsLine logs)
      (encoded_bytes : (resp : CallToolResponse) (b : Bytes)
        → c.encode_response resp ≡ record_of b
        → All IsByte b)
      (quoted_line : (name : Bytes)
        → IsLine
            (c.sprintf (codes "tool %q not registered in this runner image") (name ∷ []))) where
    Ends-Reads : (ex : Exit) → Ends c r w ex → Reads ex
    unfolding printed
    Ends-Reads ex (unnamed blank e) =
        quiet (inl (ap (λ x. x.code) e)) (ap (λ x. printed c x.emitted) e)
    Ends-Reads ex (no_input p found why e) =
        quiet (inl (ap (λ x. x.code) e)) (ap (λ x. printed c x.emitted) e)
    Ends-Reads ex (not_encoded p resp err ans why e) =
        quiet (inr (ap (λ x. x.code) e)) (ap (λ x. printed c x.emitted) e)
    Ends-Reads ex (no_tool missing e) =
        complained (trim_space (w.getenv env_tool_name)) (ap (λ x. x.code) e) (
          ap (λ x. read_output c (join_lines logs ++ printed c x.emitted)) e
          ∙ error_read _ (trim_space (w.getenv env_tool_name) ∷ []) h (quoted_line _))
    Ends-Reads ex (reported p resp err b ans enc e) =
        replied (report resp err) b (inr (ap (λ x. x.code) e)) enc (
          ap (λ x. read_output c (join_lines logs ++ printed c x.emitted)) e
          ∙ output_read b h (encoded_bytes _ b enc))
    Ends-Reads ex (succeeded p resp disc json b ans shown enc out e) =
        replied (output json) b (inl (ap (λ x. x.code) e)) out (
          ap (λ x. read_output c (join_lines logs ++ printed c x.emitted)) e
          ∙ output_read b h (encoded_bytes _ b out))

    -- A reader that takes the last line of the standard output, as the README describes it, gets back
    -- exactly the encoded response of a process that exits with 0 or 2, and the message of one that exits
    -- with 4, behind any log lines; with 1 or 3 nothing is printed. It is assumed that protojson gives bytes
    -- and that the quoted message holds no newline.
    pub run_default-Reads : Reads (run_default c r w)
    run_default-Reads = Ends-Reads (run_default c r w) (run_default-Ends c r w)
