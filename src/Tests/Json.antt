-- ===== src/Tests/Json.antt =====
-- The JSON lines of parsers/*/*.go on examples.
use gibson_tool_runner.Base.{
  codes, [], ◌∷◌, none, some, ◌≡◌, refl, arith, inl, Bytes, pos, negsuc, ◌==◌, has_prefix,
  parse_digits,
}
use gibson_tool_runner.Sandbox.Config.{parse_int}
use gibson_tool_runner.Json.{number, text, array, object, item, no_items, member, no_members}
use gibson_tool_runner.Json.Text.{
  cut, unquote, next_mode, is_hex, is_escape, unit, escape, unicode, utf8, four_digits, next_unit,
}
use gibson_tool_runner.Json.Number.{first, next, more}
use gibson_tool_runner.Json.Lexer.{lex, token_at, punct_of}
use gibson_tool_runner.Json.Parser.{value_of, run, step, begin_value, end_value}
use gibson_tool_runner.Json.Fields.{
  unmarshal, set_struct, set_members, set_string, set_int, set_slice, set_items, field_of, exact,
  folded, fold_name, json_error,
}
use gibson_tool_runner.Json.{Members}
use gibson_tool_runner.Base.{decimal_int}
use gibson_tool_runner.Json.Number.Laws.{decimal_int-IsNumber}
use gibson_tool_runner.Json.Print.{print, quote_onto}
use gibson_tool_runner.Json.Fields.Laws.{known}
use gibson_tool_runner.Registry.{ExecuteRequest, structured}
use gibson_tool_runner.Parsers.Naabu.{NaabuRecord}
use gibson_tool_runner.Parsers.Naabu.Graph as NaabuGraph
use gibson_tool_runner.Parsers.Tools.{naabu}
use gibson_tool_runner.Parsers.Tools.Commands.{parse_of}
use gibson_tool_runner.Parsers.Fields.{decoders}
use gibson_tool_runner.Parsers.Fields.Laws.{naabu_members}
use gibson_tool_runner.Parsers.Fields.Lines.{line_of}
use gibson_tool_runner.Parsers.Fields.Tools.{fields_of, zero_of}
use gibson_tool_runner.Parsers.Fields.Tools.Records.{members_of, unmarshal-line_of}
use gibson_tool_runner.Parsers.Fields.Runs.{Answers, execute-Answers}
use gibson_tool_runner.Process.{World}
use gibson_tool_runner.Tests.Tools.{runner_world}
use gibson_tool_runner.Parsers.Fields.Outputs.{parse_of-output_of, output_of}
use gibson_tool_runner.Parsers.Lines.{record_of, malformed}
use gibson_tool_runner.Parsers.Fields.{naabu_fields, naabu_zero, dnsx_fields, dnsx_zero}

-- White space, escapes, and a pair of surrogates.
reads_values :
    value_of (codes " { \"a\" : [ 1.5e3 , \"x\\n\\u00e9\\ud83d\\ude00\" ] } ")
    ≡ some (
        object (
          member
            (codes "a")
            (array (
              item
                (number (codes "1.5e3"))
                (item (text (120 ∷ 10 ∷ 0xc3 ∷ 0xa9 ∷ 0xf0 ∷ 0x9f ∷ 0x98 ∷ 0x80 ∷ [])) no_items)))
            no_members))
unfolding value_of run step begin_value end_value lex token_at punct_of cut next_mode is_hex
    is_escape unquote unit escape unicode utf8 four_digits next_unit first next more
reads_values = refl

-- A comma in front of a brace, a number with a leading zero, and a text behind the value are errors.
rejects_comma : value_of (codes "{\"a\":1,}") ≡ none
unfolding value_of run step begin_value end_value lex token_at punct_of cut next_mode unquote unit
    first next more
rejects_comma = refl

rejects_zero : value_of (codes "[01]") ≡ none
unfolding value_of run step begin_value end_value lex token_at punct_of first next more
rejects_zero = refl

rejects_rest : value_of (codes "{} {}") ≡ none
unfolding value_of run step begin_value end_value lex token_at punct_of
rejects_rest = refl

-- Unknown keys are passed over, a key may differ in its case, and the last of two counts.
reads_naabu :
    unmarshal naabu_fields naabu_zero
      (codes "{\"HOST\":\"a\",\"tls\":null,\"ip\":\"::1\",\"port\":1,\"Port\":-443}")
    ≡ record_of (record { host = codes "a"; ip = codes "::1"; port = negsuc 442 })
unfolding unmarshal value_of run step begin_value end_value lex token_at punct_of cut next_mode
    unquote unit first next more has_prefix set_struct set_members set_string set_int field_of exact
    folded fold_name ◌==◌ parse_int parse_digits
reads_naabu = refl

-- A number with a fraction is none of an `int`, and no text is.
rejects_port : unmarshal naabu_fields naabu_zero (codes "{\"port\":80.0}") ≡ malformed json_error
unfolding unmarshal value_of run step begin_value end_value lex token_at punct_of cut next_mode
    unquote unit first next more has_prefix set_struct set_members set_string set_int field_of exact
    folded fold_name ◌==◌ parse_int parse_digits
rejects_port = refl

reads_dnsx :
    unmarshal dnsx_fields dnsx_zero
      (codes "{\"host\":\"h\",\"a\":[\"1.1.1.1\",\"1.0.0.1\"],\"aaaa\":null}")
    ≡ record_of (record { host = codes "h"; a = codes "1.1.1.1" ∷ codes "1.0.0.1" ∷ []; aaaa = [] })
unfolding unmarshal value_of run step begin_value end_value lex token_at punct_of cut next_mode
    unquote unit first next more has_prefix set_struct set_members set_string set_slice set_items
    field_of exact folded fold_name ◌==◌
reads_dnsx = refl

abbrev pub open_port : NaabuRecord
open_port = record { host = codes "a.example"; ip = codes "10.0.0.1"; port = pos 443 }

unmarshal-line_of_example :
    unmarshal
      (fields_of (λ s. none) naabu)
      (zero_of naabu)
      (line_of (members_of (λ s. none) (λ n. []) naabu open_port))
    ≡ record_of open_port
unmarshal-line_of_example = unmarshal-line_of (λ s. none) (λ n. []) naabu open_port (ground arith)

-- The same with a member that has no field.
abbrev timed : Members
timed = member (codes "timestamp") (text (codes "now")) (naabu_members open_port)

abbrev request : ExecuteRequest
request = record { target = codes "a.example"; args = []; options = []; timeout = pos 0 }

parse_of-output_of_example :
    parse_of naabu
      (decoders (λ s. none) (λ s. s) (λ s. record_of []))
      request
      (output_of naabu (timed ∷ []))
    ≡ record { discovery = NaabuGraph.graph (open_port ∷ []); quality = structured; error = none }
unfolding known set_members set_string set_int field_of exact folded fold_name ◌==◌ print parse_int
    decimal_int parse_digits quote_onto
parse_of-output_of_example =
    parse_of-output_of (λ s. none) (λ s. s) (λ s. record_of []) request (λ n. []) naabu tt
      (timed ∷ []) (open_port ∷ [])
      ((ground arith, ground (arith, decimal_int-IsNumber (pos 443)), omega arith, refl), tt)

-- What is written for that record.
written :
    line_of (naabu_members open_port)
    ≡ codes "{\"host\":\"a.example\",\"ip\":\"10.0.0.1\",\"port\":443}"
unfolding print decimal_int quote_onto
written = refl

abbrev line_written : Bytes
line_written = line_of (naabu_members open_port)

-- A child that prints this line, in one write.
abbrev pub printing : World
printing = record runner_world {
  run = λ ctx cmd stdin. record {
    stdout_writes = line_written ∷ codes "\n" ∷ [];
    stderr_writes = [];
    exit_code = some (pos 0);
    run_err = none;
  };
}

execute-Answers_example :
    Answers
      (λ s. none)
      (λ s. s)
      (λ s. record_of [])
      []
      printing
      none
      request
      naabu
      (naabu_members open_port ∷ [])
      (open_port ∷ [])
unfolding print quote_onto decimal_int known field_of ◌==◌ gibson_tool_runner.Base.is_empty
    gibson_tool_runner.Registry.apply_policy gibson_tool_runner.Registry.apply_policy_of
    gibson_tool_runner.Registry.filtered gibson_tool_runner.Policy.apply_args
    gibson_tool_runner.Policy.apply_loop gibson_tool_runner.Sandbox.Config.default_config
    gibson_tool_runner.Process.run_cmd gibson_tool_runner.Parsers.Tool.sandboxed
    gibson_tool_runner.Sandbox.Shell.apply gibson_tool_runner.Sandbox.Shell.shell_wrap_args
execute-Answers_example =
    execute-Answers (λ s. none) (λ s. s) (λ s. record_of []) [] printing none request (λ n. [])
      naabu tt (naabu_members open_port ∷ []) (open_port ∷ [])
      ((ground arith, ground (arith, decimal_int-IsNumber (pos 443)), omega arith, refl), tt) refl
      refl (λ e. cc, (λ e. cc, tt)) refl (omega arith) (inl refl)
