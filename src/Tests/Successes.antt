-- ===== src/Tests/Successes.antt =====
-- cmd/gibson-runner/main.go in default mode, on a run of naabu that goes well.
use gibson_tool_runner.Base.{
  codes, [], ◌∷◌, none, ◌≡◌, refl, pos, inl, arith, is_empty, index, trim_space, to_int32, ◌==◌,
  decimal_int,
}
use gibson_tool_runner.Base64.{decode, groups, without_breaks, value}
use gibson_tool_runner.Registry.{
  Registry, Registered, ExecuteRequest, empty, done, panics, register, register_args_policy, assign,
}
use gibson_tool_runner.Json.Maps.{unmarshal_map, unmarshal_string}
use gibson_tool_runner.Json.Text.{cut, unquote}
use gibson_tool_runner.Json.Number.Laws.{decimal_int-IsNumber}
use gibson_tool_runner.Parsers.Lines.{record_of}
use gibson_tool_runner.Parsers.Tools.{naabu, Decoders, start_up}
use gibson_tool_runner.Parsers.Fields.{decoders}
use gibson_tool_runner.Parsers.Fields.Laws.{naabu_members}
use gibson_tool_runner.Runner.{
  output_line, run_default, decode_base64, decode_input_json, with_target, with_args, with_options,
  options_of, with_timeout, erase,
}
use gibson_tool_runner.Runner.Abi.{Requested}
use gibson_tool_runner.Runner.Success.{run_default_answers}
use gibson_tool_runner.Tests.Tools.{plain_codec}
use gibson_tool_runner.Tests.Json.{open_port, printing}

abbrev decoding : Decoders
decoding = decoders (λ s. none) (λ s. s) (λ s. record_of [])

abbrev registered : Registered → Registry
registered (done r) = r
registered (panics format args) = empty

abbrev tables : Registry
tables = registered (start_up decoding)

abbrev request : ExecuteRequest
request = record { target = codes "10.0.0.1"; args = []; options = []; timeout = pos 2 }

started : start_up decoding ≡ done tables
unfolding start_up register is_empty index register_args_policy assign
started = refl

requested : Requested plain_codec tables printing request
unfolding decode_base64 trim_space ◌==◌ decode_input_json decode groups without_breaks value
    is_empty unmarshal_map cut with_target index unquote unmarshal_string with_args erase
    with_options options_of with_timeout to_int32
requested = record {
  envelope = codes "{}";
  call_req = record { input_json = codes "{\"target\":\"10.0.0.1\"}"; timeout_ms = pos 2000 };
  decoded = record { target = codes "10.0.0.1"; args = []; options = []; timeout = pos 0 };
  reads_base64 = refl;
  reads_request = refl;
  reads_input = refl;
  timed = refl;
}

run_default_answers_example :
    run_default plain_codec tables printing
    ≡ record { code = 0; emitted = output_line (codes "{}") }
unfolding trim_space ◌==◌ is_empty gibson_tool_runner.Registry.apply_policy
    gibson_tool_runner.Registry.apply_policy_of gibson_tool_runner.Registry.filtered
    gibson_tool_runner.Policy.apply_args gibson_tool_runner.Policy.apply_loop
    gibson_tool_runner.Json.Print.print gibson_tool_runner.Json.Print.quote_onto decimal_int
    gibson_tool_runner.Json.Fields.Laws.known gibson_tool_runner.Json.Fields.field_of
    gibson_tool_runner.Sandbox.Config.default_config gibson_tool_runner.Process.run_cmd
    gibson_tool_runner.Parsers.Tool.sandboxed gibson_tool_runner.Sandbox.Shell.apply
    gibson_tool_runner.Sandbox.Shell.shell_wrap_args
run_default_answers_example =
    run_default_answers (λ s. none) (λ s. s) (λ s. record_of []) plain_codec tables printing request
      started (λ n. []) naabu tt refl refl requested refl refl (naabu_members open_port ∷ [])
      (open_port ∷ [])
      ((ground arith, ground (arith, decimal_int-IsNumber (pos 443)), omega arith, refl), tt)
      (λ e. cc, (λ e. cc, tt)) refl (omega arith) (inl refl) (codes "{}") (codes "{}") refl refl
