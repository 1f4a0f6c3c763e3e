-- ===== src/Tests/Answers.antt =====
-- cmd/gibson-runner/main.go in default mode with all eight tools, at concrete inputs.
use gibson_tool_runner.Base.{
  pos, ℕ, ◌+◌, ◌-◌, Bytes, codes, true, false, List, [], ◌∷◌, ◌++◌, Option, none, some, Error, ◌≡◌,
  refl, All, subst, ap, arith, eqb, map, is_empty, mem, ◌==◌,
}
use gibson_tool_runner.Base64.Laws.{IsByte}
use gibson_tool_runner.Registry.{Registry, Registered, empty, done, panics}
use gibson_tool_runner.Parsers.Lines.{record_of}
use gibson_tool_runner.Parsers.Tools.{start_up}
use gibson_tool_runner.Runner.{Codec, Exit, output_line, run_default, decode_input_json}
use gibson_tool_runner.Runner.Delivery.{Delivers, run_default-Delivers}
use gibson_tool_runner.Runner.Line.{Reads, run_default-Reads}
use gibson_tool_runner.Runner.Input.{DecodesText, decode_input_json-DecodesText}
use gibson_tool_runner.Tests.Tools.{runner, runner_world, plain_codec}
use gibson_tool_runner.Tests.Catalogues.{decoders}

abbrev registered : Registered → Registry
registered (done r) = r
registered (panics format args) = empty

abbrev tables : Registry
tables = registered (start_up decoders)

started : start_up decoders ≡ done tables
unfolding start_up gibson_tool_runner.Registry.register is_empty gibson_tool_runner.Base.index
    gibson_tool_runner.Registry.register_args_policy gibson_tool_runner.Registry.assign
started = refl

exits_ok : (run_default plain_codec tables runner_world).code ≡ 0
unfolding start_up run_default is_empty decode_input_json gibson_tool_runner.Base.trim_space
    gibson_tool_runner.Base.◌==◌ gibson_tool_runner.Registry.lookup gibson_tool_runner.Base.index
    gibson_tool_runner.Registry.register gibson_tool_runner.Registry.register_args_policy
    gibson_tool_runner.Registry.assign gibson_tool_runner.Runner.run_request
    gibson_tool_runner.Runner.with_target gibson_tool_runner.Runner.with_args
    gibson_tool_runner.Runner.erase gibson_tool_runner.Runner.with_options
    gibson_tool_runner.Runner.run_parser gibson_tool_runner.Runner.finish
    gibson_tool_runner.Runner.emit_response gibson_tool_runner.Runner.discovery_or_empty
    gibson_tool_runner.Runner.options_of gibson_tool_runner.Runner.with_timeout
    gibson_tool_runner.Runner.deadline gibson_tool_runner.Registry.apply_policy_of
    gibson_tool_runner.Registry.filtered gibson_tool_runner.Policy.apply_args
    gibson_tool_runner.Policy.apply_loop gibson_tool_runner.Parsers.Tool.require_target
    gibson_tool_runner.Parsers.Tool.run_filtered gibson_tool_runner.Parsers.Tool.settle_run
    gibson_tool_runner.Parsers.Tool.run_tool gibson_tool_runner.Parsers.Tool.hard_failure
    gibson_tool_runner.Parsers.Tool.exit_code_or_zero gibson_tool_runner.Parsers.Tool.pass_parse_err
    gibson_tool_runner.Parsers.Tool.collect gibson_tool_runner.Sandbox.Buffer.err
    gibson_tool_runner.Sandbox.Buffer.write_all gibson_tool_runner.Sandbox.Buffer.write
    gibson_tool_runner.Sandbox.Buffer.init gibson_tool_runner.Sandbox.Buffer.bytes
    gibson_tool_runner.Sandbox.Config.default_config gibson_tool_runner.Parsers.Lines.conclude
    gibson_tool_runner.Parsers.Lines.loop gibson_tool_runner.Parsers.Lines.scan
    gibson_tool_runner.Parsers.Lines.is_skipped gibson_tool_runner.Parsers.Naabu.execute
    gibson_tool_runner.Parsers.Naabu.parse_json_lines gibson_tool_runner.Parsers.Naabu.step
    gibson_tool_runner.Parsers.Naabu.add_port gibson_tool_runner.Parsers.Naabu.see_host
    gibson_tool_runner.Parsers.Naabu.host_id_of gibson_tool_runner.Registry.apply_policy
    gibson_tool_runner.Registry.lookup_args_policy gibson_tool_runner.Registry.policy_or_nil
    gibson_tool_runner.Runner.decode_base64 gibson_tool_runner.Base64.decode
    gibson_tool_runner.Base64.groups gibson_tool_runner.Base64.without_breaks
    gibson_tool_runner.Base64.value gibson_tool_runner.Json.Maps.unmarshal_map
    gibson_tool_runner.Json.Text.cut gibson_tool_runner.Json.Text.unquote
    gibson_tool_runner.Json.Maps.unmarshal_string gibson_tool_runner.Process.run_cmd
    gibson_tool_runner.Parsers.Tool.sandboxed gibson_tool_runner.Sandbox.Shell.apply
    gibson_tool_runner.Sandbox.Shell.shell_wrap_args
exits_ok = refl

run_default-Delivers_example :
    (b : Bytes) × (((run_default plain_codec tables runner_world).emitted ≡ output_line b)
      × Delivers decoders plain_codec tables runner_world b)
run_default-Delivers_example =
    run_default-Delivers decoders plain_codec tables runner_world started exits_ok

-- A codec with an empty message, which is a line.
abbrev line_codec : Codec
line_codec = record plain_codec { sprintf = λ format args. [] }

braces : (b : Bytes) → record_of (codes "{}") ≡ record_of b → All IsByte b
braces b e =
    let same : codes "{}" ≡ b = cc in subst (All IsByte) same (omega arith, (omega arith, tt))

abbrev logged : List Bytes
logged = codes "starting" ∷ [] ∷ []

run_default-Reads_example :
    Reads line_codec runner runner_world logged (run_default line_codec runner runner_world)
run_default-Reads_example =
    run_default-Reads line_codec runner runner_world logged (ground arith) (λ resp. braces)
      (λ name. tt)

-- A target, one option that is a string, one that is `null`, and a number, which is dropped.
abbrev input : Bytes
input = codes "{\"target\":\"10.0.0.1\",\"ports\":\"22\",\"rate\":null,\"n\":1}"

decode_input_json-DecodesText_example : DecodesText input (decode_input_json input)
decode_input_json-DecodesText_example = decode_input_json-DecodesText input

decodes :
    decode_input_json input
    ≡ record_of (record {
      target = codes "10.0.0.1";
      args = [];
      options = (codes "ports", codes "22") ∷ (codes "rate", []) ∷ [];
      timeout = pos 0;
    })
unfolding decode_input_json is_empty gibson_tool_runner.Json.Maps.unmarshal_map
    gibson_tool_runner.Json.Text.cut gibson_tool_runner.Json.Number.first
    gibson_tool_runner.Json.Number.more gibson_tool_runner.Json.Number.next
    gibson_tool_runner.Runner.with_target gibson_tool_runner.Base.index
    gibson_tool_runner.Json.Text.unquote gibson_tool_runner.Json.Maps.unmarshal_string
    gibson_tool_runner.Runner.with_args gibson_tool_runner.Runner.erase
    gibson_tool_runner.Runner.with_options gibson_tool_runner.Runner.options_of
decodes = refl
