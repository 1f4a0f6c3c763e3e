-- ===== src/Parsers/Tool.antt =====
-- The part of `Execute` that parsers/*/*.go share: the run of the tool under internal/sandbox and the
-- order in which its outcomes are looked at. Each parser repeats this code; where nmap and nuclei
-- differ, their modules say so.
pub mod Laws
pub mod Discovery
pub mod Drawn
use gibson_tool_runner.Base.{
  ℕ, Bytes, codes, Bool, true, false, not, ◌&&◌, List, [], ◌∷◌, ◌++◌, Option, none, some, Error,
  message, wrapping, ℤ, pos, is_empty, index, if◌then◌else◌,
}
use gibson_tool_runner.Graph.{DiscoveryResult}
use gibson_tool_runner.Process.{run_cmd, World, Context, Outcome}
use gibson_tool_runner.Registry.{
  ExecuteRequest, ExecuteResponse, ParseQuality, unspecified, failed, Policies, Filtered,
  apply_policy,
}
use gibson_tool_runner.Sandbox.Buffer.{CappedBuffer, fresh, init, bytes, err, write_all}
use gibson_tool_runner.Sandbox.Config.{Config, default_config}
use gibson_tool_runner.Sandbox.Shell.{Cmd, apply}
use gibson_tool_runner.Parsers.Lines.{Parsed}

-- `&registry.ExecuteResponse{ParseQuality: registry.ParseQualityFailed}`
abbrev pub failed_response : ExecuteResponse
failed_response = record {
  exit_code = pos 0;
  stdout = [];
  stderr = [];
  parse_quality = failed;
  discovery = none;
}

-- `req.Options[name]`: empty when the option is missing.
unfoldable pub option : ExecuteRequest → Bytes → Bytes
option req name = elim (index name req.options) [ none ↦ [] | some v ↦ v ]

-- A pointer that is set only for a text that is not empty.
unfoldable pub non_empty : Bytes → Option Bytes
non_empty s = if is_empty s then none else some s

-- `exec.CommandContext(ctx, tool, args...)`
abbrev pub command : World → Bytes → List Bytes → Cmd
command w tool args = record {
  path = elim (w.look_path tool) [ none ↦ tool | some p ↦ p ];
  args = tool ∷ args;
  setpgid = false;
  err = elim (w.look_path tool) [ none ↦ some (w.look_err tool) | some p ↦ none ];
}

unfoldable pub exit_code_or_zero : Option ℤ → ℤ
exit_code_or_zero none = pos 0
exit_code_or_zero (some code) = code

-- The run of a command that the sandbox has wrapped: the response so far, the overflow of the standard
-- output, and the error of the run.
pub record Run : Type 0 where
  pub response : ExecuteResponse
  pub overflow : Option Error
  pub run_err : Option Error

unfoldable pub collect : Config → Outcome → Run
collect cfg out =
    let stdout = write_all (init fresh cfg.output_cap_bytes) out.stdout_writes in
    let stderr = write_all (init fresh cfg.output_cap_bytes) out.stderr_writes in
    record {
      response = record {
        exit_code = exit_code_or_zero out.exit_code;
        stdout = bytes stdout;
        stderr = bytes stderr;
        parse_quality = unspecified;
        discovery = none;
      };
      overflow = err stdout;
      run_err = out.run_err;
    }

-- The command that runs the tool: wrapped by `sandbox.Apply`.
unfoldable pub sandboxed : World → Bytes → List Bytes → Cmd
sandboxed w tool args = apply w.look_path (command w tool args) (default_config w.getenv)

unfoldable pub run_tool : World → Context → Bytes → List Bytes → Bytes → Run
unfolding collect
run_tool w ctx tool args stdin =
    collect (default_config w.getenv) (run_cmd w ctx (sandboxed w tool args) stdin)

-- The error of a parser, as its `Execute` passes it on: wrapped or not.
unfoldable pub pass_parse_err : Option Bytes → Option Error → Option Error
pass_parse_err format none = none
pass_parse_err none (some e) = some e
pass_parse_err (some format) (some e) = some (wrapping format [] e)

abbrev parsed_response : ExecuteResponse → Parsed → ExecuteResponse
parsed_response resp p = record resp { parse_quality = p.quality; discovery = some p.discovery }

-- `runErr != nil && len(stdout.Bytes()) == 0`
unfoldable pub hard_failure : Option Error → Bytes → Option Error
hard_failure none stdout = none
hard_failure (some e) stdout = if is_empty stdout then some e else none

after_parse :
    Bytes → Option Bytes → ExecuteResponse → Option Error → Parsed → ExecuteResponse × Option Error
after_parse tool format resp (some e) p = (
  record (parsed_response resp p) { parse_quality = failed },
  some (wrapping (tool ++ codes " exec: %w") [] e),
)
after_parse tool format resp none p = (parsed_response resp p, pass_parse_err format p.error)

-- Behind the run: overflow first, then the parser, then a run that failed with no output, then the
-- parser's error.
unfoldable pub settle_run :
    Bytes → Option Bytes → Run → (Bytes → Parsed) → ExecuteResponse × Option Error
unfolding after_parse
settle_run tool format r parse = elim r.overflow [
  | some e ↦ (r.response, some (wrapping (tool ++ codes " stdout: %w") [] e))
  | none ↦
      after_parse tool format r.response (hard_failure r.run_err r.response.stdout)
        (parse r.response.stdout)
]

-- `Execute` from the filtered arguments on: a rejection ends it before anything runs.
unfoldable pub run_filtered :
    Bytes
    → Filtered
    → (List Bytes → ExecuteResponse × Option Error)
    → ExecuteResponse × Option Error
run_filtered tool f continue = elim f.error [
  | some e ↦ (failed_response, some (wrapping (tool ++ codes " args policy: %w") [] e))
  | none ↦ continue f.args
]

-- `req.Target == ""` ends `Execute` at once.
unfoldable pub require_target :
    Bytes → ExecuteRequest → ExecuteResponse × Option Error → ExecuteResponse × Option Error
require_target tool req rest =
    if is_empty req.target
    then (failed_response, some (message (tool ++ codes ": target is required") []))
    else rest
