-- ===== src/Parsers/Tool/Laws.antt =====
-- The shared part of `Execute` in parsers/*/*.go: what runs, and what an answer without error holds.
use gibson_tool_runner.Base.{
  Bytes, false, List, ◌∷◌, Option, none, some, Error, ◌≡◌, ◌⊎◌, refl, sym, ap, ◌∙◌, subst, arith,
  is_empty, inl, inr,
}
use gibson_tool_runner.Process.{run_cmd, World, Context, Outcome}
use gibson_tool_runner.Registry.{ExecuteResponse}
use gibson_tool_runner.Sandbox.Buffer.{fresh, init, bytes, write_all}
use gibson_tool_runner.Sandbox.Buffer.Laws.{concat, bytes-write_all_complete}
use gibson_tool_runner.Sandbox.Config.{default_config}
use gibson_tool_runner.Sandbox.Config.Laws.{default_config-InRange}
use gibson_tool_runner.Sandbox.Shell.Wrapper.{RunsLimited, apply-RunsLimited}
use gibson_tool_runner.Parsers.Lines.{Parsed}
use gibson_tool_runner.Parsers.Tool.{
  command, sandboxed, Run, collect, run_tool, pass_parse_err, hard_failure, settle_run,
}

-- Every tool runs under the configured memory limit, in a process group of its own, as exactly the
-- words of its command line, whatever bytes a request put into them.
pub sandboxed-RunsLimited :
    (w : World) (tool : Bytes) (args : List Bytes)
    → RunsLimited w.look_path
        (default_config w.getenv).memory_bytes
        (tool ∷ args)
        (sandboxed w tool args)
unfolding sandboxed
sandboxed-RunsLimited w tool args =
    apply-RunsLimited w.look_path (command w tool args) (default_config w.getenv)
      (default_config-InRange w.getenv).1.1

-- What an answer without error holds.
pub record IsComplete (out : Outcome) (parse : Bytes → Parsed) (resp : ExecuteResponse)
    : Type 0 where
  pub whole_output : resp.stdout ≡ concat out.stdout_writes
  pub discovered : resp.discovery ≡ some (parse (concat out.stdout_writes)).discovery
  pub graded : resp.parse_quality ≡ (parse (concat out.stdout_writes)).quality
  pub parsed : (parse (concat out.stdout_writes)).error ≡ none
  pub ran : (out.run_err ≡ none) ⊎ (is_empty (concat out.stdout_writes) ≡ false)

pass_parse_err-none :
    (format : Option Bytes) (e : Option Error) → pass_parse_err format e ≡ none → e ≡ none
unfolding pass_parse_err
pass_parse_err-none format none h = refl
pass_parse_err-none none (some e) h = cc
pass_parse_err-none (some format) (some e) h = cc

hard_failure-none :
    (e : Option Error) (s : Bytes) → hard_failure e s ≡ none → (e ≡ none) ⊎ (is_empty s ≡ false)
unfolding hard_failure
hard_failure-none none s h = inl refl
hard_failure-none (some e) s h = inr (ground arith)

settle_run-inv :
    (tool : Bytes) (format : Option Bytes) (r : Run) (parse : Bytes → Parsed)
    (resp : ExecuteResponse)
    → settle_run tool format r parse ≡ (resp, none)
    → (r.overflow ≡ none)
      × (hard_failure r.run_err r.response.stdout ≡ none)
      × (resp ≡ record (r.response) {
        parse_quality = (parse r.response.stdout).quality;
        discovery = some (parse r.response.stdout).discovery;
      })
      × (pass_parse_err format (parse r.response.stdout).error ≡ none)
unfolding settle_run
settle_run-inv tool format r parse resp h = ground arith

-- When the shared part of `Execute` returns no error, the response holds all that the tool wrote to its
-- standard output, with nothing cut off, and the discovery and quality that the parser makes of it; the
-- parser reported no error, and the run did not fail without output.
pub settle_run-IsComplete :
    (w : World) (ctx : Context) (tool : Bytes) (args : List Bytes) (stdin : Bytes)
    (format : Option Bytes) (parse : Bytes → Parsed) (resp : ExecuteResponse)
    → settle_run tool format (run_tool w ctx tool args stdin) parse ≡ (resp, none)
    → IsComplete (run_cmd w ctx (sandboxed w tool args) stdin) parse resp
unfolding run_tool collect
settle_run-IsComplete w ctx tool args stdin format parse resp h =
    let (kept, soft, same, passed) =
      settle_run-inv tool format (run_tool w ctx tool args stdin) parse resp h in
    let out = run_cmd w ctx (sandboxed w tool args) stdin in
    let cap = (default_config w.getenv).output_cap_bytes in
    let whole : bytes (write_all (init fresh cap) out.stdout_writes) ≡ concat out.stdout_writes =
      bytes-write_all_complete cap out.stdout_writes kept in
    record {
      whole_output = ap (λ q. q.stdout) same ∙ whole;
      discovered = ap (λ q. q.discovery) same ∙ ap (λ t. some (parse t).discovery) whole;
      graded = ap (λ q. q.parse_quality) same ∙ ap (λ t. (parse t).quality) whole;
      parsed = sym (ap (λ t. (parse t).error) whole) ∙ pass_parse_err-none format _ passed;
      ran =
          subst (λ t. (out.run_err ≡ none) ⊎ (is_empty t ≡ false)) whole
            (hard_failure-none _ _ soft);
    }
