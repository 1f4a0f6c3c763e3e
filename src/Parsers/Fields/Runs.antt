-- ===== src/Parsers/Fields/Runs.antt =====
-- parsers/*/*.go, `Execute` of the seven tools that print JSON: a run that goes well.
use gibson_tool_runner.Base.{
  ℕ, Bytes, false, List, [], Option, none, some, ◌≡◌, ◌≢◌, ◌⊎◌, ◌≤◌, sym, subst, ap, ◌∙◌, length,
  All, is_empty,
}
use gibson_tool_runner.Process.{run_cmd, World, Context}
use gibson_tool_runner.Registry.{Policies, ExecuteRequest, ExecuteResponse}
use gibson_tool_runner.Sandbox.Buffer.Laws.{concat}
use gibson_tool_runner.Sandbox.Config.{default_config}
use gibson_tool_runner.Json.{Members}
use gibson_tool_runner.Parsers.Lines.{Decoded, Parsed}
use gibson_tool_runner.Parsers.Lines.Laws.{quality_of}
use gibson_tool_runner.Parsers.Nmap.{NmapHost}
use gibson_tool_runner.Parsers.Tool.{sandboxed}
use gibson_tool_runner.Parsers.Tools.{Tool, Decoders, parser_of, name_of}
use gibson_tool_runner.Parsers.Tools.Words.{line_of}
use gibson_tool_runner.Parsers.Tools.Commands.{stdin_of, parse_of, execute-Ran}
use gibson_tool_runner.Parsers.Tools.Successes.{outcome, filtered, HasTarget, execute_none_iff}
use gibson_tool_runner.Parsers.Fields.{decoders}
use gibson_tool_runner.Parsers.Fields.Tools.{RecordOf}
use gibson_tool_runner.Parsers.Fields.Tools.Records.{AllHold}
use gibson_tool_runner.Parsers.Fields.Outputs.{
  PrintsJson, output_of, empty_quality_of, records_graph, parse_of-output_of,
}

module _ (parse_float : Bytes → Option ℕ) (to_lower : Bytes → Bytes)
    (of_nmap : Bytes → Decoded (List NmapHost)) (policies : Policies) (w : World) (ctx : Context)
    (req : ExecuteRequest) where
  abbrev pub given : Decoders
  given = decoders parse_float to_lower of_nmap

  -- A response that holds the output of a tool and the graph of these records.
  pub record Answers (t : Tool) (mss : List Members) (rs : List (RecordOf t)) : Type 0 where
    pub resp : ExecuteResponse
    pub returned : (parser_of given t).execute policies w ctx req ≡ (resp, none)
    pub held : resp.stdout ≡ output_of t mss
    pub discovered : resp.discovery ≡ some (records_graph to_lower t req.target rs)
    pub graded : resp.parse_quality ≡ quality_of (empty_quality_of t) rs

  -- A run that goes well: for a request with a target, arguments that the tool's policy accepts, and a
  -- child that prints objects for records, all as `AllHold` has it, within the output cap and in writes
  -- that are not empty, and that does not fail without output, `Execute` of each tool but nmap returns no
  -- error, the whole output, the graph of the records, and the quality STRUCTURED, or RAW for httpx with
  -- no record.
  pub execute-Answers :
      (format : ℕ → Bytes) (t : Tool)
      → PrintsJson t
      → (mss : List Members) (rs : List (RecordOf t)) → AllHold parse_float format t mss rs
      → HasTarget t req
      → (filtered given policies w ctx req t).error ≡ none
      → All (λ p. p ≢ []) (outcome given policies w ctx req t).stdout_writes
      → concat (outcome given policies w ctx req t).stdout_writes ≡ output_of t mss
      → length (output_of t mss) ≤ (default_config w.getenv).output_cap_bytes
      → ((outcome given policies w ctx req t).run_err ≡ none) ⊎ (is_empty (output_of t mss) ≡ false)
      → Answers t mss rs
  execute-Answers format t p mss rs h targeted accepted ne printed fits ran =
      let parse = parse_of t given req in
      let parsed = parse_of-output_of parse_float to_lower of_nmap req format t p mss rs h in
      let good = ap (λ text. (parse text).error) printed ∙ ap (λ (q : Parsed). q.error) parsed in
      let out = (parser_of given t).execute policies w ctx req in
      let ends = (execute_none_iff given policies w ctx req t ne).1 (
        targeted,
        accepted,
        (
          subst (λ s. length s ≤ (default_config w.getenv).output_cap_bytes) (sym printed) fits,
          subst (λ s. ((outcome given policies w ctx req t).run_err ≡ none) ⊎ (is_empty s ≡ false))
              (sym printed) ran,
          good,
        ),
      ) in
      let returned : out ≡ (out.0, none) = ap (λ e. (out.0, e)) ends in
      let behind = execute-Ran given policies w ctx req t out.0 returned in
      let whole =
        ap
          (λ args.
            concat
              (run_cmd w ctx (sandboxed w (name_of t) (line_of t req args))
                (stdin_of t req)).stdout_writes)
          behind.passed
        ∙ printed in
      record {
        resp = out.0;
        returned = returned;
        held = behind.complete.whole_output ∙ whole;
        discovered =
            behind.complete.discovered
            ∙ ap (λ text. some (parse text).discovery) whole
            ∙ ap (λ (q : Parsed). some q.discovery) parsed;
        graded =
            behind.complete.graded
            ∙ ap (λ text. (parse text).quality) whole
            ∙ ap (λ (q : Parsed). q.quality) parsed;
      }
