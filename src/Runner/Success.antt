-- ===== src/Runner/Success.antt =====
-- cmd/gibson-runner/main.go with the parsers of the tools that print JSON: a run that goes well, from the
-- environment to the answer.
use gibson_tool_runner.Base.{
  ℕ, Bytes, false, List, [], Option, none, some, ◌≡◌, ◌≢◌, ◌⊎◌, ◌≤◌, refl, ap, ◌∙◌, arith, length,
  All, is_empty, trim_space,
}
use gibson_tool_runner.Process.{World, Outcome}
use gibson_tool_runner.Registry.{Parser, Registry, done, ExecuteRequest, ExecuteResponse, lookup}
use gibson_tool_runner.Sandbox.Buffer.Laws.{concat}
use gibson_tool_runner.Sandbox.Config.{default_config}
use gibson_tool_runner.Json.{Members}
use gibson_tool_runner.Parsers.Lines.{Decoded, record_of}
use gibson_tool_runner.Parsers.Nmap.{NmapHost}
use gibson_tool_runner.Parsers.Tools.{
  Tool, amass, dnsx, httpx, masscan, naabu, nmap, nuclei, subfinder, name_of, start_up, parser_of,
  Decoders,
}
use gibson_tool_runner.Parsers.Tools.Startup.{IsReady-done}
use gibson_tool_runner.Parsers.Tools.Successes.{outcome, filtered, HasTarget}
use gibson_tool_runner.Parsers.Fields.Tools.{RecordOf}
use gibson_tool_runner.Parsers.Fields.Tools.Records.{AllHold}
use gibson_tool_runner.Parsers.Fields.Outputs.{PrintsJson, output_of, records_graph}
use gibson_tool_runner.Parsers.Fields.Runs.{execute-Answers}
use gibson_tool_runner.Parsers.Fields.{decoders}
use gibson_tool_runner.Runner.{
  Codec, deadline, output, output_line, env_tool_name, env_input_b64, discovery_or_empty, finish,
  emit_response, run_parser, run_request, run_default,
}
use gibson_tool_runner.Runner.Abi.{Requested}

is_empty-name_of : (t : Tool) → is_empty (name_of t) ≡ false
unfolding is_empty
is_empty-name_of amass = refl
is_empty-name_of dnsx = refl
is_empty-name_of httpx = refl
is_empty-name_of masscan = refl
is_empty-name_of naabu = refl
is_empty-name_of nmap = refl
is_empty-name_of nuclei = refl
is_empty-name_of subfinder = refl

module _ (c : Codec) (r : Registry) (w : World) where
  run_default_found :
      (p : Parser)
      → is_empty (trim_space (w.getenv env_tool_name)) ≡ false
      → lookup r (trim_space (w.getenv env_tool_name)) ≡ some p
      → is_empty (trim_space (w.getenv env_input_b64)) ≡ false
      → run_default c r w ≡ run_request c r w p (trim_space (w.getenv env_input_b64))
  unfolding run_default
  run_default_found p named found full = ground arith

  run_request_read :
      (p : Parser) (req : ExecuteRequest) (q : Requested c r w req)
      → run_request c r w p (trim_space (w.getenv env_input_b64)) ≡ run_parser c r w p req
  unfolding run_request
  run_request_read p req q =
      let base64 = q.reads_base64 in
      let request = q.reads_request in
      let input = q.reads_input in
      let timed = q.timed in ground (arith, base64, request, input, timed)

  finish_encoded :
      (resp : ExecuteResponse) (json b : Bytes)
      → c.encode_discovery (discovery_or_empty c resp.discovery) ≡ record_of json
      → c.encode_response (output json) ≡ record_of b
      → finish c (resp, none) ≡ record { code = 0; emitted = output_line b }
  unfolding finish emit_response
  finish_encoded resp json b enc out = ground arith

module _ (parse_float : Bytes → Option ℕ) (to_lower : Bytes → Bytes)
    (of_nmap : Bytes → Decoded (List NmapHost)) (c : Codec) (r : Registry) (w : World)
    (req : ExecuteRequest) where
  abbrev decoding : Decoders
  decoding = decoders parse_float to_lower of_nmap

  abbrev outcome_of : Tool → Outcome
  outcome_of t = outcome decoding r.policies w (deadline req.timeout) req t

  -- Behind the `init` functions, for an environment that names a tool other than nmap and holds a request
  -- with a target and with arguments that the tool's policy accepts, the process in default mode exits
  -- with 0, and its output line encodes the graph of the records, if the child prints objects for the
  -- records, as `AllHold` has it, within the output cap, in writes that are not empty, and does not fail
  -- without output, and if protojson encodes the graph and the response.
  pub run_default_answers :
      start_up decoding ≡ done r
      → (format : ℕ → Bytes) (t : Tool) → PrintsJson t
      → trim_space (w.getenv env_tool_name) ≡ name_of t
      → is_empty (trim_space (w.getenv env_input_b64)) ≡ false
      → Requested c r w req
      → HasTarget t req
      → (filtered decoding r.policies w (deadline req.timeout) req t).error ≡ none
      → (mss : List Members) (rs : List (RecordOf t)) → AllHold parse_float format t mss rs
      → All (λ p. p ≢ []) (outcome_of t).stdout_writes
      → concat (outcome_of t).stdout_writes ≡ output_of t mss
      → length (output_of t mss) ≤ (default_config w.getenv).output_cap_bytes
      → ((outcome_of t).run_err ≡ none) ⊎ (is_empty (output_of t mss) ≡ false)
      → (json b : Bytes)
      → c.encode_discovery (records_graph to_lower t req.target rs) ≡ record_of json
      → c.encode_response (output json) ≡ record_of b
      → run_default c r w ≡ record { code = 0; emitted = output_line b }
  unfolding run_parser discovery_or_empty
  run_default_answers started format t p named full q targeted accepted mss rs h ne printed fits ran
        json b enc out =
      let ready = IsReady-done decoding r started in
      let tool = parser_of decoding t in
      let answers =
        execute-Answers parse_float to_lower of_nmap r.policies w (deadline req.timeout) req format
          t p mss rs h targeted accepted ne printed fits ran in
      run_default_found c r w tool (ap is_empty named ∙ is_empty-name_of t)
        (ap (lookup r) named ∙ ready.finds t) full
      ∙ run_request_read c r w tool req q
      ∙ ap (finish c) answers.returned
      ∙ finish_encoded c r w answers.resp json b
          (ap (λ o. c.encode_discovery (discovery_or_empty c o)) answers.discovered ∙ enc) out
