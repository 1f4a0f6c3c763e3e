-- ===== src/Parsers/Tools/Commands.antt =====
-- parsers/*/*.go, `Execute` of all eight tools: what ran when it returns no error.
use gibson_tool_runner.Base.{
  Bytes, codes, List, [], ◌∷◌, ◌++◌, Option, none, some, Error, ◌≡◌, refl, ◌∙◌, sym, ap, arith,
  subst, is_empty, Option-cases, inl, inr,
}
use gibson_tool_runner.Graph.{nothing}
use gibson_tool_runner.Process.{run_cmd, World, Context}
use gibson_tool_runner.Policy.Allowed.{Allowed}
use gibson_tool_runner.Registry.{
  Policies, ExecuteRequest, ExecuteResponse, Filtered, apply_policy, lookup_args_policy,
  policy_or_nil, structured, failed,
}
use gibson_tool_runner.Registry.Filter.{apply_policy-Allowed}
use gibson_tool_runner.Parsers.Lines.{Decoded, record_of, malformed, Parsed}
use gibson_tool_runner.Parsers.Lines.Laws.{Decoded-cases}
use gibson_tool_runner.Parsers.Tool.{
  Run, hard_failure, pass_parse_err, sandboxed, run_tool, settle_run, run_filtered, require_target,
}
use gibson_tool_runner.Sandbox.Shell.{apply, shell_wrap_args}
use gibson_tool_runner.Parsers.Tool.Laws.{IsComplete, settle_run-IsComplete, sandboxed-RunsLimited}
use gibson_tool_runner.Parsers.Tools.Words.{words_for, line_of, line_of-words_for}
use gibson_tool_runner.Sandbox.Config.{default_config}
use gibson_tool_runner.Sandbox.Shell.Wrapper.{RunsLimited}
use gibson_tool_runner.Parsers.Amass
use gibson_tool_runner.Parsers.Dnsx
use gibson_tool_runner.Parsers.Httpx
use gibson_tool_runner.Parsers.Masscan
use gibson_tool_runner.Parsers.Naabu
use gibson_tool_runner.Parsers.Nmap
use gibson_tool_runner.Parsers.Nuclei
use gibson_tool_runner.Parsers.Subfinder
use gibson_tool_runner.Parsers.Tools.{
  Tool, amass, dnsx, httpx, masscan, naabu, nmap, nuclei, subfinder, Decoders, parser_of, name_of,
}

require_target-inv :
    (tool : Bytes) (req : ExecuteRequest) (rest : ExecuteResponse × Option Error)
    (resp : ExecuteResponse)
    → require_target tool req rest ≡ (resp, none)
    → rest ≡ (resp, none)
unfolding require_target
require_target-inv tool req rest resp h = ground arith

run_filtered-inv :
    (tool : Bytes) (f : Filtered) (continue : List Bytes → ExecuteResponse × Option Error)
    (resp : ExecuteResponse)
    → run_filtered tool f continue ≡ (resp, none)
    → continue f.args ≡ (resp, none)
unfolding run_filtered
run_filtered-inv tool f continue resp h = ground arith

late-inv :
    (tool : Bytes) (format : Option Bytes) (r : Run) (parse : Bytes → Parsed)
    (resp : ExecuteResponse)
    → settle_run tool format (Nuclei.late_exit_code r) parse ≡ (resp, none)
    → settle_run tool format r parse ≡ (resp, none)
unfolding Nuclei.late_exit_code settle_run
late-inv tool format r parse resp h = elim (Option-cases r.overflow) [
  | inl e ↦
      let same : Nuclei.late_exit_code r ≡ r = ground arith in
      sym (ap (λ (x : Run). settle_run tool format x parse) same) ∙ h
  | inr (err, e) ↦ absurd (ground arith)
]

-- The standard input of a tool, and its parser.
abbrev pub stdin_of : Tool → ExecuteRequest → Bytes
stdin_of dnsx req = req.target ++ (b'\n' ∷ [])
stdin_of _ req = []

-- What `parseXML` comes to where it has no error; on an error the discovery of the response is nil.
abbrev pub xml_parsed : Decoded (List Nmap.NmapHost) → Parsed
xml_parsed (record_of hosts) = record {
  discovery = Nmap.add_all nothing hosts;
  quality = structured;
  error = none;
}
xml_parsed (malformed e) = record { discovery = nothing; quality = failed; error = some e }

abbrev pub parse_of : Tool → Decoders → ExecuteRequest → Bytes → Parsed
parse_of amass d req = Amass.parse_json_lines d.of_amass req.target
parse_of dnsx d req = Dnsx.parse_json_lines d.of_dnsx
parse_of httpx d req = Httpx.parse_json_lines d.to_lower d.of_httpx
parse_of masscan d req = Masscan.parse_json d.of_masscan
parse_of naabu d req = Naabu.parse_json_lines d.of_naabu
parse_of nmap d req = λ xml. xml_parsed (d.of_nmap xml)
parse_of nuclei d req = Nuclei.parse_json_lines d.to_lower d.of_nuclei
parse_of subfinder d req = Subfinder.parse_json_lines d.of_subfinder req.target

-- With no error nmap's `Execute` is that of the other tools.
nmap_settle-inv :
    (parse : Bytes → Decoded (List Nmap.NmapHost)) (r : Run) (resp : ExecuteResponse)
    → Nmap.settle parse r ≡ (resp, none)
    → settle_run Nmap.tool_name (some (codes "nmap parse: %w")) r (λ xml. xml_parsed (parse xml))
      ≡ (resp, none)
unfolding Nmap.settle Nmap.parse_xml settle_run pass_parse_err
nmap_settle-inv parse r resp h = elim (Option-cases r.overflow) [
  | inr (err, e) ↦ absurd (ground arith)
  | inl e ↦ elim (Option-cases (hard_failure r.run_err r.response.stdout)) [
    | inr (err, f) ↦ absurd (ground arith)
    | inl f ↦ elim (Decoded-cases (parse r.response.stdout)) [
      | inl (hosts, g) ↦ ground arith
      | inr (err, g) ↦ absurd (ground arith)
    ]
  ]
]

nmap_execute-inv :
    (parse : Bytes → Decoded (List Nmap.NmapHost)) (policies : Policies) (w : World) (ctx : Context)
    (req : ExecuteRequest) (resp : ExecuteResponse)
    → Nmap.execute parse policies w ctx req ≡ (resp, none)
    → Nmap.settle parse (
        run_tool w ctx Nmap.tool_name
          (Nmap.line req (apply_policy policies Nmap.tool_name req.args).args)
          [])
      ≡ (resp, none)
unfolding Nmap.execute Nmap.build_args
nmap_execute-inv parse policies w ctx req resp h = ground arith

module _ (d : Decoders) (policies : Policies) (w : World) (ctx : Context)
    (req : ExecuteRequest) where
  sandboxed-words_for :
      (t : Tool) (args : List Bytes)
      → RunsLimited w.look_path
          (default_config w.getenv).memory_bytes
          (words_for t req args)
          (sandboxed w (name_of t) (line_of t req args))
  sandboxed-words_for t args =
      subst
        (λ (line : List Bytes).
          RunsLimited w.look_path (default_config w.getenv).memory_bytes line
            (sandboxed w (name_of t) (line_of t req args)))
        (line_of-words_for t req args) (sandboxed-RunsLimited w (name_of t) (line_of t req args))

  -- A tool that the path look-up does not find gives no complete response.
  IsComplete-found :
      (tool : Bytes) (args : List Bytes) (stdin : Bytes) (parse : Bytes → Parsed)
      (resp : ExecuteResponse)
      → IsComplete (run_cmd w ctx (sandboxed w tool args) stdin) parse resp
      → (path : Bytes) × (w.look_path tool ≡ some path)
  unfolding run_cmd sandboxed apply shell_wrap_args is_empty
  IsComplete-found tool args stdin parse resp h = elim (Option-cases (w.look_path tool)) [
    | inr found ↦ found
    | inl missing ↦ elim h.ran [
      | inl ran ↦ absurd (ground arith)
      | inr printed ↦ absurd (ground arith)
    ]
  ]

  -- The run behind a response: the tool was found, the extra arguments are those that `ApplyPolicy` returned and conform to
  -- the policy, the command runs the words written out for the tool under the memory limit, and the
  -- response is complete.
  pub record Ran (t : Tool) (resp : ExecuteResponse) : Type 0 where
    pub filtered : List Bytes
    pub found : (path : Bytes) × (w.look_path (name_of t) ≡ some path)
    pub passed : filtered ≡ (apply_policy policies (name_of t) req.args).args
    pub conforms : Allowed (policy_or_nil (lookup_args_policy policies (name_of t))) filtered
    pub limited :
        RunsLimited w.look_path
          (default_config w.getenv).memory_bytes
          (words_for t req filtered)
          (sandboxed w (name_of t) (line_of t req filtered))
    pub complete :
        IsComplete
          (run_cmd w ctx (sandboxed w (name_of t) (line_of t req filtered)) (stdin_of t req))
          (parse_of t d req)
          resp

  complete-Ran :
      (t : Tool) (resp : ExecuteResponse)
      → IsComplete
          (run_cmd w ctx
            (sandboxed w
              (name_of t)
              (line_of t req (apply_policy policies (name_of t) req.args).args))
            (stdin_of t req))
          (parse_of t d req)
          resp
      → Ran t resp
  complete-Ran t resp h =
      let f = apply_policy policies (name_of t) req.args in
      record {
        filtered = f.args;
        found =
            IsComplete-found (name_of t) (line_of t req f.args) (stdin_of t req) (parse_of t d req)
              resp h;
        passed = refl;
        conforms = apply_policy-Allowed policies (name_of t) req.args;
        limited = sandboxed-words_for t f.args;
        complete = h;
      }

  shared-Ran :
      (t : Tool) (format : Option Bytes) (resp : ExecuteResponse)
      → require_target (name_of t) req (
          run_filtered (name_of t) (apply_policy policies (name_of t) req.args) λ args.
            settle_run
              (name_of t)
              format
              (run_tool w ctx (name_of t) (line_of t req args) (stdin_of t req))
              (parse_of t d req))
        ≡ (resp, none)
      → Ran t resp
  shared-Ran t format resp h = complete-Ran t resp (
      settle_run-IsComplete w ctx (name_of t) _ (stdin_of t req) format (parse_of t d req) resp
        (run_filtered-inv _ _ _ resp (require_target-inv _ req _ resp h)))

  nuclei-Ran :
      (resp : ExecuteResponse)
      → (parser_of d nuclei).execute policies w ctx req ≡ (resp, none)
      → Ran nuclei resp
  unfolding Nuclei.execute
  nuclei-Ran resp h = complete-Ran nuclei resp (
      settle_run-IsComplete w ctx Nuclei.tool_name _ [] _ _ resp
        (late-inv _ _ _ _ resp (run_filtered-inv _ _ _ resp (require_target-inv _ req _ resp h))))

  nmap-Ran :
      (resp : ExecuteResponse)
      → (parser_of d nmap).execute policies w ctx req ≡ (resp, none)
      → Ran nmap resp
  nmap-Ran resp h = complete-Ran nmap resp (
      settle_run-IsComplete w ctx Nmap.tool_name _ [] _ _ resp
        (nmap_settle-inv d.of_nmap _ resp (nmap_execute-inv d.of_nmap policies w ctx req resp h)))

  pub execute-Ran :
      (t : Tool) (resp : ExecuteResponse)
      → (parser_of d t).execute policies w ctx req ≡ (resp, none)
      → Ran t resp
  unfolding Amass.execute Dnsx.execute Httpx.execute Masscan.execute Naabu.execute Subfinder.execute
  execute-Ran amass resp h = shared-Ran amass _ resp h
  execute-Ran dnsx resp h = shared-Ran dnsx _ resp h
  execute-Ran httpx resp h = shared-Ran httpx _ resp h
  execute-Ran masscan resp h = shared-Ran masscan _ resp h
  execute-Ran naabu resp h = shared-Ran naabu _ resp h
  execute-Ran nmap resp h = nmap-Ran resp h
  execute-Ran nuclei resp h = nuclei-Ran resp h
  execute-Ran subfinder resp h = shared-Ran subfinder _ resp h
