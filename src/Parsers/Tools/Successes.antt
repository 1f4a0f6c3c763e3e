-- ===== src/Parsers/Tools/Successes.antt =====
-- parsers/*/*.go, `Execute` of all eight tools: when it returns no error.
use gibson_tool_runner.Base.{
  Bytes, codes, false, List, [], Option, none, some, Error, ◌≡◌, ◌≢◌, ◌↔◌, ◌⊎◌, ◌≤◌, sym, subst,
  arith, length, All, inl, inr, is_empty,
}
use gibson_tool_runner.Process.{run_cmd, World, Context, Outcome}
use gibson_tool_runner.Registry.{Policies, ExecuteRequest, ExecuteResponse, Filtered, apply_policy}
use gibson_tool_runner.Sandbox.Buffer.Laws.{
  concat, bytes-write_all_complete, err-write_all-none_iff,
}
use gibson_tool_runner.Sandbox.Config.{Config, default_config}
use gibson_tool_runner.Parsers.Lines.{Decoded, Parsed}
use gibson_tool_runner.Parsers.Lines.Laws.{Decoded-cases}
use gibson_tool_runner.Parsers.Tool.{
  Run, collect, hard_failure, pass_parse_err, sandboxed, run_tool, settle_run, run_filtered,
  require_target,
}
use gibson_tool_runner.Parsers.Amass
use gibson_tool_runner.Parsers.Dnsx
use gibson_tool_runner.Parsers.Httpx
use gibson_tool_runner.Parsers.Masscan
use gibson_tool_runner.Parsers.Naabu
use gibson_tool_runner.Parsers.Nmap
use gibson_tool_runner.Parsers.Nuclei
use gibson_tool_runner.Parsers.Subfinder
use gibson_tool_runner.Parsers.Tools.{
  Tool, amass, dnsx, httpx, masscan, naabu, nmap, nuclei, subfinder, Decoders, parser_of, name_of,
}
use gibson_tool_runner.Parsers.Tools.Words.{line_of}
use gibson_tool_runner.Parsers.Tools.Commands.{stdin_of, parse_of, xml_parsed}

-- What the outcome of a run has to be: the output fits, the tool did not fail without output, and the
-- output parses.
abbrev pub IsGood : Outcome → Config → (Bytes → Parsed) → Type 0
IsGood out cfg parse =
    (length (concat out.stdout_writes) ≤ cfg.output_cap_bytes)
    × ((out.run_err ≡ none) ⊎ (is_empty (concat out.stdout_writes) ≡ false))
    × ((parse (concat out.stdout_writes)).error ≡ none)

settle_run_iff :
    (tool : Bytes) (format : Option Bytes) (r : Run) (parse : Bytes → Parsed)
    → ((settle_run tool format r parse).1 ≡ none) ↔ (
        (r.overflow ≡ none)
        × ((r.run_err ≡ none) ⊎ (is_empty r.response.stdout ≡ false))
        × ((parse r.response.stdout).error ≡ none))
unfolding settle_run pass_parse_err hard_failure
settle_run_iff tool format r parse = ground arith

require_target_iff :
    (tool : Bytes) (req : ExecuteRequest) (rest : ExecuteResponse × Option Error)
    → ((require_target tool req rest).1 ≡ none) ↔ ((is_empty req.target ≡ false) × (rest.1 ≡ none))
unfolding require_target
require_target_iff tool req rest = ground arith

run_filtered_iff :
    (tool : Bytes) (f : Filtered) (continue : List Bytes → ExecuteResponse × Option Error)
    → ((run_filtered tool f continue).1 ≡ none) ↔ ((f.error ≡ none) × ((continue f.args).1 ≡ none))
unfolding run_filtered
run_filtered_iff tool f continue = ground arith

late_iff :
    (tool : Bytes) (format : Option Bytes) (r : Run) (parse : Bytes → Parsed)
    → ((settle_run tool format (Nuclei.late_exit_code r) parse).1 ≡ none)
      ↔ ((settle_run tool format r parse).1 ≡ none)
unfolding Nuclei.late_exit_code settle_run
late_iff tool format r parse = ground arith

nmap_settle_iff :
    (parse : Bytes → Decoded (List Nmap.NmapHost)) (r : Run)
    → ((Nmap.settle parse r).1 ≡ none) ↔ (
        (settle_run Nmap.tool_name
          (some (codes "nmap parse: %w"))
          r
          (λ xml. xml_parsed (parse xml))).1
        ≡ none)
unfolding Nmap.settle Nmap.parse_xml settle_run pass_parse_err
nmap_settle_iff parse r = elim (Decoded-cases (parse r.response.stdout)) [
  | inl (hosts, g) ↦ ground arith
  | inr (err, g) ↦ ground arith
]

run_iff :
    (cfg : Config) (out : Outcome) (tool : Bytes) (format : Option Bytes) (parse : Bytes → Parsed)
    → All (λ p. p ≢ []) out.stdout_writes
    → ((settle_run tool format (collect cfg out) parse).1 ≡ none) ↔ IsGood out cfg parse
unfolding collect
run_iff cfg out tool format parse ne = (
  λ h.
      let (kept, ran, parsed) = (settle_run_iff tool format (collect cfg out) parse).0 h in
      let whole = bytes-write_all_complete cfg.output_cap_bytes out.stdout_writes kept in
      (
        (err-write_all-none_iff cfg.output_cap_bytes out.stdout_writes ne).0 kept,
        subst (λ t. (out.run_err ≡ none) ⊎ (is_empty t ≡ false)) whole ran,
        subst (λ t. (parse t).error ≡ none) whole parsed,
      ),
  λ (fits, ran, parsed).
      let kept = (err-write_all-none_iff cfg.output_cap_bytes out.stdout_writes ne).1 fits in
      let whole = bytes-write_all_complete cfg.output_cap_bytes out.stdout_writes kept in
      (settle_run_iff tool format (collect cfg out) parse).1 (
        kept,
        subst (λ t. (out.run_err ≡ none) ⊎ (is_empty t ≡ false)) (sym whole) ran,
        subst (λ t. (parse t).error ≡ none) (sym whole) parsed,
      ),
)

-- Every tool but nmap needs a target.
abbrev pub HasTarget : Tool → ExecuteRequest → Type 0
HasTarget nmap req = Unit
HasTarget t req = is_empty req.target ≡ false

module _ (d : Decoders) (policies : Policies) (w : World) (ctx : Context)
    (req : ExecuteRequest) where
  abbrev pub filtered : Tool → Filtered
  filtered t = apply_policy policies (name_of t) req.args

  -- The run of the tool with the arguments that come through the policy.
  abbrev pub outcome : Tool → Outcome
  outcome t =
      run_cmd w ctx (sandboxed w (name_of t) (line_of t req (filtered t).args)) (stdin_of t req)

  abbrev pub run_of : Tool → List Bytes → Run
  run_of t args = run_tool w ctx (name_of t) (line_of t req args) (stdin_of t req)

  IsGood-iff :
      (t : Tool) (format : Option Bytes)
      → All (λ p. p ≢ []) (outcome t).stdout_writes
      → ((settle_run (name_of t) format (run_of t (filtered t).args) (parse_of t d req)).1 ≡ none)
        ↔ IsGood (outcome t) (default_config w.getenv) (parse_of t d req)
  unfolding run_tool
  IsGood-iff t format ne =
      run_iff (default_config w.getenv) (outcome t) (name_of t) format (parse_of t d req) ne

  -- The shape that the tools share, around what comes behind the filter.
  shared_iff :
      {P : Type 0} (t : Tool) (continue : List Bytes → ExecuteResponse × Option Error)
      → ((continue (filtered t).args).1 ≡ none) ↔ P
      → ((require_target (name_of t) req (run_filtered (name_of t) (filtered t) continue)).1 ≡ none)
        ↔ ((is_empty req.target ≡ false) × ((filtered t).error ≡ none) × P)
  shared_iff t continue good = (
    λ h.
        let (targeted, h') = (require_target_iff (name_of t) req _).0 h in
        let (accepted, h'') = (run_filtered_iff (name_of t) (filtered t) continue).0 h' in
        (targeted, accepted, good.0 h''),
    λ (targeted, accepted, p).
        (require_target_iff (name_of t) req _).1
          (targeted, (run_filtered_iff (name_of t) (filtered t) continue).1 (accepted, good.1 p)),
  )

  nmap_iff : ((Nmap.execute d.of_nmap policies w ctx req).1 ≡ none) ↔ (
      ((filtered nmap).error ≡ none)
      × ((Nmap.settle d.of_nmap (run_of nmap (filtered nmap).args)).1 ≡ none))
  unfolding Nmap.execute Nmap.build_args
  nmap_iff = ground arith

  -- The `Execute` of a tool returns no error exactly when the request has a target, which nmap does not
  -- need, the policy of the tool accepts its arguments, and the run of the tool is good: its output fits
  -- into the buffer, it did not fail with no output, and its output parses. The child's writes are assumed
  -- not to be empty.
  pub execute_none_iff :
      (t : Tool)
      → All (λ p. p ≢ []) (outcome t).stdout_writes
      → (((parser_of d t).execute policies w ctx req).1 ≡ none) ↔ (
          HasTarget t req
          × ((filtered t).error ≡ none)
          × IsGood (outcome t) (default_config w.getenv) (parse_of t d req))
  unfolding Amass.execute Dnsx.execute Httpx.execute Masscan.execute Naabu.execute Nuclei.execute
      Subfinder.execute
  execute_none_iff amass ne = shared_iff amass _ (IsGood-iff amass _ ne)
  execute_none_iff dnsx ne = shared_iff dnsx _ (IsGood-iff dnsx _ ne)
  execute_none_iff httpx ne = shared_iff httpx _ (IsGood-iff httpx _ ne)
  execute_none_iff masscan ne = shared_iff masscan _ (IsGood-iff masscan _ ne)
  execute_none_iff naabu ne = shared_iff naabu _ (IsGood-iff naabu _ ne)
  execute_none_iff subfinder ne = shared_iff subfinder _ (IsGood-iff subfinder _ ne)
  execute_none_iff nuclei ne = shared_iff nuclei _ (
      let late = late_iff _ _ (run_of nuclei (filtered nuclei).args) (parse_of nuclei d req) in
      let good = IsGood-iff nuclei _ ne in (λ h. good.0 (late.0 h), λ h. late.1 (good.1 h)))
  execute_none_iff nmap ne =
      let settled = nmap_settle_iff d.of_nmap (run_of nmap (filtered nmap).args) in
      let good = IsGood-iff nmap _ ne in
      (
        λ h. let (accepted, s) = nmap_iff.0 h in (tt, accepted, good.0 (settled.0 s)),
        λ (x, accepted, s). nmap_iff.1 (accepted, settled.1 (good.1 s)),
      )
