-- ===== src/Parsers/Tools/Results.antt =====
-- parsers/*/*.go, `Execute` of all eight tools: the graph in a response.
use gibson_tool_runner.Base.{
  Bytes, List, [], Option, none, some, ◌≡◌, sym, subst, arith, trim_space, Option-cases, inl, inr,
}
use gibson_tool_runner.Graph.{nothing}
use gibson_tool_runner.Process.{World, Context}
use gibson_tool_runner.Registry.{Policies, ExecuteRequest, Filtered, structured, raw}
use gibson_tool_runner.Parsers.Lines.{Parsed}
use gibson_tool_runner.Parsers.Lines.Laws.{Decoded-cases}
use gibson_tool_runner.Parsers.Tool.{
  Run, run_tool, hard_failure, settle_run, run_filtered, require_target,
}
use gibson_tool_runner.Parsers.Tool.Discovery.{
  OnSome, settle_run-discovery, require_target-discovery, run_filtered-discovery, conclude-inv,
  run_tool-discovery,
}
use gibson_tool_runner.Parsers.Links.{IsLinked, nothing-IsLinked}
use gibson_tool_runner.Parsers.Links.Ports.{Tracked, step-Tracked_naabu, step-Tracked_masscan}
use gibson_tool_runner.Parsers.Links.Scans.{add_all-IsLinked}
use gibson_tool_runner.Parsers.Links.Names
use gibson_tool_runner.Parsers.Links.Names.{
  Rooted, start-Rooted_subfinder, step-Rooted_subfinder, start-Rooted_amass, step-Rooted_amass,
}
use gibson_tool_runner.Parsers.Links.Web
use gibson_tool_runner.Parsers.Links.Web.{append_probe-IsLinked}
use gibson_tool_runner.Parsers.Amass
use gibson_tool_runner.Parsers.Dnsx
use gibson_tool_runner.Parsers.Httpx
use gibson_tool_runner.Parsers.Masscan
use gibson_tool_runner.Parsers.Naabu
use gibson_tool_runner.Parsers.Nmap
use gibson_tool_runner.Parsers.Nmap.{add_all}
use gibson_tool_runner.Parsers.Nuclei
use gibson_tool_runner.Parsers.Subfinder
use gibson_tool_runner.Parsers.Tools.{
  Tool, amass, dnsx, httpx, masscan, naabu, nmap, nuclei, subfinder, Decoders, parser_of,
}

module _ (d : Decoders) where
  amass-IsLinked :
      (root text : Bytes) → IsLinked (Amass.parse_json_lines d.of_amass root text).discovery
  unfolding Amass.parse_json_lines
  amass-IsLinked root text =
      conclude-inv IsLinked _ (λ (s : Amass.State). Rooted (Amass.domain_id_of root) s.disc)
        trim_space d.of_amass _ structured _ _ _ (λ s h. h.0)
        (step-Rooted_amass (Amass.domain_id_of root)) (start-Rooted_amass root)

  dnsx-IsLinked : (text : Bytes) → IsLinked (Dnsx.parse_json_lines d.of_dnsx text).discovery
  unfolding Dnsx.parse_json_lines
  dnsx-IsLinked text =
      conclude-inv IsLinked _ IsLinked trim_space d.of_dnsx _ structured _ _ _ (λ s h. h)
        Names.step-IsLinked nothing-IsLinked

  httpx-IsLinked :
      (text : Bytes) → IsLinked (Httpx.parse_json_lines d.to_lower d.of_httpx text).discovery
  unfolding Httpx.parse_json_lines
  httpx-IsLinked text =
      conclude-inv IsLinked _ IsLinked trim_space d.of_httpx _ raw _ _ _ (λ s h. h)
        (λ s r. append_probe-IsLinked d.to_lower r s) nothing-IsLinked

  masscan-IsLinked : (text : Bytes) → IsLinked (Masscan.parse_json d.of_masscan text).discovery
  unfolding Masscan.parse_json
  masscan-IsLinked text =
      conclude-inv IsLinked _ (λ (s : Masscan.State). Tracked s.disc s.seen_hosts) Masscan.clean
        d.of_masscan _ structured _ _ _ (λ s h. h.0) step-Tracked_masscan (nothing-IsLinked, tt)

  naabu-IsLinked : (text : Bytes) → IsLinked (Naabu.parse_json_lines d.of_naabu text).discovery
  unfolding Naabu.parse_json_lines
  naabu-IsLinked text =
      conclude-inv IsLinked _ (λ (s : Naabu.State). Tracked s.disc s.hosts_by_ip) trim_space
        d.of_naabu _ structured _ _ _ (λ s h. h.0) step-Tracked_naabu (nothing-IsLinked, tt)

  nuclei-IsLinked :
      (text : Bytes) → IsLinked (Nuclei.parse_json_lines d.to_lower d.of_nuclei text).discovery
  unfolding Nuclei.parse_json_lines
  nuclei-IsLinked text =
      conclude-inv IsLinked _ IsLinked trim_space d.of_nuclei _ structured _ _ _ (λ s h. h)
        (Web.step-IsLinked d.to_lower) nothing-IsLinked

  subfinder-IsLinked :
      (root text : Bytes) → IsLinked (Subfinder.parse_json_lines d.of_subfinder root text).discovery
  unfolding Subfinder.parse_json_lines
  subfinder-IsLinked root text =
      conclude-inv IsLinked _ (Rooted (Subfinder.domain_id_of root)) trim_space d.of_subfinder _
        structured _ _ _ (λ s h. h.0) (step-Rooted_subfinder (Subfinder.domain_id_of root))
        (start-Rooted_subfinder root)

  nmap-OnSome : (xml : Bytes) → OnSome IsLinked (Nmap.parse_xml d.of_nmap xml).discovery
  unfolding Nmap.parse_xml
  nmap-OnSome xml = elim (Decoded-cases (d.of_nmap xml)) [
    | inl (hosts, e) ↦
        let same : (Nmap.parse_xml d.of_nmap xml).discovery ≡ some (add_all nothing hosts) =
          ground arith in
        subst (OnSome IsLinked) (sym same) (add_all-IsLinked hosts)
    | inr (err, e) ↦
        let same : (Nmap.parse_xml d.of_nmap xml).discovery ≡ none = ground arith in
        subst (OnSome IsLinked) (sym same) tt
  ]

  nmap-settle :
      (r : Run)
      → r.response.discovery ≡ none
      → OnSome IsLinked (Nmap.settle d.of_nmap r).0.discovery
  unfolding Nmap.settle
  nmap-settle r unset = elim (Option-cases r.overflow) [
    | inr (err, e) ↦
        let same : (Nmap.settle d.of_nmap r).0.discovery ≡ none = ground arith in
        subst (OnSome IsLinked) (sym same) tt
    | inl e ↦ elim (Option-cases (hard_failure r.run_err r.response.stdout)) [
      | inr (err, f) ↦
          let same : (Nmap.settle d.of_nmap r).0.discovery ≡ none = ground arith in
          subst (OnSome IsLinked) (sym same) tt
      | inl f ↦
          let same : (Nmap.settle d.of_nmap r).0.discovery
              ≡ (Nmap.parse_xml d.of_nmap r.response.stdout).discovery =
            ground arith in
          subst (OnSome IsLinked) (sym same) (nmap-OnSome r.response.stdout)
    ]
  ]

  pub late-discovery :
      (r : Run) → r.response.discovery ≡ none → (Nuclei.late_exit_code r).response.discovery ≡ none
  unfolding Nuclei.late_exit_code
  late-discovery r unset = elim (Option-cases r.overflow) [
    | inl e ↦ rw e unset
    | inr (err, e) ↦ rw e unset
  ]

  module _ (policies : Policies) (w : World) (ctx : Context) (req : ExecuteRequest) where
    shared-IsLinked :
        (tool : Bytes) (f : Filtered) (format : Option Bytes) (run : List Bytes → Run)
        (parse : Bytes → Parsed)
        → ((args : List Bytes) → (run args).response.discovery ≡ none)
        → ((text : Bytes) → IsLinked (parse text).discovery)
        → OnSome IsLinked
            (require_target tool req
              (run_filtered tool f λ args. settle_run tool format (run args) parse)).0.discovery
    shared-IsLinked tool f format run parse unset linked =
        require_target-discovery IsLinked tool req _ (
          run_filtered-discovery IsLinked tool f _
            λ args. settle_run-discovery IsLinked tool format (run args) parse (unset args) linked)

    nmap-execute : OnSome IsLinked (Nmap.execute d.of_nmap policies w ctx req).0.discovery
    unfolding Nmap.execute
    nmap-execute = elim (Option-cases (Nmap.build_args policies req).0) [
      | inr (err, e) ↦
          let same : (Nmap.execute d.of_nmap policies w ctx req).0.discovery ≡ none =
            ground arith in
          subst (OnSome IsLinked) (sym same) tt
      | inl e ↦
          let run = run_tool w ctx Nmap.tool_name (Nmap.build_args policies req).1 [] in
          let same : (Nmap.execute d.of_nmap policies w ctx req).0.discovery
              ≡ (Nmap.settle d.of_nmap run).0.discovery =
            ground arith in
          subst (OnSome IsLinked) (sym same) (nmap-settle run (run_tool-discovery w ctx _ _ _))
    ]

    -- In every response of every tool, whatever the tool printed, however its run ended, and with an
    -- error or without one, each reference between nodes of the discovery leads to a node that is in it.
    pub execute-IsLinked :
        (t : Tool) → OnSome IsLinked ((parser_of d t).execute policies w ctx req).0.discovery
    unfolding Amass.execute Dnsx.execute Httpx.execute Masscan.execute Naabu.execute Nuclei.execute
        Subfinder.execute
    execute-IsLinked amass =
        shared-IsLinked _ _ _ _ _ (λ args. run_tool-discovery w ctx _ _ _)
          (amass-IsLinked req.target)
    execute-IsLinked dnsx =
        shared-IsLinked _ _ _ _ _ (λ args. run_tool-discovery w ctx _ _ _) dnsx-IsLinked
    execute-IsLinked httpx =
        shared-IsLinked _ _ _ _ _ (λ args. run_tool-discovery w ctx _ _ _) httpx-IsLinked
    execute-IsLinked masscan =
        shared-IsLinked _ _ _ _ _ (λ args. run_tool-discovery w ctx _ _ _) masscan-IsLinked
    execute-IsLinked naabu =
        shared-IsLinked _ _ _ _ _ (λ args. run_tool-discovery w ctx _ _ _) naabu-IsLinked
    execute-IsLinked nuclei =
        shared-IsLinked _ _ _ _ _ (λ args. late-discovery _ (run_tool-discovery w ctx _ _ _))
          nuclei-IsLinked
    execute-IsLinked subfinder =
        shared-IsLinked _ _ _ _ _ (λ args. run_tool-discovery w ctx _ _ _)
          (subfinder-IsLinked req.target)
    execute-IsLinked nmap = nmap-execute
