-- ===== src/Parsers/Tools/Graphs.antt =====
-- parsers/*/*.go, `Execute` of all eight tools: the graph in a response is that of the records in it.
use gibson_tool_runner.Base.{
  Bytes, List, Option, none, some, ◌≡◌, refl, sym, ap, trim_space, Option-cases, inl, inr,
}
use gibson_tool_runner.Graph.{DiscoveryResult}
use gibson_tool_runner.Process.{World, Context}
use gibson_tool_runner.Registry.{Policies, ExecuteRequest}
use gibson_tool_runner.Parsers.Lines.{Decoded, scan}
use gibson_tool_runner.Parsers.Lines.Laws.{records, Decoded-cases}
use gibson_tool_runner.Parsers.Tool.{Run, run_tool, hard_failure}
use gibson_tool_runner.Parsers.Tool.Drawn.{Graphed, without, drawn, shared-Graphed}
use gibson_tool_runner.Parsers.Tool.Discovery.{run_tool-discovery}
use gibson_tool_runner.Parsers.Tools.Results.{late-discovery}
use gibson_tool_runner.Parsers.Amass
use gibson_tool_runner.Parsers.Dnsx
use gibson_tool_runner.Parsers.Httpx
use gibson_tool_runner.Parsers.Masscan
use gibson_tool_runner.Parsers.Naabu
use gibson_tool_runner.Parsers.Nmap
use gibson_tool_runner.Parsers.Nuclei
use gibson_tool_runner.Parsers.Subfinder
use gibson_tool_runner.Parsers.Amass.Graph as AmassGraph
use gibson_tool_runner.Parsers.Dnsx.Graph as DnsxGraph
use gibson_tool_runner.Parsers.Httpx.Graph as HttpxGraph
use gibson_tool_runner.Parsers.Masscan.Graph as MasscanGraph
use gibson_tool_runner.Parsers.Naabu.Graph as NaabuGraph
use gibson_tool_runner.Parsers.Nmap.Graph as NmapGraph
use gibson_tool_runner.Parsers.Nuclei.Graph as NucleiGraph
use gibson_tool_runner.Parsers.Subfinder.Graph as SubfinderGraph
use gibson_tool_runner.Parsers.Tools.{
  Tool, amass, dnsx, httpx, masscan, naabu, nmap, nuclei, subfinder, Decoders, parser_of,
}

-- The records of an output whose lines are JSON, up to the first that does not decode.
abbrev pub lines_of : {R : Type 0} → (Bytes → Decoded R) → Bytes → List R
lines_of decode text = records trim_space decode (scan text).tokens

-- The graph of a tool's output for a target, described with no loop and no map: none for an XML document
-- that does not parse.
abbrev pub graph_of : Tool → Decoders → Bytes → Bytes → Option DiscoveryResult
graph_of amass d target text = some (AmassGraph.graph target (lines_of d.of_amass text))
graph_of dnsx d target text = some (DnsxGraph.graph (lines_of d.of_dnsx text))
graph_of httpx d target text = some (HttpxGraph.graph d.to_lower (lines_of d.of_httpx text))
graph_of masscan d target text =
    some
      (MasscanGraph.graph (records Masscan.clean d.of_masscan (scan (Masscan.body_of text)).tokens))
graph_of naabu d target text = some (NaabuGraph.graph (lines_of d.of_naabu text))
graph_of nmap d target text = NmapGraph.xml_graph (d.of_nmap text)
graph_of nuclei d target text = some (NucleiGraph.graph d.to_lower (lines_of d.of_nuclei text))
graph_of subfinder d target text = some (SubfinderGraph.graph target (lines_of d.of_subfinder text))

module _ (d : Decoders) where
  nmap_settle-Graphed :
      (r : Run) (target : Bytes)
      → r.response.discovery ≡ none
      → Graphed (graph_of nmap d target) (Nmap.settle d.of_nmap r)
  unfolding Nmap.settle Nmap.parse_xml gibson_tool_runner.Parsers.Tool.pass_parse_err
  nmap_settle-Graphed r target unset = elim (Option-cases r.overflow) [
    | inr (err, e) ↦ rw (e, Nmap.settle) (without _ _ unset)
    | inl e ↦ elim (Option-cases (hard_failure r.run_err r.response.stdout)) [
      | inr (err, f) ↦ rw (e, f, Nmap.settle) (without _ _ unset)
      | inl f ↦ elim (Decoded-cases (d.of_nmap r.response.stdout)) [
        | inl (hosts, g) ↦
            rw (e, f, g, Nmap.settle, Nmap.parse_xml)
              (drawn _ _ (NmapGraph.graph hosts) (ap some (NmapGraph.add_all-graph hosts))
                (ap NmapGraph.xml_graph g))
        | inr (err, g) ↦ rw (e, f, g, Nmap.settle, Nmap.parse_xml) (without _ _ refl)
      ]
    ]
  ]

  module _ (policies : Policies) (w : World) (ctx : Context) (req : ExecuteRequest) where
    nmap-Graphed : Graphed (graph_of nmap d req.target) (Nmap.execute d.of_nmap policies w ctx req)
    unfolding Nmap.execute
    nmap-Graphed = elim (Option-cases (Nmap.build_args policies req).0) [
      | inr (err, e) ↦ rw (e, Nmap.execute) (without _ _ refl)
      | inl e ↦
          rw (e, Nmap.execute) (nmap_settle-Graphed _ req.target (run_tool-discovery w ctx _ _ _))
    ]

    -- Every answer of every tool's `Execute`, whatever the tool printed and however its run ended, either
    -- has an error and no discovery, or its discovery is the graph of the output that the same response
    -- holds, described by `graph_of` with no loop and no map. That may come with an error too.
    pub execute-Graphed :
        (t : Tool) → Graphed (graph_of t d req.target) ((parser_of d t).execute policies w ctx req)
    unfolding Amass.execute Dnsx.execute Httpx.execute Masscan.execute Naabu.execute Nuclei.execute
        Subfinder.execute
    execute-Graphed amass =
        shared-Graphed _ policies _ req _ _ _ (λ args. run_tool-discovery w ctx _ _ _)
          (λ text. ap some (sym (AmassGraph.parse_json_lines-graph d.of_amass req.target text)))
    execute-Graphed dnsx =
        shared-Graphed _ policies _ req _ _ _ (λ args. run_tool-discovery w ctx _ _ _)
          (λ text. ap some (sym (DnsxGraph.parse_json_lines-graph d.of_dnsx text)))
    execute-Graphed httpx =
        shared-Graphed _ policies _ req _ _ _ (λ args. run_tool-discovery w ctx _ _ _)
          (λ text. ap some (sym (HttpxGraph.parse_json_lines-graph d.to_lower d.of_httpx text)))
    execute-Graphed masscan =
        shared-Graphed _ policies _ req _ _ _ (λ args. run_tool-discovery w ctx _ _ _)
          (λ text. ap some (sym (MasscanGraph.parse_json-graph d.of_masscan text)))
    execute-Graphed naabu =
        shared-Graphed _ policies _ req _ _ _ (λ args. run_tool-discovery w ctx _ _ _)
          (λ text. ap some (sym (NaabuGraph.parse_json_lines-graph d.of_naabu text)))
    execute-Graphed nuclei =
        shared-Graphed _ policies _ req _ _ _
          (λ args. late-discovery d _ (run_tool-discovery w ctx _ _ _))
          (λ text. ap some (sym (NucleiGraph.parse_json_lines-graph d.to_lower d.of_nuclei text)))
    execute-Graphed subfinder =
        shared-Graphed _ policies _ req _ _ _ (λ args. run_tool-discovery w ctx _ _ _)
          (λ text.
            ap some (sym (SubfinderGraph.parse_json_lines-graph d.of_subfinder req.target text)))
    execute-Graphed nmap = nmap-Graphed
