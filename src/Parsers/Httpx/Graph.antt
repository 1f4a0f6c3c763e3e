-- ===== src/Parsers/Httpx/Graph.antt =====
-- parsers/httpx/httpx.go: the nodes that `parseJSONLines` builds.
use gibson_tool_runner.Base.{
  Bytes, not, List, [], ◌∷◌, ◌≡◌, refl, ◌∙◌, map, trim_space, is_empty, arith,
}
use gibson_tool_runner.Graph.{DiscoveryResult, nothing}
use gibson_tool_runner.Registry.{raw}
use gibson_tool_runner.Parsers.Gather.{append_laws, merge, filter, gather, foldl-gather}
use gibson_tool_runner.Parsers.Lines.{Decoded, scan}
use gibson_tool_runner.Parsers.Lines.Laws.{records, loop_state-foldl, conclude-discovery}
use gibson_tool_runner.Parsers.Httpx.{
  HttpxResult, service_node, endpoint_node, tech_node, tech_nodes, append_probe, parse_json_lines,
}

tech_nodes-map :
    (url : Bytes) (ts : List Bytes)
    → tech_nodes url ts ≡ map (tech_node url) (filter (λ t. not (is_empty t)) ts)
unfolding tech_nodes filter
tech_nodes-map url [] = refl
tech_nodes-map url (t ∷ ts) = ground (arith, tech_nodes-map url ts)

module _ (to_lower : Bytes → Bytes) where
  -- A service, an endpoint, and a technology for each name that is not empty.
  abbrev pub nodes : HttpxResult → DiscoveryResult
  nodes r = record nothing {
    services = service_node to_lower r ∷ [];
    endpoints = endpoint_node to_lower r ∷ [];
    technologies = map (tech_node r.url) (filter (λ t. not (is_empty t)) r.tech);
  }

  abbrev pub graph : List HttpxResult → DiscoveryResult
  graph = gather nodes

  append_probe-merge :
      (d : DiscoveryResult) (r : HttpxResult) → append_probe to_lower d r ≡ merge d (nodes r)
  unfolding append_probe merge
  append_probe-merge d r = rw (tech_nodes-map r.url r.tech) (simp append_laws)

  pub parse_json_lines-graph :
      (decode : Bytes → Decoded HttpxResult) (text : Bytes)
      → (parse_json_lines to_lower decode text).discovery
        ≡ graph (records trim_space decode (scan text).tokens)
  unfolding parse_json_lines merge
  parse_json_lines-graph decode text =
      conclude-discovery _ raw _ _
      ∙ loop_state-foldl trim_space decode (append_probe to_lower) (scan text).tokens nothing 0
      ∙ foldl-gather nodes (append_probe to_lower) append_probe-merge _ nothing
