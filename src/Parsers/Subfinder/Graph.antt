-- ===== src/Parsers/Subfinder/Graph.antt =====
-- parsers/subfinder/subfinder.go: the nodes that `parseJSONLines` builds.
use gibson_tool_runner.Base.{Bytes, List, [], ◌∷◌, ◌++◌, ◌≡◌, ◌∙◌, map, foldl, trim_space, some}
use gibson_tool_runner.Graph.{DiscoveryResult, nothing}
use gibson_tool_runner.Registry.{structured}
use gibson_tool_runner.Parsers.Gather.{append_laws}
use gibson_tool_runner.Parsers.Lines.{Decoded, scan}
use gibson_tool_runner.Parsers.Lines.Laws.{records, loop_state-foldl, conclude-discovery}
use gibson_tool_runner.Parsers.Subfinder.{
  SubfinderRecord, domain_id_of, start, sub_node, step, parse_json_lines,
}

-- The root domain, and one subdomain of it for each record, also for a host that comes twice.
abbrev pub graph : Bytes → List SubfinderRecord → DiscoveryResult
graph root rs = record nothing {
  domains = record { id = some (domain_id_of root); name = root } ∷ [];
  subdomains = map (sub_node (domain_id_of root)) rs;
}

foldl-step :
    (domain_id : Bytes) (rs : List SubfinderRecord) (d : DiscoveryResult)
    → foldl (step domain_id) d rs
      ≡ record d { subdomains = d.subdomains ++ map (sub_node domain_id) rs }
unfolding step
foldl-step domain_id [] d = simp append_laws
foldl-step domain_id (r ∷ rs) d = foldl-step domain_id rs _ ∙ simp append_laws

pub parse_json_lines-graph :
    (decode : Bytes → Decoded SubfinderRecord) (root text : Bytes)
    → (parse_json_lines decode root text).discovery
      ≡ graph root (records trim_space decode (scan text).tokens)
unfolding parse_json_lines
parse_json_lines-graph decode root text =
    conclude-discovery _ structured _ _
    ∙ loop_state-foldl trim_space decode (step (domain_id_of root)) (scan text).tokens (start root)
        0
    ∙ foldl-step (domain_id_of root) _ (start root)
