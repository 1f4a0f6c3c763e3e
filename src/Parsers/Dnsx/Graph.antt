-- ===== src/Parsers/Dnsx/Graph.antt =====
-- parsers/dnsx/dnsx.go: the nodes that `parseJSONLines` builds.
use gibson_tool_runner.Base.{
  Bytes, List, [], ◌∷◌, ◌++◌, ◌≡◌, refl, ◌∙◌, append-nil, append_assoc, map, trim_space,
}
use mathlib.Core.List.{map-append}
use gibson_tool_runner.Graph.{DiscoveryResult, nothing}
use gibson_tool_runner.Registry.{structured}
use gibson_tool_runner.Parsers.Gather.{append_laws, merge, gather, foldl-gather}
use gibson_tool_runner.Parsers.Lines.{Decoded, scan}
use gibson_tool_runner.Parsers.Lines.Laws.{records, loop_state-foldl, conclude-discovery}
use gibson_tool_runner.Parsers.Dnsx.{DnsxRecord, host_node, add_hosts, step, parse_json_lines}

-- A host for each address, those of the A records before those of the AAAA records.
abbrev pub nodes : DnsxRecord → DiscoveryResult
nodes r = record nothing { hosts = map (host_node r.host) (r.a ++ r.aaaa) }

abbrev pub graph : List DnsxRecord → DiscoveryResult
graph = gather nodes

add_hosts-map :
    (hostname : Bytes) (ips : List Bytes) (d : DiscoveryResult)
    → add_hosts hostname ips d ≡ record d { hosts = d.hosts ++ map (host_node hostname) ips }
unfolding add_hosts
add_hosts-map hostname [] d = rw (append-nil d.hosts) refl
add_hosts-map hostname (ip ∷ ips) d = add_hosts-map hostname ips _ ∙ rw (append_assoc d.hosts) refl

step-merge : (d : DiscoveryResult) (r : DnsxRecord) → step d r ≡ merge d (nodes r)
unfolding step merge
step-merge d r =
    add_hosts-map r.host r.aaaa _
    ∙ rw (add_hosts-map r.host r.a d, map-append (host_node r.host) r.a r.aaaa) (simp append_laws)

pub parse_json_lines-graph :
    (decode : Bytes → Decoded DnsxRecord) (text : Bytes)
    → (parse_json_lines decode text).discovery
      ≡ graph (records trim_space decode (scan text).tokens)
unfolding parse_json_lines merge
parse_json_lines-graph decode text =
    conclude-discovery _ structured _ _
    ∙ loop_state-foldl trim_space decode step (scan text).tokens nothing 0
    ∙ foldl-gather nodes step step-merge _ nothing
