-- ===== src/Parsers/Nmap/Graph.antt =====
-- parsers/nmap/nmap.go: the nodes that `parseXML` builds.
use gibson_tool_runner.Base.{
  List, [], ◌∷◌, ◌≡◌, Bytes, Option, pos, to_int32, refl, ◌∙◌, foldl, is_empty, none, some,
  Bool-cases, inl, inr, if◌then◌else◌,
}
use gibson_tool_runner.Graph.{DiscoveryResult, nothing}
use gibson_tool_runner.Parsers.Gather.{append_laws, merge, gather, foldl-gather}
use gibson_tool_runner.Parsers.Lines.{Decoded}
use gibson_tool_runner.Parsers.Lines.{record_of, malformed}
use gibson_tool_runner.Parsers.Nmap.{
  NmapPort, NmapHost, stable_host_id, stable_port_id, host_to_proto, port_to_proto,
  service_to_proto, id_or_empty, add_service, add_port, add_ports, add_host, add_all,
}

-- A port, and its service if that has a name.
abbrev pub port_nodes : Bytes → NmapPort → DiscoveryResult
port_nodes host_id p = record nothing {
  ports = port_to_proto p host_id ∷ [];
  services =
      if is_empty p.service.name
      then []
      else service_to_proto p.service (stable_port_id host_id (to_int32 (pos p.id)) p.protocol)
        ∷ [];
}

-- A host with its ports.
abbrev pub host_nodes : NmapHost → DiscoveryResult
host_nodes h =
    merge (record nothing { hosts = host_to_proto h ∷ [] })
      (gather (port_nodes (stable_host_id h)) h.ports)

abbrev pub graph : List NmapHost → DiscoveryResult
graph = gather host_nodes

add_port-merge :
    (host_id : Bytes) (d : DiscoveryResult) (p : NmapPort)
    → add_port host_id d p ≡ merge d (port_nodes host_id p)
unfolding add_port add_service merge port_to_proto id_or_empty
add_port-merge host_id d p = elim (Bool-cases (is_empty p.service.name)) [
  | inl e ↦ rw e (simp append_laws)
  | inr e ↦ rw e (simp append_laws)
]

add_ports-foldl :
    (host_id : Bytes) (ps : List NmapPort) (d : DiscoveryResult)
    → add_ports host_id d ps ≡ foldl (add_port host_id) d ps
unfolding add_ports
add_ports-foldl host_id [] d = refl
add_ports-foldl host_id (p ∷ ps) d = add_ports-foldl host_id ps (add_port host_id d p)

add_host-merge : (d : DiscoveryResult) (h : NmapHost) → add_host d h ≡ merge d (host_nodes h)
unfolding add_host host_to_proto id_or_empty
add_host-merge d h =
    add_ports-foldl (stable_host_id h) h.ports _
    ∙ foldl-gather _ (add_port (stable_host_id h)) (add_port-merge (stable_host_id h)) h.ports _
    ∙ unfold merge in simp append_laws

add_all-foldl : (hs : List NmapHost) (d : DiscoveryResult) → add_all d hs ≡ foldl add_host d hs
unfolding add_all
add_all-foldl [] d = refl
add_all-foldl (h ∷ hs) d = add_all-foldl hs (add_host d h)

-- No graph for a document that does not parse.
abbrev pub xml_graph : Decoded (List NmapHost) → Option DiscoveryResult
xml_graph (malformed e) = none
xml_graph (record_of hosts) = some (graph hosts)

pub add_all-graph : (hosts : List NmapHost) → add_all nothing hosts ≡ graph hosts
unfolding merge
add_all-graph hosts =
    add_all-foldl hosts nothing ∙ foldl-gather _ add_host add_host-merge hosts nothing
