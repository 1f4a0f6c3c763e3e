-- ===== src/Parsers/Links/Scans.antt =====
-- parsers/nmap/nmap.go, `parseXML`: the references of its loops.
use gibson_tool_runner.Base.{
  Bytes, true, List, [], ◌∷◌, ◌++◌, ◌≡◌, refl, inl, inr, is_empty, Bool-cases,
}
use gibson_tool_runner.Graph.{Host, Port, DiscoveryResult, nothing}
use gibson_tool_runner.Parsers.Links.{
  has_id, has_id_last, IsLinked, nothing-IsLinked, add_host-IsLinked, add_port-IsLinked,
  add_service-IsLinked,
}
use gibson_tool_runner.Parsers.Nmap
use gibson_tool_runner.Parsers.Nmap.{
  NmapService, NmapPort, NmapHost, host_to_proto, port_to_proto, service_to_proto, id_or_empty,
  add_all,
}

abbrev HasHost : Bytes → DiscoveryResult → Type 0
HasHost id d = has_id (λ (h : Host). h.id) id d.hosts ≡ true

service-IsLinked :
    (s : NmapService) (port_id : Bytes) (d : DiscoveryResult)
    → has_id (λ (p : Port). p.id) port_id d.ports ≡ true
    → IsLinked d
    → IsLinked (Nmap.add_service s port_id d)
unfolding Nmap.add_service service_to_proto
service-IsLinked s port_id d there l = elim (Bool-cases (is_empty s.name)) [
  | inl unnamed ↦ rw unnamed l
  | inr named ↦ rw named (add_service-IsLinked d (service_to_proto s port_id) (inr there) l)
]

hosts-service :
    (s : NmapService) (port_id : Bytes) (d : DiscoveryResult)
    → (Nmap.add_service s port_id d).hosts ≡ d.hosts
unfolding Nmap.add_service
hosts-service s port_id d = elim (Bool-cases (is_empty s.name)) [ inl e ↦ rw e | inr e ↦ rw e ]

port-IsLinked :
    (host_id : Bytes) (d : DiscoveryResult) (p : NmapPort)
    → HasHost host_id d
    → IsLinked d
    → IsLinked (Nmap.add_port host_id d p)
unfolding Nmap.add_port port_to_proto id_or_empty
port-IsLinked host_id d p there l =
    service-IsLinked p.service _ (record d { ports = d.ports ++ (port_to_proto p host_id ∷ []) })
      (has_id_last (λ (q : Port). q.id) _ d.ports (port_to_proto p host_id) refl)
      (add_port-IsLinked d (port_to_proto p host_id) there l)

ports-IsLinked :
    (host_id : Bytes) (ps : List NmapPort) (d : DiscoveryResult)
    → HasHost host_id d
    → IsLinked d
    → IsLinked (Nmap.add_ports host_id d ps)
unfolding Nmap.add_ports Nmap.add_port
ports-IsLinked host_id [] d there l = l
ports-IsLinked host_id (p ∷ ps) d there l =
    ports-IsLinked host_id ps (Nmap.add_port host_id d p) (rw hosts-service there)
      (port-IsLinked host_id d p there l)

hosts-IsLinked : (hs : List NmapHost) (d : DiscoveryResult) → IsLinked d → IsLinked (add_all d hs)
unfolding add_all Nmap.add_host host_to_proto id_or_empty
hosts-IsLinked [] d l = l
hosts-IsLinked (h ∷ hs) d l = hosts-IsLinked hs _ (
    ports-IsLinked _ h.ports (record d { hosts = d.hosts ++ (host_to_proto h ∷ []) })
      (has_id_last (λ (x : Host). x.id) _ d.hosts (host_to_proto h) refl)
      (add_host-IsLinked d (host_to_proto h) l))

pub add_all-IsLinked : (hs : List NmapHost) → IsLinked (add_all nothing hs)
add_all-IsLinked hs = hosts-IsLinked hs nothing nothing-IsLinked
