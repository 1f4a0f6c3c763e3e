-- ===== src/Parsers/Masscan/Graph.antt =====
-- parsers/masscan/masscan.go: the nodes that `parseJSON` builds.
use gibson_tool_runner.Base.{
  true, false, List, [], ◌∷◌, ◌++◌, ◌≡◌, ap, ◌∙◌, map, foldl, Bytes, mem, none, some, Bool-cases,
  inl, inr,
}
use mathlib.Core.List.{flat_map}
use gibson_tool_runner.Graph.{Host, Port, DiscoveryResult, nothing}
use gibson_tool_runner.Registry.{structured}
use gibson_tool_runner.Parsers.Gather.{append_laws}
use gibson_tool_runner.Parsers.Lines.{Decoded, scan}
use gibson_tool_runner.Parsers.Lines.Laws.{records, loop_state-foldl, conclude-discovery}
use gibson_tool_runner.Parsers.Dedup.{
  firsts, host_id, host_table, index-host_table, assign-host_table, firsts_old, firsts_new,
}
use gibson_tool_runner.Parsers.Masscan.{
  MasscanPort, MasscanRecord, State, start, see_host, host_id_of, port_node, add_ports, step, clean,
  body_of, parse_json,
}

unfoldable pub host_of : MasscanRecord → Host
host_of r = record {
  id = some (host_id r.ip);
  ip = r.ip;
  hostname = none;
  mac_address = none;
  state = none;
  os = none;
}

abbrev pub ports_of : MasscanRecord → List Port
ports_of r = map (port_node (host_id r.ip)) r.ports

abbrev ip_of : MasscanRecord → Bytes
ip_of r = r.ip

-- One host for each address, and the ports of every record.
abbrev pub graph : List MasscanRecord → DiscoveryResult
graph rs = record nothing { hosts = map host_of (firsts ip_of [] rs); ports = flat_map ports_of rs }

-- The loop's state with these hosts and ports, behind these addresses.
abbrev state_of : List Host → List Port → List Bytes → State
state_of hosts ports seen = record {
  disc = record nothing { hosts = hosts; ports = ports };
  seen_hosts = host_table seen;
}

add_ports-map :
    (id : Bytes) (ps : List MasscanPort) (hosts : List Host) (ports : List Port) (seen : List Bytes)
    → add_ports id ps (state_of hosts ports seen)
      ≡ state_of hosts (ports ++ map (port_node id) ps) seen
unfolding add_ports
add_ports-map id [] hosts ports seen = simp append_laws
add_ports-map id (p ∷ ps) hosts ports seen = add_ports-map id ps hosts _ seen ∙ simp append_laws

step_old :
    (hosts : List Host) (ports : List Port) (seen : List Bytes) (r : MasscanRecord)
    → mem r.ip seen ≡ true
    → step (state_of hosts ports seen) r ≡ state_of hosts (ports ++ ports_of r) seen
unfolding step see_host host_id_of
step_old hosts ports seen r h =
    let found = index-host_table r.ip seen in
    rw (found, h) (add_ports-map (host_id r.ip) r.ports hosts ports seen)

step_new :
    (hosts : List Host) (ports : List Port) (seen : List Bytes) (r : MasscanRecord)
    → mem r.ip seen ≡ false
    → step (state_of hosts ports seen) r
      ≡ state_of (hosts ++ (host_of r ∷ [])) (ports ++ ports_of r) (seen ++ (r.ip ∷ []))
unfolding step see_host host_id_of host_of host_id
step_new hosts ports seen r h =
    let found = index-host_table r.ip seen in
    rw (found, h, assign-host_table r.ip seen h)
      (add_ports-map (host_id r.ip) r.ports (hosts ++ (host_of r ∷ [])) ports (seen ++ (r.ip ∷ [])))

foldl-step :
    (rs : List MasscanRecord) (hosts : List Host) (ports : List Port) (seen : List Bytes)
    → (foldl step (state_of hosts ports seen) rs).disc ≡ record nothing {
      hosts = hosts ++ map host_of (firsts ip_of seen rs);
      ports = ports ++ flat_map ports_of rs;
    }
unfolding flat_map
foldl-step [] hosts ports seen = unfold firsts in simp append_laws
foldl-step (r ∷ rs) hosts ports seen = elim (Bool-cases (mem r.ip seen)) [
  | inl old ↦ rw (firsts_old ip_of seen r rs old) (
      ap (λ (s : State). (foldl step s rs).disc) (step_old hosts ports seen r old)
      ∙ foldl-step rs hosts (ports ++ ports_of r) seen
      ∙ simp append_laws)
  | inr new ↦ rw (firsts_new ip_of seen r rs new) (
      ap (λ (s : State). (foldl step s rs).disc) (step_new hosts ports seen r new)
      ∙ foldl-step rs _ _ (seen ++ (r.ip ∷ []))
      ∙ simp append_laws)
]

pub parse_json-graph :
    (decode : Bytes → Decoded MasscanRecord) (text : Bytes)
    → (parse_json decode text).discovery ≡ graph (records clean decode (scan (body_of text)).tokens)
unfolding parse_json
parse_json-graph decode text =
    conclude-discovery _ structured _ _
    ∙ ap (λ (s : State). s.disc)
        (loop_state-foldl clean decode step (scan (body_of text)).tokens start 0)
    ∙ unfold host_table in foldl-step (records clean decode (scan (body_of text)).tokens) [] [] []
