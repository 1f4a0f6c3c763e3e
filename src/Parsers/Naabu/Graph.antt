-- ===== src/Parsers/Naabu/Graph.antt =====
-- parsers/naabu/naabu.go: the nodes that `parseJSONLines` builds.
use gibson_tool_runner.Base.{
  Bytes, codes, true, false, List, [], ◌∷◌, ◌++◌, none, some, ◌≡◌, ap, ◌∙◌, arith, mem, map, foldl,
  append-nil, append_assoc, trim_space, decimal_int, to_int32, Bool-cases, inl, inr,
}
use gibson_tool_runner.Graph.{DiscoveryResult, Host, Port, nothing}
use gibson_tool_runner.Registry.{structured}
use gibson_tool_runner.Parsers.Dedup.{
  firsts, host_id, host_table, index-host_table, assign-host_table, firsts_old, firsts_new,
}
use gibson_tool_runner.Parsers.Lines.{Decoded, scan}
use gibson_tool_runner.Parsers.Lines.Laws.{records, loop_state-foldl, conclude-discovery}
use gibson_tool_runner.Parsers.Tool.{non_empty}
use gibson_tool_runner.Parsers.Naabu.{
  NaabuRecord, State, start, see_host, host_id_of, add_port, step, parse_json_lines,
}

-- The nodes of one record.
unfoldable pub host_of : NaabuRecord → Host
host_of r = record {
  id = some (host_id r.ip);
  ip = r.ip;
  hostname = non_empty r.host;
  mac_address = none;
  state = none;
  os = none;
}

unfoldable pub port_of : NaabuRecord → Port
port_of r = record {
  id = some (host_id r.ip ++ (codes ":port:tcp/" ++ decimal_int r.port));
  host_id = host_id r.ip;
  number = to_int32 r.port;
  protocol = codes "tcp";
  state = none;
  reason = none;
}

abbrev ip_of : NaabuRecord → Bytes
ip_of r = r.ip

-- The loop's state with these hosts and ports, behind these addresses.
abbrev state_of : List Host → List Port → List Bytes → State
state_of hosts ports seen = record {
  disc = record nothing { hosts = hosts; ports = ports };
  hosts_by_ip = host_table seen;
}

step_old :
    (hosts : List Host) (ports : List Port) (seen : List Bytes) (r : NaabuRecord)
    → mem r.ip seen ≡ true
    → step (state_of hosts ports seen) r ≡ state_of hosts (ports ++ (port_of r ∷ [])) seen
unfolding step see_host host_id_of add_port port_of
step_old hosts ports seen r h = ground (arith, index-host_table r.ip seen)

step_new :
    (hosts : List Host) (ports : List Port) (seen : List Bytes) (r : NaabuRecord)
    → mem r.ip seen ≡ false
    → step (state_of hosts ports seen) r
      ≡ state_of (hosts ++ (host_of r ∷ [])) (ports ++ (port_of r ∷ [])) (seen ++ (r.ip ∷ []))
unfolding step see_host host_id_of add_port port_of host_of host_id
step_new hosts ports seen r h =
    ground (arith, index-host_table r.ip seen, assign-host_table r.ip seen)

foldl-step :
    (rs : List NaabuRecord) (hosts : List Host) (ports : List Port) (seen : List Bytes)
    → (foldl step (state_of hosts ports seen) rs).disc ≡ record nothing {
      hosts = hosts ++ map host_of (firsts ip_of seen rs);
      ports = ports ++ map port_of rs;
    }
foldl-step [] hosts ports seen = unfold firsts in rw (append-nil hosts, append-nil ports)
foldl-step (r ∷ rs) hosts ports seen = elim (Bool-cases (mem r.ip seen)) [
  | inl old ↦ rw (firsts_old ip_of seen r rs old) (
      ap (λ (s : State). (foldl step s rs).disc) (step_old hosts ports seen r old)
      ∙ foldl-step rs hosts (ports ++ (port_of r ∷ [])) seen
      ∙ rw (append_assoc ports))
  | inr new ↦ rw (firsts_new ip_of seen r rs new) (
      ap (λ (s : State). (foldl step s rs).disc) (step_new hosts ports seen r new)
      ∙ foldl-step rs _ _ (seen ++ (r.ip ∷ []))
      ∙ rw (append_assoc ports, append_assoc hosts))
]

-- One host for each address, that of the first record with the address, and one port for each record.
abbrev pub graph : List NaabuRecord → DiscoveryResult
graph rs = record nothing { hosts = map host_of (firsts ip_of [] rs); ports = map port_of rs }

pub parse_json_lines-graph :
    (decode : Bytes → Decoded NaabuRecord) (text : Bytes)
    → (parse_json_lines decode text).discovery
      ≡ graph (records trim_space decode (scan text).tokens)
unfolding parse_json_lines
parse_json_lines-graph decode text =
    conclude-discovery _ structured _ _
    ∙ ap (λ (s : State). s.disc)
        (loop_state-foldl trim_space decode step (scan text).tokens start 0)
    ∙ unfold host_table in foldl-step (records trim_space decode (scan text).tokens) [] [] []
