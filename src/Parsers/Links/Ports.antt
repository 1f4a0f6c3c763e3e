-- ===== src/Parsers/Links/Ports.antt =====
-- parsers/naabu/naabu.go and parsers/masscan/masscan.go: the references of their steps, with the map from
-- addresses to hosts.
use gibson_tool_runner.Base.{
  Bytes, true, List, [], ◌∷◌, ◌++◌, some, ◌≡◌, refl, inl, inr, index, ◌==◌, arith, Option-cases,
  Bool-cases,
}
use gibson_tool_runner.Graph.{Host, Port, DiscoveryResult}
use gibson_tool_runner.Registry.{assign}
use gibson_tool_runner.Parsers.Links.{
  id_text, has_id, has_id_last, has_id_more, IsLinked, add_host-IsLinked, add_port-IsLinked,
}
use gibson_tool_runner.Parsers.Naabu
use gibson_tool_runner.Parsers.Naabu.{NaabuRecord}
use gibson_tool_runner.Parsers.Masscan
use gibson_tool_runner.Parsers.Masscan.{MasscanPort, MasscanRecord}

abbrev HasHost : List Host → Bytes → Type 0
HasHost hosts id = has_id (λ (h : Host). h.id) id hosts ≡ true

-- Every id of the map from addresses is that of a host.
abbrev Known : List Host → List (Bytes × Bytes) → Type 0
Known hosts [] = Unit
Known hosts ((ip, id) ∷ table) = HasHost hosts id × Known hosts table

Known-index :
    (hosts : List Host) (ip id : Bytes) (table : List (Bytes × Bytes))
    → Known hosts table
    → index ip table ≡ some id
    → HasHost hosts id
unfolding index
Known-index hosts ip id [] h e = cc
Known-index hosts ip id ((j, v) ∷ table) h e = elim (Bool-cases (j == ip)) [
  | inl same ↦ let f : v ≡ id = ground arith in rw (← f) h.0
  | inr other ↦ Known-index hosts ip id table h.1 (rw other at e)
]

Known-more :
    (hosts more : List Host) (table : List (Bytes × Bytes))
    → Known hosts table
    → Known (hosts ++ more) table
Known-more hosts more [] h = tt
Known-more hosts more ((j, v) ∷ table) h =
    (has_id_more (λ (h : Host). h.id) v hosts more h.0, Known-more hosts more table h.1)

Known-assign :
    (hosts : List Host) (ip id : Bytes) (table : List (Bytes × Bytes))
    → HasHost hosts id
    → Known hosts table
    → Known hosts (assign ip id table)
unfolding assign
Known-assign hosts ip id [] there h = (there, tt)
Known-assign hosts ip id ((j, v) ∷ table) there h = elim (Bool-cases (j == ip)) [
  | inl same ↦ rw same (there, h.1)
  | inr other ↦ rw other (h.0, Known-assign hosts ip id table there h.1)
]

-- The invariant of both loops.
abbrev pub Tracked : DiscoveryResult → List (Bytes × Bytes) → Type 0
Tracked d table = IsLinked d × Known d.hosts table

new-Tracked :
    (d : DiscoveryResult) (table : List (Bytes × Bytes)) (h : Host) (ip id : Bytes)
    → id_text h.id ≡ id
    → Tracked d table
    → Tracked (record d { hosts = d.hosts ++ (h ∷ []) }) (assign ip id table)
new-Tracked d table h ip id e (l, known) = (
  add_host-IsLinked d h l,
  Known-assign (d.hosts ++ (h ∷ [])) ip id table (has_id_last (λ (h : Host). h.id) id d.hosts h e)
      (Known-more d.hosts (h ∷ []) table known),
)

port-Tracked :
    (d : DiscoveryResult) (table : List (Bytes × Bytes)) (p : Port)
    → HasHost d.hosts p.host_id
    → Tracked d table
    → Tracked (record d { ports = d.ports ++ (p ∷ []) }) table
port-Tracked d table p there (l, known) = (add_port-IsLinked d p there l, known)

pub step-Tracked_naabu :
    (s : Naabu.State) (r : NaabuRecord)
    → Tracked s.disc s.hosts_by_ip
    → Tracked (Naabu.step s r).disc (Naabu.step s r).hosts_by_ip
unfolding Naabu.step Naabu.see_host Naabu.host_id_of Naabu.add_port
step-Tracked_naabu s r h = elim (Option-cases (index r.ip s.hosts_by_ip)) [
  | inl new ↦ rw new (
      port-Tracked _ _ _ (has_id_last (λ (h : Host). h.id) _ s.disc.hosts _ refl)
        (new-Tracked s.disc s.hosts_by_ip _ r.ip _ refl h))
  | inr (id, old) ↦ rw old (
      port-Tracked s.disc s.hosts_by_ip _ (Known-index s.disc.hosts r.ip id s.hosts_by_ip h.1 old)
        h)
]

ports-Tracked :
    (id : Bytes) (ps : List MasscanPort) (s : Masscan.State)
    → HasHost s.disc.hosts id
    → Tracked s.disc s.seen_hosts
    → Tracked (Masscan.add_ports id ps s).disc (Masscan.add_ports id ps s).seen_hosts
unfolding Masscan.add_ports Masscan.port_node
ports-Tracked id [] s there h = h
ports-Tracked id (p ∷ ps) s there h =
    ports-Tracked id ps _ there (port-Tracked s.disc s.seen_hosts (Masscan.port_node id p) there h)

pub step-Tracked_masscan :
    (s : Masscan.State) (r : MasscanRecord)
    → Tracked s.disc s.seen_hosts
    → Tracked (Masscan.step s r).disc (Masscan.step s r).seen_hosts
unfolding Masscan.step Masscan.see_host Masscan.host_id_of
step-Tracked_masscan s r h = elim (Option-cases (index r.ip s.seen_hosts)) [
  | inl new ↦ rw new (
      ports-Tracked _ r.ports _ (has_id_last (λ (h : Host). h.id) _ s.disc.hosts _ refl)
        (new-Tracked s.disc s.seen_hosts _ r.ip _ refl h))
  | inr (id, old) ↦
      rw old (ports-Tracked id r.ports s (Known-index s.disc.hosts r.ip id s.seen_hosts h.1 old) h)
]
