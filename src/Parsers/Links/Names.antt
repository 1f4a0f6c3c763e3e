-- ===== src/Parsers/Links/Names.antt =====
-- parsers/amass/amass.go, parsers/subfinder/subfinder.go and parsers/dnsx/dnsx.go: the references of
-- their steps.
use gibson_tool_runner.Base.{
  Bytes, true, not, ◌&&◌, ◌||◌, List, [], ◌∷◌, ◌++◌, ◌≡◌, refl, inl, inr, is_empty, mem, Bool-cases,
}
use gibson_tool_runner.Graph.{Domain, Subdomain, DiscoveryResult, nothing}
use gibson_tool_runner.Parsers.Links.{
  id_text, has_id, has_id_last, Linked-append, IsLinked, add_host-IsLinked,
}
use gibson_tool_runner.Parsers.Amass
use gibson_tool_runner.Parsers.Amass.{AmassRecord, add_sub}
use gibson_tool_runner.Parsers.Subfinder
use gibson_tool_runner.Parsers.Subfinder.{SubfinderRecord}
use gibson_tool_runner.Parsers.Dnsx
use gibson_tool_runner.Parsers.Dnsx.{DnsxRecord}

-- The references hold and the root domain is there.
abbrev pub Rooted : Bytes → DiscoveryResult → Type 0
Rooted domain_id d = IsLinked d × (has_id (λ (m : Domain). m.id) domain_id d.domains ≡ true)

-- A domain alone.
start-Rooted :
    (m : Domain) (domain_id : Bytes)
    → id_text m.id ≡ domain_id
    → Rooted domain_id (record nothing { domains = m ∷ [] })
start-Rooted m domain_id e = (
  record { ports = tt; services = tt; endpoints = tt; technologies = tt; subdomains = tt },
  has_id_last (λ (m : Domain). m.id) domain_id [] m e,
)

sub-Rooted :
    (d : DiscoveryResult) (s : Subdomain)
    → Rooted s.domain_id d
    → Rooted s.domain_id (record d { subdomains = d.subdomains ++ (s ∷ []) })
sub-Rooted d s (l, there) = (
  record {
    ports = l.ports;
    services = l.services;
    endpoints = l.endpoints;
    technologies = l.technologies;
    subdomains =
        Linked-append (λ (m : Domain). m.id) (λ (s : Subdomain). s.domain_id) d.domains d.subdomains
          (s ∷ []) l.subdomains (there, tt);
  },
  there,
)

pub start-Rooted_subfinder :
    (root : Bytes) → Rooted (Subfinder.domain_id_of root) (Subfinder.start root)
start-Rooted_subfinder root = start-Rooted _ _ refl

pub step-Rooted_subfinder :
    (domain_id : Bytes) (d : DiscoveryResult) (r : SubfinderRecord)
    → Rooted domain_id d
    → Rooted domain_id (Subfinder.step domain_id d r)
unfolding Subfinder.step Subfinder.sub_node
step-Rooted_subfinder domain_id d r h = sub-Rooted d (Subfinder.sub_node domain_id r) h

pub start-Rooted_amass : (root : Bytes) → Rooted (Amass.domain_id_of root) (Amass.start root).disc
start-Rooted_amass root = start-Rooted _ _ refl

add_sub-Rooted :
    (domain_id : Bytes) (r : AmassRecord) (s : Amass.State)
    → Rooted domain_id s.disc
    → Rooted domain_id (add_sub domain_id r s).disc
unfolding add_sub Amass.sub_node
add_sub-Rooted domain_id r s h =
    elim (Bool-cases (not (is_empty r.name) && not (mem r.name s.seen_subs))) [
      | inl new ↦ rw new (sub-Rooted s.disc (Amass.sub_node domain_id r.name) h)
      | inr old ↦ rw old h
    ]

add_host-Rooted :
    (domain_id name ip : Bytes) (s : Amass.State)
    → Rooted domain_id s.disc
    → Rooted domain_id (Amass.add_host name ip s).disc
unfolding Amass.add_host
add_host-Rooted domain_id name ip s h = elim (Bool-cases (is_empty ip || mem ip s.seen_hosts)) [
  | inl old ↦ rw old h
  | inr new ↦ rw new (add_host-IsLinked s.disc (Amass.host_node name ip) h.0, h.1)
]

add_hosts-Rooted :
    (domain_id name : Bytes) (ips : List Bytes) (s : Amass.State)
    → Rooted domain_id s.disc
    → Rooted domain_id (Amass.add_hosts name ips s).disc
unfolding Amass.add_hosts
add_hosts-Rooted domain_id name [] s h = h
add_hosts-Rooted domain_id name (ip ∷ ips) s h =
    add_hosts-Rooted domain_id name ips _ (add_host-Rooted domain_id name ip s h)

pub step-Rooted_amass :
    (domain_id : Bytes) (s : Amass.State) (r : AmassRecord)
    → Rooted domain_id s.disc
    → Rooted domain_id (Amass.step domain_id s r).disc
unfolding Amass.step
step-Rooted_amass domain_id s r h =
    add_hosts-Rooted domain_id r.name r.addresses _ (add_sub-Rooted domain_id r s h)

hosts-IsLinked :
    (hostname : Bytes) (ips : List Bytes) (d : DiscoveryResult)
    → IsLinked d
    → IsLinked (Dnsx.add_hosts hostname ips d)
unfolding Dnsx.add_hosts
hosts-IsLinked hostname [] d l = l
hosts-IsLinked hostname (ip ∷ ips) d l =
    hosts-IsLinked hostname ips _ (add_host-IsLinked d (Dnsx.host_node hostname ip) l)

pub step-IsLinked : (d : DiscoveryResult) (r : DnsxRecord) → IsLinked d → IsLinked (Dnsx.step d r)
unfolding Dnsx.step
step-IsLinked d r l = hosts-IsLinked r.host r.aaaa _ (hosts-IsLinked r.host r.a d l)
