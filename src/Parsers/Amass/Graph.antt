-- ===== src/Parsers/Amass/Graph.antt =====
-- parsers/amass/amass.go: the nodes that `parseJSONLines` builds.
use mathlib.Core.List.{flat_map, map-append}
use gibson_tool_runner.Base.{
  Bool, not, List, [], ◌∷◌, ◌++◌, ◌≡◌, Bytes, refl, ap, ◌∙◌, sym, append-nil, map, foldl,
  trim_space, is_empty, arith, some,
}
use gibson_tool_runner.Graph.{Host, DiscoveryResult, nothing}
use gibson_tool_runner.Registry.{structured}
use gibson_tool_runner.Parsers.Gather.{append_laws, filter}
use gibson_tool_runner.Parsers.Lines.{Decoded, scan}
use gibson_tool_runner.Parsers.Lines.Laws.{records, loop_state-foldl, conclude-discovery}
use gibson_tool_runner.Parsers.Gather.{filter-append}
use gibson_tool_runner.Parsers.Dedup.{firsts, see, see_all, firsts-append, see_all-append}
use gibson_tool_runner.Parsers.Amass.{
  AmassRecord, State, domain_id_of, start, sub_node, host_node, add_sub, add_host, add_hosts, step,
  parse_json_lines,
}

-- An address, with the name of its record.
abbrev pub Named : Type 0
Named = Bytes × Bytes

abbrev pub address_of : Named → Bytes
address_of p = p.1

abbrev pub self : Bytes → Bytes
self name = name

abbrev pub has_text : Bytes → Bool
has_text s = not (is_empty s)

abbrev pub has_address : Named → Bool
has_address p = has_text p.1

abbrev pub addresses_of : AmassRecord → List Named
addresses_of r = map (λ ip. (r.name, ip)) r.addresses

abbrev pub names : List AmassRecord → List Bytes
names rs = filter has_text (map (λ (r : AmassRecord). r.name) rs)

abbrev pub addresses : List AmassRecord → List Named
addresses rs = filter has_address (flat_map addresses_of rs)

abbrev pub named_host : Named → Host
named_host p = host_node p.0 p.1

-- The root domain, one subdomain of it for each name, and one host for each address, with the name of
-- the first record that has the address; empty names and addresses are left out.
abbrev pub graph : Bytes → List AmassRecord → DiscoveryResult
graph root rs = record nothing {
  hosts = map named_host (firsts address_of [] (addresses rs));
  domains = record { id = some (domain_id_of root); name = root } ∷ [];
  subdomains = map (sub_node (domain_id_of root)) (firsts self [] (names rs));
}

-- The state with the new ones of these hosts, and with the new ones of these subdomains.
abbrev with_hosts : List Named → State → State
with_hosts ps s = record s {
  disc = record (s.disc) {
    hosts = s.disc.hosts ++ map named_host (firsts address_of s.seen_hosts ps);
  };
  seen_hosts = see_all address_of s.seen_hosts ps;
}

abbrev with_subs : Bytes → List Bytes → State → State
with_subs domain_id ns s = record s {
  disc = record (s.disc) {
    subdomains = s.disc.subdomains ++ map (sub_node domain_id) (firsts self s.seen_subs ns);
  };
  seen_subs = see_all self s.seen_subs ns;
}

with_hosts-append :
    (ps qs : List Named) (s : State) → with_hosts qs (with_hosts ps s) ≡ with_hosts (ps ++ qs) s
with_hosts-append ps qs s =
    rw (firsts-append address_of s.seen_hosts ps qs, see_all-append address_of s.seen_hosts ps qs)
      (simp (append_laws, map-append))

with_subs-append :
    (domain_id : Bytes) (ns ms : List Bytes) (s : State)
    → with_subs domain_id ms (with_subs domain_id ns s) ≡ with_subs domain_id (ns ++ ms) s
with_subs-append domain_id ns ms s =
    rw (firsts-append self s.seen_subs ns ms, see_all-append self s.seen_subs ns ms)
      (simp (append_laws, map-append))

add_host-with_hosts :
    (name ip : Bytes) (s : State)
    → add_host name ip s ≡ with_hosts (filter has_address ((name, ip) ∷ [])) s
unfolding add_host filter firsts see
add_host-with_hosts name ip s = ground (arith, append-nil s.disc.hosts)

add_sub-with_subs :
    (domain_id : Bytes) (r : AmassRecord) (s : State)
    → add_sub domain_id r s ≡ with_subs domain_id (filter has_text (r.name ∷ [])) s
unfolding add_sub filter firsts see
add_sub-with_subs domain_id r s = ground (arith, append-nil s.disc.subdomains)

with_hosts-nil : (s : State) → s ≡ with_hosts [] s
unfolding firsts
with_hosts-nil s = simp append_laws

add_hosts-with_hosts :
    (name : Bytes) (ips : List Bytes) (s : State)
    → add_hosts name ips s ≡ with_hosts (filter has_address (map (λ ip. (name, ip)) ips)) s
unfolding add_hosts
add_hosts-with_hosts name [] s = unfold filter in with_hosts-nil s
add_hosts-with_hosts name (ip ∷ ips) s =
    let rest = map (λ ip. (name, ip)) ips in
    add_hosts-with_hosts name ips (add_host name ip s)
    ∙ ap (with_hosts (filter has_address rest)) (add_host-with_hosts name ip s)
    ∙ with_hosts-append (filter has_address ((name, ip) ∷ [])) (filter has_address rest) s
    ∙ ap (λ ps. with_hosts ps s) (sym (filter-append has_address ((name, ip) ∷ []) rest))

step-with :
    (domain_id : Bytes) (s : State) (r : AmassRecord)
    → step domain_id s r ≡ with_hosts (addresses (r ∷ [])) (with_subs domain_id (names (r ∷ [])) s)
unfolding step flat_map
step-with domain_id s r =
    add_hosts-with_hosts r.name r.addresses (add_sub domain_id r s)
    ∙ ap (with_hosts (filter has_address (addresses_of r))) (add_sub-with_subs domain_id r s)
    ∙ rw (append-nil (addresses_of r)) refl

foldl-with :
    (domain_id : Bytes) (rs : List AmassRecord) (s : State)
    → foldl (step domain_id) s rs ≡ with_hosts (addresses rs) (with_subs domain_id (names rs) s)
unfolding flat_map
foldl-with domain_id [] s = unfold filter firsts in simp append_laws
foldl-with domain_id (r ∷ rs) s =
    ap (λ s. foldl (step domain_id) s rs) (step-with domain_id s r)
    ∙ foldl-with domain_id rs _
    ∙ ap (λ (s : State). with_hosts (addresses rs) s) swap
    ∙ with_hosts-append (addresses (r ∷ [])) (addresses rs) _
    ∙ ap (λ ps. with_hosts ps (with_subs domain_id (names (r ∷ rs)) s)) addresses_split
  where
    swap :
        with_subs domain_id
          (names rs)
          (with_hosts (addresses (r ∷ [])) (with_subs domain_id (names (r ∷ [])) s))
        ≡ with_hosts (addresses (r ∷ [])) (with_subs domain_id (names (r ∷ rs)) s)
    swap = ap (with_hosts (addresses (r ∷ []))) (
        with_subs-append domain_id (names (r ∷ [])) (names rs) s
        ∙ ap (λ ns. with_subs domain_id ns s)
            (sym (filter-append has_text (r.name ∷ []) (map (λ (r : AmassRecord). r.name) rs))))

    addresses_split : addresses (r ∷ []) ++ addresses rs ≡ addresses (r ∷ rs)
    addresses_split =
        rw (append-nil (addresses_of r))
          (sym (filter-append has_address (addresses_of r) (flat_map addresses_of rs)))

pub parse_json_lines-graph :
    (decode : Bytes → Decoded AmassRecord) (root text : Bytes)
    → (parse_json_lines decode root text).discovery
      ≡ graph root (records trim_space decode (scan text).tokens)
unfolding parse_json_lines
parse_json_lines-graph decode root text =
    conclude-discovery _ structured _ _
    ∙ ap (λ (s : State). s.disc)
        (loop_state-foldl trim_space decode (step (domain_id_of root)) (scan text).tokens
            (start root) 0
          ∙ foldl-with (domain_id_of root) _ (start root))
