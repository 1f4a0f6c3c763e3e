-- ===== src/Parsers/Nmap.antt =====
-- parsers/nmap/nmap.go.
pub mod Policy
pub mod Graph
use gibson_tool_runner.Base.{
  ℕ, zero, suc, ◌+◌, Bytes, codes, Bool, true, false, not, ◌&&◌, ◌||◌, List, [], ◌∷◌, ◌++◌, Option,
  none, some, Error, message, wrapping, ℤ, pos, negsuc, is_empty, index, map, mem, trim_space,
  has_prefix, decimal, decimal_int, to_int32, eqb, leb, ltb, foldl, ◌==◌, if◌then◌else◌,
}
use gibson_tool_runner.Graph.{
  Host, Port, Service, Endpoint, Technology, Domain, Subdomain, Finding, DiscoveryResult, nothing,
}
use gibson_tool_runner.Process.{World, Context}
use gibson_tool_runner.Registry.{
  ExecuteRequest, ExecuteResponse, ParseQuality, structured, partial, failed, CatalogEntry, Parser,
  Policies, assign, apply_policy,
}
use gibson_tool_runner.Parsers.Lines.{
  Decoded, record_of, malformed, Scanned, scan, loop, Parsed, conclude,
}
use gibson_tool_runner.Parsers.Tool.{
  non_empty, option, run_tool, settle_run, run_filtered, require_target, pass_parse_err, Run,
  hard_failure, failed_response,
}

abbrev pub tool_name : Bytes
tool_name = codes "nmap"

abbrev pub describe : CatalogEntry
describe = record {
  name = tool_name;
  version = codes "0.1.0";
  description =
      codes
        "TCP/UDP port scanner with service + OS detection. Returns typed Host/Port/Service nodes for the knowledge graph.";
  tags = codes "recon" ∷ codes "network" ∷ codes "discovery" ∷ [];
  input_schema = record {
    properties =
        record {
          name = codes "target";
          type_name = codes "string";
          items = none;
          description = some (codes "IPv4/IPv6 address, CIDR, or hostname.");
        }
        ∷ record {
          name = codes "ports";
          type_name = codes "string";
          items = none;
          description = some (
              codes "Port spec "
              ++ (0xe2
                  ∷ 0x80
                  ∷ 0x94
                  ∷ codes " e.g. \"22,80,443\" or \"1-1024\". Default: top-1000."));
        }
        ∷ record {
          name = codes "args";
          type_name = codes "array";
          items = some (codes "string");
          description = some (codes "Extra CLI flags, e.g. [\"-sV\", \"-O\"].");
        }
        ∷ [];
    required = codes "target" ∷ [];
  };
  output_proto_type = codes "gibson.graphrag.v1.DiscoveryResult";
  default_parse_quality = structured;
  resources = record { vcpu = 2; memory = codes "512Mi" };
  default_timeout_seconds = 300;
}

-- The parts of the library's `Run` (github.com/Ullaakut/nmap/v3) that the parser reads.
pub record Address : Type 0 where
  pub addr : Bytes
  pub addr_type : Bytes

pub record NmapService : Type 0 where
  pub name : Bytes
  pub product : Bytes
  pub version : Bytes
  pub extra_info : Bytes

-- `id` is a `uint16`.
pub record NmapPort : Type 0 where
  pub id : ℕ
  pub protocol : Bytes
  pub state : Bytes
  pub reason : Bytes
  pub service : NmapService

pub record NmapHost : Type 0 where
  pub addresses : List Address
  -- The names of `Hostnames`, and those of `OS.Matches`.
  pub hostnames : List Bytes
  pub status : Bytes
  pub os_matches : List Bytes
  pub ports : List NmapPort

unfoldable pub first {ℓ} : {A : Type ℓ} → List A → Option A
first [] = none
first (x ∷ xs) = some x

unfoldable pub stable_host_id : NmapHost → Bytes
stable_host_id h = elim h.addresses [ [] ↦ codes "host:unknown" | a ∷ _ ↦ codes "host:" ++ a.addr ]

unfoldable pub stable_port_id : Bytes → ℤ → Bytes → Bytes
stable_port_id host_id number protocol =
    host_id ++ (codes ":port:" ++ (protocol ++ (codes "/" ++ decimal_int number)))

unfoldable pub stable_service_id : Bytes → Bytes → Bytes
stable_service_id port_id name = port_id ++ (codes ":service:" ++ name)

-- The loop over the addresses: the first one of type "mac".
unfoldable pub first_mac : List Address → Option Bytes
first_mac [] = none
first_mac (a ∷ more) =
    let rest = first_mac more in if a.addr_type == codes "mac" then some a.addr else rest

unfoldable pub host_to_proto : NmapHost → Host
unfolding first
host_to_proto h = record {
  id = some (stable_host_id h);
  ip = elim h.addresses [ [] ↦ [] | a ∷ _ ↦ a.addr ];
  hostname = first h.hostnames;
  mac_address = first_mac h.addresses;
  state = non_empty h.status;
  os = first h.os_matches;
}

unfoldable pub port_to_proto : NmapPort → Bytes → Port
port_to_proto p host_id = record {
  id = some (stable_port_id host_id (to_int32 (pos p.id)) p.protocol);
  host_id = host_id;
  number = to_int32 (pos p.id);
  protocol = p.protocol;
  state = non_empty p.state;
  reason = non_empty p.reason;
}

unfoldable pub service_to_proto : NmapService → Bytes → Service
service_to_proto s port_id = record {
  id = some (stable_service_id port_id s.name);
  port_id = port_id;
  name = s.name;
  product = non_empty s.product;
  version = non_empty s.version;
  extra_info = non_empty s.extra_info;
}

-- `if x.Id != nil { id = *x.Id }`
unfoldable pub id_or_empty : Option Bytes → Bytes
id_or_empty none = []
id_or_empty (some id) = id

-- The service of a port, if it has a name.
unfoldable pub add_service : NmapService → Bytes → DiscoveryResult → DiscoveryResult
add_service s port_id disc =
    if is_empty s.name
    then disc
    else record disc { services = disc.services ++ (service_to_proto s port_id ∷ []) }

unfoldable pub add_port : Bytes → DiscoveryResult → NmapPort → DiscoveryResult
add_port host_id disc p =
    let node = port_to_proto p host_id in
    add_service p.service (id_or_empty node.id) (record disc { ports = disc.ports ++ (node ∷ []) })

unfoldable pub add_ports : Bytes → DiscoveryResult → List NmapPort → DiscoveryResult
add_ports host_id disc [] = disc
add_ports host_id disc (p ∷ ps) = add_ports host_id (add_port host_id disc p) ps

unfoldable pub add_host : DiscoveryResult → NmapHost → DiscoveryResult
add_host disc h =
    let node = host_to_proto h in
    add_ports (id_or_empty node.id) (record disc { hosts = disc.hosts ++ (node ∷ []) }) h.ports

unfoldable pub add_all : DiscoveryResult → List NmapHost → DiscoveryResult
add_all disc [] = disc
add_all disc (h ∷ hs) = add_all (add_host disc h) hs

-- The three results of `parseXML`; the discovery is nil where the document does not parse.
pub record ParsedXml : Type 0 where
  pub discovery : Option DiscoveryResult
  pub quality : ParseQuality
  pub error : Option Error

-- The options and the filtered arguments, and the target last.
abbrev pub line : ExecuteRequest → List Bytes → List Bytes
line req filtered =
    let ports = option req (codes "ports") in
    (codes "-oX" ∷ codes "-" ∷ [])
    ++ ((if is_empty ports then [] else codes "-p" ∷ ports ∷ [])
        ++ (filtered ++ (if is_empty req.target then [] else req.target ∷ [])))

unfoldable pub build_args : Policies → ExecuteRequest → Option Error × List Bytes
build_args policies req =
    let f = apply_policy policies tool_name req.args in
    elim f.error [ some e ↦ (some e, []) | none ↦ (none, line req f.args) ]

-- `parse` is the library's `Parse`, a parameter: the hosts of the document, or an error.
module _ (parse : Bytes → Decoded (List NmapHost)) where
  unfoldable pub parse_xml : Bytes → ParsedXml
  parse_xml xml = elim (parse xml) [
    | malformed e ↦ record { discovery = none; quality = failed; error = some e }
    | record_of hosts ↦ record {
      discovery = some (add_all nothing hosts);
      quality = structured;
      error = none;
    }
  ]

  -- Behind the run: here a run that failed with no output ends `Execute` before the parser.
  unfoldable pub settle : Run → ExecuteResponse × Option Error
  settle r = elim r.overflow [
    | some e ↦ (r.response, some (wrapping (codes "nmap stdout: %w") [] e))
    | none ↦ elim (hard_failure r.run_err r.response.stdout) [
      | some e ↦ (
        record (r.response) { parse_quality = failed },
        some (wrapping (codes "nmap exec: %w") [] e),
      )
      | none ↦
          let p = parse_xml r.response.stdout in
          (
            record (r.response) { parse_quality = p.quality; discovery = p.discovery },
            pass_parse_err (some (codes "nmap parse: %w")) p.error,
          )
    ]
  ]

  unfoldable pub execute :
      Policies → World → Context → ExecuteRequest → ExecuteResponse × Option Error
  execute policies w ctx req =
      let (policy_err, args) = build_args policies req in
      elim policy_err [
        | some e ↦ (failed_response, some (wrapping (codes "nmap args policy: %w") [] e))
        | none ↦ settle (run_tool w ctx tool_name args [])
      ]

  abbrev pub parser : Parser
  parser = record { describe = describe; execute = execute }
