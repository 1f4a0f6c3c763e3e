-- ===== src/Parsers/Masscan.antt =====
-- parsers/masscan/masscan.go.
pub mod Policy
pub mod Graph
use gibson_tool_runner.Base.{
  ℕ, zero, suc, ◌+◌, Bytes, codes, Bool, true, false, not, ◌&&◌, ◌||◌, List, [], ◌∷◌, ◌++◌, Option,
  none, some, Error, message, wrapping, ℤ, pos, negsuc, is_empty, index, map, mem, trim_space,
  has_prefix, decimal, decimal_int, to_int32, eqb, leb, ltb, foldl, ◌==◌, if◌then◌else◌,
}
use gibson_tool_runner.Graph.{
  Host, Port, Service, Endpoint, Technology, Domain, Subdomain, Finding, DiscoveryResult, nothing,
}
use gibson_tool_runner.Process.{World, Context}
use gibson_tool_runner.Registry.{
  ExecuteRequest, ExecuteResponse, ParseQuality, structured, partial, failed, CatalogEntry, Parser,
  Policies, assign, apply_policy,
}
use gibson_tool_runner.Parsers.Lines.{
  Decoded, record_of, malformed, Scanned, scan, loop, Parsed, conclude,
}
use gibson_tool_runner.Parsers.Tool.{
  non_empty, option, run_tool, settle_run, run_filtered, require_target, pass_parse_err, Run,
  hard_failure, failed_response,
}

abbrev pub tool_name : Bytes
tool_name = codes "masscan"

abbrev pub describe : CatalogEntry
describe = record {
  name = tool_name;
  version = codes "0.1.0";
  description =
      codes
        "High-throughput port scanner (masscan). Emits Host/Port nodes for open ports across large CIDR ranges.";
  tags = codes "recon" ∷ codes "network" ∷ codes "scan" ∷ [];
  input_schema = record {
    properties =
        record {
          name = codes "target";
          type_name = codes "string";
          items = none;
          description = none;
        }
        ∷ record {
          name = codes "ports";
          type_name = codes "string";
          items = none;
          description = none;
        }
        ∷ record {
          name = codes "rate";
          type_name = codes "string";
          items = none;
          description = none;
        }
        ∷ [];
    required = codes "target" ∷ codes "ports" ∷ [];
  };
  output_proto_type = codes "gibson.graphrag.v1.DiscoveryResult";
  default_parse_quality = structured;
  resources = record { vcpu = 4; memory = codes "2Gi" };
  default_timeout_seconds = 600;
}

pub record MasscanPort : Type 0 where
  pub port : ℤ
  pub proto : Bytes
  pub status : Bytes
  pub reason : Bytes

pub record MasscanRecord : Type 0 where
  pub ip : Bytes
  pub ports : List MasscanPort

-- `disc` and `seenHosts` in the loop.
pub record State : Type 0 where
  pub disc : DiscoveryResult
  pub seen_hosts : List (Bytes × Bytes)

abbrev pub start : State
start = record { disc = nothing; seen_hosts = [] }

unfoldable pub see_host : Option Bytes → Bytes → State → State
see_host (some host_id) ip s = s
see_host none ip s =
    let host_id = codes "host:" ++ ip in
    record {
      disc = record (s.disc) {
        hosts =
            s.disc.hosts
            ++ (record {
              id = some host_id;
              ip = ip;
              hostname = none;
              mac_address = none;
              state = none;
              os = none;
            }
                ∷ []);
      };
      seen_hosts = assign ip host_id s.seen_hosts;
    }

unfoldable pub host_id_of : Option Bytes → Bytes → Bytes
host_id_of (some host_id) ip = host_id
host_id_of none ip = codes "host:" ++ ip

-- The round of the inner loop for one port.
unfoldable pub port_node : Bytes → MasscanPort → Port
port_node host_id p =
    let proto = if is_empty p.proto then codes "tcp" else p.proto in
    record {
      id = some (host_id ++ (codes ":port:" ++ (proto ++ (codes "/" ++ decimal_int p.port))));
      host_id = host_id;
      number = to_int32 p.port;
      protocol = proto;
      state = non_empty p.status;
      reason = non_empty p.reason;
    }

unfoldable pub add_ports : Bytes → List MasscanPort → State → State
add_ports host_id [] s = s
add_ports host_id (p ∷ ps) s =
    add_ports host_id ps
      (record s { disc = record (s.disc) { ports = s.disc.ports ++ (port_node host_id p ∷ []) } })

unfoldable pub step : State → MasscanRecord → State
step s r =
    let seen = index r.ip s.seen_hosts in
    add_ports (host_id_of seen r.ip) r.ports (see_host seen r.ip s)

-- `bytes.TrimPrefix(body, "[")` for a prefix of one byte.
unfoldable pub trim_prefix1 : ℕ → Bytes → Bytes
trim_prefix1 mark [] = []
trim_prefix1 mark (c ∷ cs) = if eqb c mark then cs else c ∷ cs

-- `bytes.TrimSuffix(body, "]")` for a suffix of one byte.
unfoldable pub trim_suffix1 : ℕ → Bytes → Bytes
trim_suffix1 mark [] = []
trim_suffix1 mark (c ∷ []) = if eqb c mark then [] else c ∷ []
trim_suffix1 mark (c ∷ d ∷ cs) = c ∷ trim_suffix1 mark (d ∷ cs)

-- What becomes of a token: white space off both ends, then a trailing comma.
unfoldable pub clean : Bytes → Bytes
unfolding trim_suffix1
clean token = trim_suffix1 b',' (trim_space token)

unfoldable pub body_of : Bytes → Bytes
unfolding trim_prefix1 trim_suffix1
body_of text = trim_suffix1 b']' (trim_prefix1 b'[' (trim_space text))

-- `req.Options[name]`, or a default.
unfoldable pub option_or : ExecuteRequest → Bytes → Bytes → Bytes
option_or req name fallback = let v = option req name in if is_empty v then fallback else v

-- The target stands in front of the filtered arguments.
unfoldable pub build_args : ExecuteRequest → List Bytes → List Bytes
unfolding option_or
build_args req filtered =
    (codes "--rate"
      ∷ option_or req (codes "rate") (codes "1000")
      ∷ codes "-p"
      ∷ option_or req (codes "ports") (codes "1-65535")
      ∷ codes "-oJ"
      ∷ codes "-"
      ∷ req.target
      ∷ [])
    ++ filtered

module _ (decode : Bytes → Decoded MasscanRecord) where
  unfoldable pub parse_json : Bytes → Parsed
  parse_json text =
      let scanned = scan (body_of text) in
      conclude (λ (s : State). s.disc) structured scanned.error
        (loop clean decode step scanned.tokens start 0)

  unfoldable pub execute :
      Policies → World → Context → ExecuteRequest → ExecuteResponse × Option Error
  execute policies w ctx req = require_target tool_name req (
      run_filtered tool_name (apply_policy policies tool_name req.args) λ filtered.
        settle_run tool_name none (run_tool w ctx tool_name (build_args req filtered) [])
          parse_json)

  abbrev pub parser : Parser
  parser = record { describe = describe; execute = execute }
