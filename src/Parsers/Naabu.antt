-- ===== src/Parsers/Naabu.antt =====
-- parsers/naabu/naabu.go.
pub mod Policy
pub mod Graph
use gibson_tool_runner.Base.{
  Bytes, codes, Bool, List, [], ◌∷◌, ◌++◌, Option, none, some, Error, ℤ, pos, is_empty, index,
  trim_space, decimal_int, to_int32, if◌then◌else◌,
}
use gibson_tool_runner.Graph.{DiscoveryResult, nothing}
use gibson_tool_runner.Process.{World, Context}
use gibson_tool_runner.Registry.{
  ExecuteRequest, ExecuteResponse, structured, CatalogEntry, Parser, Policies, assign, apply_policy,
}
use gibson_tool_runner.Parsers.Lines.{Decoded, Scanned, scan, loop, Parsed, conclude}
use gibson_tool_runner.Parsers.Tool.{
  non_empty, option, run_tool, settle_run, run_filtered, require_target,
}

abbrev pub tool_name : Bytes
tool_name = codes "naabu"

abbrev pub describe : CatalogEntry
describe = record {
  name = tool_name;
  version = codes "0.1.0";
  description =
      codes "Fast port scanner (ProjectDiscovery naabu). Emits Host/Port nodes for each open port.";
  tags = codes "recon" ∷ codes "network" ∷ [];
  input_schema = record {
    properties =
        record {
          name = codes "target";
          type_name = codes "string";
          items = none;
          description = none;
        }
        ∷ record {
          name = codes "ports";
          type_name = codes "string";
          items = none;
          description = none;
        }
        ∷ [];
    required = codes "target" ∷ [];
  };
  output_proto_type = codes "gibson.graphrag.v1.DiscoveryResult";
  default_parse_quality = structured;
  resources = record { vcpu = 2; memory = codes "512Mi" };
  default_timeout_seconds = 300;
}

pub record NaabuRecord : Type 0 where
  pub host : Bytes
  pub ip : Bytes
  pub port : ℤ

-- `disc` and `hostsByIP` in the loop.
pub record State : Type 0 where
  pub disc : DiscoveryResult
  pub hosts_by_ip : List (Bytes × Bytes)

abbrev pub start : State
start = record { disc = nothing; hosts_by_ip = [] }

-- `if !seen`: a host for an address that is new.
unfoldable pub see_host : Option Bytes → NaabuRecord → State → State
see_host (some host_id) r s = s
see_host none r s =
    let host_id = codes "host:" ++ r.ip in
    record {
      disc = record (s.disc) {
        hosts =
            s.disc.hosts
            ++ (record {
              id = some host_id;
              ip = r.ip;
              hostname = non_empty r.host;
              mac_address = none;
              state = none;
              os = none;
            }
                ∷ []);
      };
      hosts_by_ip = assign r.ip host_id s.hosts_by_ip;
    }

unfoldable pub host_id_of : Option Bytes → NaabuRecord → Bytes
host_id_of (some host_id) r = host_id
host_id_of none r = codes "host:" ++ r.ip

unfoldable pub add_port : Bytes → NaabuRecord → State → State
add_port host_id r s = record s {
  disc = record (s.disc) {
    ports =
        s.disc.ports
        ++ (record {
          id = some (host_id ++ (codes ":port:tcp/" ++ decimal_int r.port));
          host_id = host_id;
          number = to_int32 r.port;
          protocol = codes "tcp";
          state = none;
          reason = none;
        }
            ∷ []);
  };
}

-- One round of the loop, behind the decoder.
unfoldable pub step : State → NaabuRecord → State
step s r = let seen = index r.ip s.hosts_by_ip in add_port (host_id_of seen r) r (see_host seen r s)

-- The command line: fixed flags, the options, and the filtered arguments.
unfoldable pub build_args : ExecuteRequest → List Bytes → List Bytes
build_args req filtered =
    let ports = option req (codes "ports") in
    (codes "-json" ∷ codes "-silent" ∷ codes "-host" ∷ req.target ∷ [])
    ++ ((if is_empty ports then [] else codes "-p" ∷ ports ∷ []) ++ filtered)

module _ (decode : Bytes → Decoded NaabuRecord) where
  unfoldable pub parse_json_lines : Bytes → Parsed
  parse_json_lines text =
      let scanned = scan text in
      conclude (λ (s : State). s.disc) structured scanned.error
        (loop trim_space decode step scanned.tokens start 0)

  unfoldable pub execute :
      Policies → World → Context → ExecuteRequest → ExecuteResponse × Option Error
  execute policies w ctx req = require_target tool_name req (
      run_filtered tool_name (apply_policy policies tool_name req.args) λ filtered.
        settle_run tool_name none (run_tool w ctx tool_name (build_args req filtered) [])
          parse_json_lines)

  abbrev pub parser : Parser
  parser = record { describe = describe; execute = execute }
