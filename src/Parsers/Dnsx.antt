-- ===== src/Parsers/Dnsx.antt =====
-- parsers/dnsx/dnsx.go.
pub mod Policy
pub mod Graph
use gibson_tool_runner.Base.{
  ℕ, zero, suc, ◌+◌, Bytes, codes, Bool, true, false, not, ◌&&◌, ◌||◌, List, [], ◌∷◌, ◌++◌, Option,
  none, some, Error, message, wrapping, ℤ, pos, negsuc, is_empty, index, map, mem, trim_space,
  has_prefix, decimal, decimal_int, to_int32, eqb, leb, ltb, foldl, ◌==◌, if◌then◌else◌,
}
use gibson_tool_runner.Graph.{
  Host, Port, Service, Endpoint, Technology, Domain, Subdomain, Finding, DiscoveryResult, nothing,
}
use gibson_tool_runner.Process.{World, Context}
use gibson_tool_runner.Registry.{
  ExecuteRequest, ExecuteResponse, ParseQuality, structured, partial, failed, CatalogEntry, Parser,
  Policies, assign, apply_policy,
}
use gibson_tool_runner.Parsers.Lines.{
  Decoded, record_of, malformed, Scanned, scan, loop, Parsed, conclude,
}
use gibson_tool_runner.Parsers.Tool.{
  non_empty, option, run_tool, settle_run, run_filtered, require_target, pass_parse_err, Run,
  hard_failure, failed_response,
}

abbrev pub tool_name : Bytes
tool_name = codes "dnsx"

abbrev pub describe : CatalogEntry
describe = record {
  name = tool_name;
  version = codes "0.1.0";
  description =
      codes
        "DNS resolver + record enumerator (ProjectDiscovery dnsx). Emits Host nodes for resolved A/AAAA records.";
  tags = codes "recon" ∷ codes "dns" ∷ [];
  input_schema = record {
    properties =
        record {
          name = codes "target";
          type_name = codes "string";
          items = none;
          description = none;
        }
        ∷ [];
    required = codes "target" ∷ [];
  };
  output_proto_type = codes "gibson.graphrag.v1.DiscoveryResult";
  default_parse_quality = structured;
  resources = record { vcpu = 1; memory = codes "256Mi" };
  default_timeout_seconds = 300;
}

pub record DnsxRecord : Type 0 where
  pub host : Bytes
  pub a : List Bytes
  pub aaaa : List Bytes

unfoldable pub host_node : Bytes → Bytes → Host
host_node hostname ip = record {
  id = some (codes "host:" ++ ip);
  ip = ip;
  hostname = some hostname;
  mac_address = none;
  state = none;
  os = none;
}

-- Each of the two inner loops.
unfoldable pub add_hosts : Bytes → List Bytes → DiscoveryResult → DiscoveryResult
add_hosts hostname [] disc = disc
add_hosts hostname (ip ∷ ips) disc =
    add_hosts hostname ips (record disc { hosts = disc.hosts ++ (host_node hostname ip ∷ []) })

unfoldable pub step : DiscoveryResult → DnsxRecord → DiscoveryResult
step disc r = add_hosts r.host r.aaaa (add_hosts r.host r.a disc)

unfoldable pub build_args : List Bytes → List Bytes
build_args filtered =
    (codes "-json"
      ∷ codes "-silent"
      ∷ codes "-l"
      ∷ codes "/dev/stdin"
      ∷ codes "-a"
      ∷ codes "-aaaa"
      ∷ [])
    ++ filtered

module _ (decode : Bytes → Decoded DnsxRecord) where
  unfoldable pub parse_json_lines : Bytes → Parsed
  parse_json_lines text =
      let scanned = scan text in
      conclude (λ (d : DiscoveryResult). d) structured scanned.error
        (loop trim_space decode step scanned.tokens nothing 0)

  -- The target is written to the standard input.
  unfoldable pub execute :
      Policies → World → Context → ExecuteRequest → ExecuteResponse × Option Error
  execute policies w ctx req = require_target tool_name req (
      run_filtered tool_name (apply_policy policies tool_name req.args) λ filtered.
        settle_run tool_name none
          (run_tool w ctx tool_name (build_args filtered) (req.target ++ (b'\n' ∷ [])))
          parse_json_lines)

  abbrev pub parser : Parser
  parser = record { describe = describe; execute = execute }
