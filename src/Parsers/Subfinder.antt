-- ===== src/Parsers/Subfinder.antt =====
-- parsers/subfinder/subfinder.go.
pub mod Policy
pub mod Graph
use gibson_tool_runner.Base.{
  ℕ, zero, suc, ◌+◌, Bytes, codes, Bool, true, false, not, ◌&&◌, ◌||◌, List, [], ◌∷◌, ◌++◌, Option,
  none, some, Error, message, wrapping, ℤ, pos, negsuc, is_empty, index, map, mem, trim_space,
  has_prefix, decimal, decimal_int, to_int32, eqb, leb, ltb, foldl, ◌==◌, if◌then◌else◌,
}
use gibson_tool_runner.Graph.{
  Host, Port, Service, Endpoint, Technology, Domain, Subdomain, Finding, DiscoveryResult, nothing,
}
use gibson_tool_runner.Process.{World, Context}
use gibson_tool_runner.Registry.{
  ExecuteRequest, ExecuteResponse, ParseQuality, structured, partial, failed, CatalogEntry, Parser,
  Policies, assign, apply_policy,
}
use gibson_tool_runner.Parsers.Lines.{
  Decoded, record_of, malformed, Scanned, scan, loop, Parsed, conclude,
}
use gibson_tool_runner.Parsers.Tool.{
  non_empty, option, run_tool, settle_run, run_filtered, require_target, pass_parse_err, Run,
  hard_failure, failed_response,
}

abbrev pub tool_name : Bytes
tool_name = codes "subfinder"

abbrev pub describe : CatalogEntry
describe = record {
  name = tool_name;
  version = codes "0.1.0";
  description =
      codes
        "Passive subdomain discovery (ProjectDiscovery subfinder). Emits Domain/Subdomain nodes.";
  tags = codes "recon" ∷ codes "dns" ∷ codes "discovery" ∷ [];
  input_schema = record {
    properties =
        record {
          name = codes "target";
          type_name = codes "string";
          items = none;
          description = some (codes "Root domain to enumerate subdomains for.");
        }
        ∷ record {
          name = codes "args";
          type_name = codes "array";
          items = some (codes "string");
          description = none;
        }
        ∷ [];
    required = codes "target" ∷ [];
  };
  output_proto_type = codes "gibson.graphrag.v1.DiscoveryResult";
  default_parse_quality = structured;
  resources = record { vcpu = 1; memory = codes "256Mi" };
  default_timeout_seconds = 300;
}

pub record SubfinderRecord : Type 0 where
  pub host : Bytes
  pub source : Bytes

unfoldable pub domain_id_of : Bytes → Bytes
domain_id_of root_domain = codes "domain:" ++ root_domain

abbrev pub start : Bytes → DiscoveryResult
start root_domain = record nothing {
  domains = record { id = some (domain_id_of root_domain); name = root_domain } ∷ [];
}

unfoldable pub sub_node : Bytes → SubfinderRecord → Subdomain
sub_node domain_id r = record {
  id = some (codes "subdomain:" ++ r.host);
  domain_id = domain_id;
  name = r.host;
  full_name = some r.host;
}

unfoldable pub step : Bytes → DiscoveryResult → SubfinderRecord → DiscoveryResult
step domain_id disc r = record disc { subdomains = disc.subdomains ++ (sub_node domain_id r ∷ []) }

unfoldable pub build_args : ExecuteRequest → List Bytes → List Bytes
build_args req filtered =
    (codes "-json" ∷ codes "-silent" ∷ codes "-d" ∷ req.target ∷ []) ++ filtered

module _ (decode : Bytes → Decoded SubfinderRecord) where
  unfoldable pub parse_json_lines : Bytes → Bytes → Parsed
  parse_json_lines root_domain text =
      let scanned = scan text in
      conclude (λ (d : DiscoveryResult). d) structured scanned.error
        (loop trim_space decode (step (domain_id_of root_domain)) scanned.tokens (start root_domain)
          0)

  unfoldable pub execute :
      Policies → World → Context → ExecuteRequest → ExecuteResponse × Option Error
  execute policies w ctx req = require_target tool_name req (
      run_filtered tool_name (apply_policy policies tool_name req.args) λ filtered.
        settle_run tool_name none (run_tool w ctx tool_name (build_args req filtered) [])
          (parse_json_lines req.target))

  abbrev pub parser : Parser
  parser = record { describe = describe; execute = execute }
