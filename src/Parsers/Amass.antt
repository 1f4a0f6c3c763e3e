-- ===== src/Parsers/Amass.antt =====
-- parsers/amass/amass.go.
pub mod Policy
pub mod Graph
use gibson_tool_runner.Base.{
  ℕ, zero, suc, ◌+◌, Bytes, codes, Bool, true, false, not, ◌&&◌, ◌||◌, List, [], ◌∷◌, ◌++◌, Option,
  none, some, Error, message, wrapping, ℤ, pos, negsuc, is_empty, index, map, mem, trim_space,
  has_prefix, decimal, decimal_int, to_int32, eqb, leb, ltb, foldl, ◌==◌, if◌then◌else◌,
}
use gibson_tool_runner.Graph.{
  Host, Port, Service, Endpoint, Technology, Domain, Subdomain, Finding, DiscoveryResult, nothing,
}
use gibson_tool_runner.Process.{World, Context}
use gibson_tool_runner.Registry.{
  ExecuteRequest, ExecuteResponse, ParseQuality, structured, partial, failed, CatalogEntry, Parser,
  Policies, assign, apply_policy,
}
use gibson_tool_runner.Parsers.Lines.{
  Decoded, record_of, malformed, Scanned, scan, loop, Parsed, conclude,
}
use gibson_tool_runner.Parsers.Tool.{
  non_empty, option, run_tool, settle_run, run_filtered, require_target, pass_parse_err, Run,
  hard_failure, failed_response,
}

abbrev pub tool_name : Bytes
tool_name = codes "amass"

abbrev pub describe : CatalogEntry
describe = record {
  name = tool_name;
  version = codes "0.1.0";
  description =
      codes "Subdomain + asset enumeration (OWASP Amass). Emits Domain/Subdomain/Host nodes.";
  tags = codes "recon" ∷ codes "dns" ∷ codes "discovery" ∷ [];
  input_schema = record {
    properties =
        record {
          name = codes "target";
          type_name = codes "string";
          items = none;
          description = none;
        }
        ∷ [];
    required = codes "target" ∷ [];
  };
  output_proto_type = codes "gibson.graphrag.v1.DiscoveryResult";
  default_parse_quality = structured;
  resources = record { vcpu = 2; memory = codes "1Gi" };
  default_timeout_seconds = 600;
}

pub record AmassRecord : Type 0 where
  pub name : Bytes
  pub domain : Bytes
  -- The `ip` of each address.
  pub addresses : List Bytes

-- `disc`, `seenHosts` and `seenSubs` in the loop; a set is the list of its elements.
pub record State : Type 0 where
  pub disc : DiscoveryResult
  pub seen_hosts : List Bytes
  pub seen_subs : List Bytes

unfoldable pub domain_id_of : Bytes → Bytes
domain_id_of root_domain = codes "domain:" ++ root_domain

abbrev pub start : Bytes → State
start root_domain = record {
  disc = record nothing {
    domains = record { id = some (domain_id_of root_domain); name = root_domain } ∷ [];
  };
  seen_hosts = [];
  seen_subs = [];
}

unfoldable pub sub_node : Bytes → Bytes → Subdomain
sub_node domain_id name = record {
  id = some (codes "subdomain:" ++ name);
  domain_id = domain_id;
  name = name;
  full_name = some name;
}

unfoldable pub add_sub : Bytes → AmassRecord → State → State
add_sub domain_id r s =
    if not (is_empty r.name) && not (mem r.name s.seen_subs)
    then record s {
      disc = record (s.disc) { subdomains = s.disc.subdomains ++ (sub_node domain_id r.name ∷ []) };
      seen_subs = s.seen_subs ++ (r.name ∷ []);
    }
    else s

unfoldable pub host_node : Bytes → Bytes → Host
host_node name ip = record {
  id = some (codes "host:" ++ ip);
  ip = ip;
  hostname = non_empty name;
  mac_address = none;
  state = none;
  os = none;
}

-- The round of the inner loop for one address.
unfoldable pub add_host : Bytes → Bytes → State → State
add_host name ip s = if is_empty ip || mem ip s.seen_hosts then s else record s {
  disc = record (s.disc) { hosts = s.disc.hosts ++ (host_node name ip ∷ []) };
  seen_hosts = s.seen_hosts ++ (ip ∷ []);
}

unfoldable pub add_hosts : Bytes → List Bytes → State → State
add_hosts name [] s = s
add_hosts name (ip ∷ ips) s = add_hosts name ips (add_host name ip s)

unfoldable pub step : Bytes → State → AmassRecord → State
step domain_id s r = add_hosts r.name r.addresses (add_sub domain_id r s)

unfoldable pub build_args : ExecuteRequest → List Bytes → List Bytes
build_args req filtered =
    (codes "enum"
      ∷ codes "-passive"
      ∷ codes "-json"
      ∷ codes "/dev/stdout"
      ∷ codes "-d"
      ∷ req.target
      ∷ [])
    ++ filtered

module _ (decode : Bytes → Decoded AmassRecord) where
  unfoldable pub parse_json_lines : Bytes → Bytes → Parsed
  parse_json_lines root_domain text =
      let scanned = scan text in
      conclude (λ (s : State). s.disc) structured scanned.error
        (loop trim_space decode (step (domain_id_of root_domain)) scanned.tokens (start root_domain)
          0)

  unfoldable pub execute :
      Policies → World → Context → ExecuteRequest → ExecuteResponse × Option Error
  execute policies w ctx req = require_target tool_name req (
      run_filtered tool_name (apply_policy policies tool_name req.args) λ filtered.
        settle_run tool_name none (run_tool w ctx tool_name (build_args req filtered) [])
          (parse_json_lines req.target))

  abbrev pub parser : Parser
  parser = record { describe = describe; execute = execute }
