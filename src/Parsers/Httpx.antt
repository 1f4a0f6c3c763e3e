-- ===== src/Parsers/Httpx.antt =====
-- parsers/httpx/httpx.go.
pub mod Policy
pub mod Graph
use gibson_tool_runner.Base.{
  ℕ, zero, suc, ◌+◌, Bytes, codes, Bool, true, false, not, ◌&&◌, ◌||◌, List, [], ◌∷◌, ◌++◌, Option,
  none, some, Error, message, wrapping, ℤ, pos, negsuc, is_empty, index, map, mem, trim_space,
  has_prefix, decimal, decimal_int, to_int32, eqb, leb, ltb, foldl, ◌==◌, if◌then◌else◌,
}
use gibson_tool_runner.Graph.{
  Host, Port, Service, Endpoint, Technology, Domain, Subdomain, Finding, DiscoveryResult, nothing,
}
use gibson_tool_runner.Process.{World, Context}
use gibson_tool_runner.Registry.{
  ExecuteRequest, ExecuteResponse, ParseQuality, structured, raw, partial, failed, CatalogEntry,
  Parser, Policies, assign, apply_policy,
}
use gibson_tool_runner.Parsers.Lines.{
  Decoded, record_of, malformed, Scanned, scan, loop, Parsed, conclude,
}
use gibson_tool_runner.Parsers.Tool.{
  non_empty, option, run_tool, settle_run, run_filtered, require_target, pass_parse_err, Run,
  hard_failure, failed_response,
}

abbrev pub tool_name : Bytes
tool_name = codes "httpx"

abbrev pub describe : CatalogEntry
describe = record {
  name = tool_name;
  version = codes "0.1.0";
  description =
      codes
        "HTTP probe + fingerprinter (ProjectDiscovery httpx). Emits typed Endpoint/Service/Technology nodes.";
  tags = codes "recon" ∷ codes "web" ∷ codes "fingerprint" ∷ [];
  input_schema = record {
    properties =
        record {
          name = codes "target";
          type_name = codes "string";
          items = none;
          description = some (
              codes
                "URL, host, or IP. httpx accepts the same inputs via stdin; single value here is probed once.");
        }
        ∷ record {
          name = codes "paths";
          type_name = codes "array";
          items = some (codes "string");
          description = some (codes "Paths to probe beneath the target (e.g. [\"/\", \"/api\"]).");
        }
        ∷ record {
          name = codes "args";
          type_name = codes "array";
          items = some (codes "string");
          description = some (codes "Extra httpx flags.");
        }
        ∷ [];
    required = codes "target" ∷ [];
  };
  output_proto_type = codes "gibson.graphrag.v1.DiscoveryResult";
  default_parse_quality = structured;
  resources = record { vcpu = 1; memory = codes "256Mi" };
  default_timeout_seconds = 180;
}

pub record HttpxResult : Type 0 where
  pub url : Bytes
  pub host : Bytes
  pub status_code : ℤ
  pub content_type : Bytes
  pub content_length : ℤ
  pub title : Bytes
  pub web_server : Bytes
  pub tech : List Bytes
  pub scheme : Bytes
  pub method : Bytes

-- `r.StatusCode != 0`, then `int32(r.StatusCode)`.
unfoldable pub status_of : ℤ → Option ℤ
status_of (pos zero) = none
status_of n = some (to_int32 n)

-- `r.ContentLength > 0`
unfoldable pub length_of : ℤ → Option ℕ
length_of (pos (suc n)) = some (suc n)
length_of _ = none

unfoldable pub service_id_of : Bytes → Bytes
service_id_of url = codes "service:" ++ url

unfoldable pub endpoint_id_of : Bytes → Bytes
endpoint_id_of url = codes "endpoint:" ++ url

unfoldable pub tech_node : Bytes → Bytes → Technology
tech_node url t = record {
  id = some (codes "tech:" ++ (url ++ (codes ":" ++ t)));
  name = t;
  parent_id = some (endpoint_id_of url);
  parent_type = some (codes "endpoint");
}

-- The loop over `r.Tech`, which skips empty names.
unfoldable pub tech_nodes : Bytes → List Bytes → List Technology
tech_nodes url [] = []
tech_nodes url (t ∷ ts) =
    let rest = tech_nodes url ts in if is_empty t then rest else tech_node url t ∷ rest

-- `to_lower` is `strings.ToLower`, a parameter.
module _ (to_lower : Bytes → Bytes) where
  unfoldable pub service_node : HttpxResult → Service
  service_node r = record {
    id = some (service_id_of r.url);
    port_id = [];
    name = if to_lower r.scheme == codes "https" then codes "https" else codes "http";
    product = non_empty r.web_server;
    version = none;
    extra_info = none;
  }

  unfoldable pub endpoint_node : HttpxResult → Endpoint
  endpoint_node r = record {
    id = some (endpoint_id_of r.url);
    service_id = service_id_of r.url;
    url = r.url;
    method = non_empty r.method;
    status_code = status_of r.status_code;
    content_type = non_empty r.content_type;
    content_length = length_of r.content_length;
    title = non_empty r.title;
  }

  unfoldable pub append_probe : DiscoveryResult → HttpxResult → DiscoveryResult
  append_probe disc r = record disc {
    services = disc.services ++ (service_node r ∷ []);
    endpoints = disc.endpoints ++ (endpoint_node r ∷ []);
    technologies = disc.technologies ++ tech_nodes r.url r.tech;
  }

unfoldable pub build_args : ExecuteRequest → List Bytes → List Bytes
build_args req filtered =
    let paths = option req (codes "paths") in
    (codes "-json" ∷ codes "-silent" ∷ codes "-target" ∷ req.target ∷ [])
    ++ ((if is_empty paths then [] else codes "-path" ∷ paths ∷ []) ++ filtered)

module _ (to_lower : Bytes → Bytes) (decode : Bytes → Decoded HttpxResult) where
  -- A text with no record has the quality RAW.
  unfoldable pub parse_json_lines : Bytes → Parsed
  parse_json_lines text =
      let scanned = scan text in
      conclude (λ (d : DiscoveryResult). d) raw scanned.error
        (loop trim_space decode (append_probe to_lower) scanned.tokens nothing 0)

  unfoldable pub execute :
      Policies → World → Context → ExecuteRequest → ExecuteResponse × Option Error
  execute policies w ctx req = require_target tool_name req (
      run_filtered tool_name (apply_policy policies tool_name req.args) λ filtered.
        settle_run tool_name (some (codes "httpx parse: %w"))
          (run_tool w ctx tool_name (build_args req filtered) []) parse_json_lines)

  abbrev pub parser : Parser
  parser = record { describe = describe; execute = execute }
