-- ===== src/Parsers/Nuclei.antt =====
-- parsers/nuclei/nuclei.go.
pub mod Policy
pub mod Graph
use gibson_tool_runner.Base.{
  ℕ, zero, suc, ◌+◌, Bytes, codes, Bool, true, false, not, ◌&&◌, ◌||◌, List, [], ◌∷◌, ◌++◌, Option,
  none, some, Error, message, wrapping, ℤ, pos, negsuc, is_empty, index, map, mem, trim_space,
  has_prefix, decimal, decimal_int, to_int32, eqb, leb, ltb, foldl, ◌==◌, if◌then◌else◌,
}
use gibson_tool_runner.Graph.{
  Host, Port, Service, Endpoint, Technology, Domain, Subdomain, Finding, DiscoveryResult, nothing,
}
use gibson_tool_runner.Process.{World, Context}
use gibson_tool_runner.Registry.{
  ExecuteRequest, ExecuteResponse, ParseQuality, structured, partial, failed, CatalogEntry, Parser,
  Policies, assign, apply_policy,
}
use gibson_tool_runner.Parsers.Lines.{
  Decoded, record_of, malformed, Scanned, scan, loop, Parsed, conclude,
}
use gibson_tool_runner.Parsers.Tool.{
  non_empty, option, run_tool, settle_run, run_filtered, require_target, pass_parse_err, Run,
  hard_failure, failed_response,
}

abbrev pub tool_name : Bytes
tool_name = codes "nuclei"

abbrev pub describe : CatalogEntry
describe = record {
  name = tool_name;
  version = codes "0.1.0";
  description =
      codes
        "Template-based vulnerability scanner (ProjectDiscovery nuclei). Emits typed Finding nodes with severity + CVSS + MITRE classification when templates supply it.";
  tags = codes "scan" ∷ codes "vulnerability" ∷ codes "web" ∷ [];
  input_schema = record {
    properties =
        record {
          name = codes "target";
          type_name = codes "string";
          items = none;
          description = some (codes "URL or host to scan.");
        }
        ∷ record {
          name = codes "templates";
          type_name = codes "array";
          items = some (codes "string");
          description = some (
              codes
                "Template IDs or paths (e.g. cves/2023 or a specific template path). Default: nuclei's built-in default template set.");
        }
        ∷ record {
          name = codes "severity";
          type_name = codes "string";
          items = none;
          description = some (codes "Comma-separated severity filter, e.g. \"critical,high\".");
        }
        ∷ record {
          name = codes "args";
          type_name = codes "array";
          items = some (codes "string");
          description = some (codes "Extra nuclei flags.");
        }
        ∷ [];
    required = codes "target" ∷ [];
  };
  output_proto_type = codes "gibson.graphrag.v1.DiscoveryResult";
  default_parse_quality = structured;
  resources = record { vcpu = 2; memory = codes "1Gi" };
  default_timeout_seconds = 600;
}

pub record NucleiClassification : Type 0 where
  pub cve_id : List Bytes
  pub cwe_id : List Bytes
  -- The bits of the `float64`.
  pub cvss_score : ℕ
  pub cvss_metrics : Bytes

pub record NucleiInfo : Type 0 where
  pub name : Bytes
  pub description : Bytes
  pub severity : Bytes
  pub remediation : Bytes
  pub classification : NucleiClassification
  pub tags : List Bytes

pub record NucleiEvent : Type 0 where
  pub template_id : Bytes
  pub info : NucleiInfo
  pub host : Bytes
  pub matched_at : Bytes
  pub type_name : Bytes
  pub curl_command : Bytes
  pub extracted_results : List Bytes

-- `strings.Join(parts, ",")`
unfoldable pub join : List Bytes → Bytes
join [] = []
join (part ∷ []) = part
join (part ∷ next ∷ parts) = part ++ (b',' ∷ join (next ∷ parts))

-- A pointer that is set for a list that is not empty.
unfoldable pub joined : List Bytes → Option Bytes
unfolding join
joined [] = none
joined (part ∷ parts) = some (join (part ∷ parts))

-- `score > 0` on the bits of a `float64`: no sign, not zero, at most infinity and so no NaN.
unfoldable pub positive_score : ℕ → Option ℕ
positive_score bits = if ltb 0 bits && leb bits 0x7ff0000000000000 then some bits else none

-- `to_lower` is `strings.ToLower`, a parameter.
module _ (to_lower : Bytes → Bytes) where
  -- The switch of `normaliseSeverity` on the lowered text `key`.
  unfoldable pub severity_case : Bytes → Bytes → Bytes
  severity_case key s =
      if key == codes "critical"
      then codes "critical"
      else if key == codes "high"
      then codes "high"
      else if key == codes "medium"
      then codes "medium"
      else if key == codes "low"
      then codes "low"
      else if key == codes "info" || key == codes "informational"
      then codes "info"
      else if key == codes "unknown" || is_empty key
      then codes "info"
      else to_lower s

  unfoldable pub normalise_severity : Bytes → Bytes
  unfolding severity_case
  normalise_severity s = severity_case (to_lower (trim_space s)) s

  unfoldable pub finding_node : Bytes → NucleiEvent → Finding
  finding_node title ev = record {
    id = some (codes "finding:" ++ (ev.template_id ++ (codes ":" ++ ev.matched_at)));
    title = title;
    severity = normalise_severity ev.info.severity;
    description = non_empty ev.info.description;
    remediation = non_empty ev.info.remediation;
    cvss_score = positive_score ev.info.classification.cvss_score;
    cve_ids = joined ev.info.classification.cve_id;
    category = joined ev.info.tags;
  }

  -- `toFinding`: nil when the event has neither a name nor a template id.
  unfoldable pub to_finding : NucleiEvent → Option Finding
  to_finding ev =
      let title = if is_empty ev.info.name then ev.template_id else ev.info.name in
      if is_empty title then none else some (finding_node title ev)

  unfoldable pub add_finding : Option Finding → DiscoveryResult → DiscoveryResult
  add_finding none disc = disc
  add_finding (some f) disc = record disc { findings = disc.findings ++ (f ∷ []) }

  unfoldable pub step : DiscoveryResult → NucleiEvent → DiscoveryResult
  step disc ev = add_finding (to_finding ev) disc

unfoldable pub build_args : ExecuteRequest → List Bytes → List Bytes
build_args req filtered =
    let severity = option req (codes "severity") in
    let templates = option req (codes "templates") in
    (codes "-jsonl" ∷ codes "-silent" ∷ codes "-target" ∷ req.target ∷ [])
    ++ ((if is_empty severity then [] else codes "-severity" ∷ severity ∷ [])
        ++ ((if is_empty templates then [] else codes "-t" ∷ templates ∷ []) ++ filtered))

-- Here the exit code is only read behind the check for an overflow.
unfoldable pub late_exit_code : Run → Run
late_exit_code r = elim r.overflow [
  | none ↦ r
  | some e ↦ record r { response = record (r.response) { exit_code = pos 0 } }
]

module _ (to_lower : Bytes → Bytes) (decode : Bytes → Decoded NucleiEvent) where
  unfoldable pub parse_json_lines : Bytes → Parsed
  parse_json_lines text =
      let scanned = scan text in
      conclude (λ (d : DiscoveryResult). d) structured scanned.error
        (loop trim_space decode (step to_lower) scanned.tokens nothing 0)

  unfoldable pub execute :
      Policies → World → Context → ExecuteRequest → ExecuteResponse × Option Error
  execute policies w ctx req = require_target tool_name req (
      run_filtered tool_name (apply_policy policies tool_name req.args) λ filtered.
        settle_run tool_name (some (codes "nuclei parse: %w"))
          (late_exit_code (run_tool w ctx tool_name (build_args req filtered) [])) parse_json_lines)

  abbrev pub parser : Parser
  parser = record { describe = describe; execute = execute }
