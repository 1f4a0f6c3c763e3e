-- ===== src/Parsers/Fields.antt =====
-- parsers/*/*.go: the struct tags, and with them the decoders of the JSON lines. `strconv.ParseFloat` stays
-- a parameter.
pub mod Laws
pub mod Lines
pub mod Tools
pub mod Outputs
pub mod Arrays
pub mod Runs
use gibson_tool_runner.Base.{ℕ, Bytes, codes, List, [], ◌∷◌, Option, none, some, ℤ, pos}
use gibson_tool_runner.Json.Fields.{
  Setter, Field, set_string, set_int, set_float, set_slice, set_strings, set_struct, unmarshal,
}
use gibson_tool_runner.Parsers.Lines.{Decoded}
use gibson_tool_runner.Parsers.Amass.{AmassRecord}
use gibson_tool_runner.Parsers.Dnsx.{DnsxRecord}
use gibson_tool_runner.Parsers.Httpx.{HttpxResult}
use gibson_tool_runner.Parsers.Masscan.{MasscanPort, MasscanRecord}
use gibson_tool_runner.Parsers.Naabu.{NaabuRecord}
use gibson_tool_runner.Parsers.Nmap.{NmapHost}
use gibson_tool_runner.Parsers.Nuclei.{NucleiClassification, NucleiInfo, NucleiEvent}
use gibson_tool_runner.Parsers.Subfinder.{SubfinderRecord}
use gibson_tool_runner.Parsers.Tools.{Decoders}

-- A field with its getter and its update.
abbrev field : {S A : Type 0} → Bytes → Setter A → (S → A) → (S → A → S) → Field S
field tag set get update = record {
  tag = tag;
  put = λ v s. elim (set v (get s)) [ none ↦ none | some a ↦ some (update s a) ];
}

abbrev pub naabu_fields : List (Field NaabuRecord)
naabu_fields =
    field (codes "host") set_string (λ r. r.host) (λ r a. record r { host = a })
    ∷ field (codes "ip") set_string (λ r. r.ip) (λ r a. record r { ip = a })
    ∷ field (codes "port") set_int (λ r. r.port) (λ r a. record r { port = a })
    ∷ []

abbrev pub naabu_zero : NaabuRecord
naabu_zero = record { host = []; ip = []; port = pos 0 }

abbrev pub masscan_port_fields : List (Field MasscanPort)
masscan_port_fields =
    field (codes "port") set_int (λ r. r.port) (λ r a. record r { port = a })
    ∷ field (codes "proto") set_string (λ r. r.proto) (λ r a. record r { proto = a })
    ∷ field (codes "status") set_string (λ r. r.status) (λ r a. record r { status = a })
    ∷ field (codes "reason") set_string (λ r. r.reason) (λ r a. record r { reason = a })
    ∷ []

abbrev pub masscan_port_zero : MasscanPort
masscan_port_zero = record { port = pos 0; proto = []; status = []; reason = [] }

abbrev pub masscan_fields : List (Field MasscanRecord)
masscan_fields =
    field (codes "ip") set_string (λ r. r.ip) (λ r a. record r { ip = a })
    ∷ field (codes "ports") (set_slice masscan_port_zero (set_struct masscan_port_fields))
        (λ r. r.ports) (λ r a. record r { ports = a })
    ∷ []

abbrev pub masscan_zero : MasscanRecord
masscan_zero = record { ip = []; ports = [] }

-- `amassAddress`, a struct of one text.
abbrev pub amass_address_fields : List (Field Bytes)
amass_address_fields = field (codes "ip") set_string (λ ip. ip) (λ old ip. ip) ∷ []

abbrev pub amass_fields : List (Field AmassRecord)
amass_fields =
    field (codes "name") set_string (λ r. r.name) (λ r a. record r { name = a })
    ∷ field (codes "domain") set_string (λ r. r.domain) (λ r a. record r { domain = a })
    ∷ field (codes "addresses") (set_slice [] (set_struct amass_address_fields)) (λ r. r.addresses)
        (λ r a. record r { addresses = a })
    ∷ []

abbrev pub amass_zero : AmassRecord
amass_zero = record { name = []; domain = []; addresses = [] }

abbrev pub dnsx_fields : List (Field DnsxRecord)
dnsx_fields =
    field (codes "host") set_string (λ r. r.host) (λ r a. record r { host = a })
    ∷ field (codes "a") set_strings (λ r. r.a) (λ r x. record r { a = x })
    ∷ field (codes "aaaa") set_strings (λ r. r.aaaa) (λ r x. record r { aaaa = x })
    ∷ []

abbrev pub dnsx_zero : DnsxRecord
dnsx_zero = record { host = []; a = []; aaaa = [] }

abbrev pub subfinder_fields : List (Field SubfinderRecord)
subfinder_fields =
    field (codes "host") set_string (λ r. r.host) (λ r a. record r { host = a })
    ∷ field (codes "source") set_string (λ r. r.source) (λ r a. record r { source = a })
    ∷ []

abbrev pub subfinder_zero : SubfinderRecord
subfinder_zero = record { host = []; source = [] }

abbrev pub httpx_fields : List (Field HttpxResult)
httpx_fields =
    field (codes "url") set_string (λ r. r.url) (λ r a. record r { url = a })
    ∷ field (codes "host") set_string (λ r. r.host) (λ r a. record r { host = a })
    ∷ field (codes "status_code") set_int (λ r. r.status_code) (λ r a. record r { status_code = a })
    ∷ field (codes "content_type") set_string (λ r. r.content_type)
        (λ r a. record r { content_type = a })
    ∷ field (codes "content_length") set_int (λ r. r.content_length)
        (λ r a. record r { content_length = a })
    ∷ field (codes "title") set_string (λ r. r.title) (λ r a. record r { title = a })
    ∷ field (codes "webserver") set_string (λ r. r.web_server) (λ r a. record r { web_server = a })
    ∷ field (codes "tech") set_strings (λ r. r.tech) (λ r a. record r { tech = a })
    ∷ field (codes "scheme") set_string (λ r. r.scheme) (λ r a. record r { scheme = a })
    ∷ field (codes "method") set_string (λ r. r.method) (λ r a. record r { method = a })
    ∷ []

abbrev pub httpx_zero : HttpxResult
httpx_zero = record {
  url = [];
  host = [];
  status_code = pos 0;
  content_type = [];
  content_length = pos 0;
  title = [];
  web_server = [];
  tech = [];
  scheme = [];
  method = [];
}

abbrev pub nuclei_zero : NucleiEvent
nuclei_zero = record {
  template_id = [];
  info = record {
    name = [];
    description = [];
    severity = [];
    remediation = [];
    classification = record { cve_id = []; cwe_id = []; cvss_score = 0; cvss_metrics = [] };
    tags = [];
  };
  host = [];
  matched_at = [];
  type_name = [];
  curl_command = [];
  extracted_results = [];
}

module _ (parse_float : Bytes → Option ℕ) where
  abbrev pub nuclei_classification_fields : List (Field NucleiClassification)
  nuclei_classification_fields =
      field (codes "cve-id") set_strings (λ r. r.cve_id) (λ r a. record r { cve_id = a })
      ∷ field (codes "cwe-id") set_strings (λ r. r.cwe_id) (λ r a. record r { cwe_id = a })
      ∷ field (codes "cvss-score") (set_float parse_float) (λ r. r.cvss_score)
          (λ r a. record r { cvss_score = a })
      ∷ field (codes "cvss-metrics") set_string (λ r. r.cvss_metrics)
          (λ r a. record r { cvss_metrics = a })
      ∷ []

  abbrev pub nuclei_info_fields : List (Field NucleiInfo)
  nuclei_info_fields =
      field (codes "name") set_string (λ r. r.name) (λ r a. record r { name = a })
      ∷ field (codes "description") set_string (λ r. r.description)
          (λ r a. record r { description = a })
      ∷ field (codes "severity") set_string (λ r. r.severity) (λ r a. record r { severity = a })
      ∷ field (codes "remediation") set_string (λ r. r.remediation)
          (λ r a. record r { remediation = a })
      ∷ field (codes "classification") (set_struct nuclei_classification_fields)
          (λ r. r.classification) (λ r a. record r { classification = a })
      ∷ field (codes "tags") set_strings (λ r. r.tags) (λ r a. record r { tags = a })
      ∷ []

  abbrev pub nuclei_fields : List (Field NucleiEvent)
  nuclei_fields =
      field (codes "template-id") set_string (λ r. r.template_id)
        (λ r a. record r { template_id = a })
      ∷ field (codes "info") (set_struct nuclei_info_fields) (λ r. r.info)
          (λ r a. record r { info = a })
      ∷ field (codes "host") set_string (λ r. r.host) (λ r a. record r { host = a })
      ∷ field (codes "matched-at") set_string (λ r. r.matched_at)
          (λ r a. record r { matched_at = a })
      ∷ field (codes "type") set_string (λ r. r.type_name) (λ r a. record r { type_name = a })
      ∷ field (codes "curl-command") set_string (λ r. r.curl_command)
          (λ r a. record r { curl_command = a })
      ∷ field (codes "extracted-results") set_strings (λ r. r.extracted_results)
          (λ r a. record r { extracted_results = a })
      ∷ []

  -- The decoders of the eight parsers, with `strings.ToLower` and the XML decoder of nmap.
  abbrev pub decoders : (Bytes → Bytes) → (Bytes → Decoded (List NmapHost)) → Decoders
  decoders to_lower of_nmap = record {
    to_lower = to_lower;
    of_amass = unmarshal amass_fields amass_zero;
    of_dnsx = unmarshal dnsx_fields dnsx_zero;
    of_httpx = unmarshal httpx_fields httpx_zero;
    of_masscan = unmarshal masscan_fields masscan_zero;
    of_naabu = unmarshal naabu_fields naabu_zero;
    of_nmap = of_nmap;
    of_nuclei = unmarshal nuclei_fields nuclei_zero;
    of_subfinder = unmarshal subfinder_fields subfinder_zero;
  }
