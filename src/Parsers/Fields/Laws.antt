-- ===== src/Parsers/Fields/Laws.antt =====
-- parsers/*/*.go: a record that is written as an object under its tags reads back.
use gibson_tool_runner.Base.{
  ℕ, Bytes, codes, List, [], ◌∷◌, Option, some, ◌≡◌, refl, ℤ, All, decimal_int, ◌==◌,
}
use gibson_tool_runner.Sandbox.Config.Laws.{IsInt64, parse_int-decimal_int}
use gibson_tool_runner.Json.{Value, Members, number, text, array, object, no_members, member}
use gibson_tool_runner.Json.Fields.{
  set_string, set_int, set_float, set_slice, set_items, cons_set, set_members, set_struct, field_of,
  exact,
}
use gibson_tool_runner.Json.Fields.Laws.{texts, to_items, set_items-to_items, set_items-texts}
use gibson_tool_runner.Parsers.Amass.{AmassRecord}
use gibson_tool_runner.Parsers.Dnsx.{DnsxRecord}
use gibson_tool_runner.Parsers.Httpx.{HttpxResult}
use gibson_tool_runner.Parsers.Masscan.{MasscanPort, MasscanRecord}
use gibson_tool_runner.Parsers.Naabu.{NaabuRecord}
use gibson_tool_runner.Parsers.Nuclei.{NucleiClassification, NucleiInfo, NucleiEvent}
use gibson_tool_runner.Parsers.Subfinder.{SubfinderRecord}
use gibson_tool_runner.Parsers.Fields.{
  naabu_fields, naabu_zero, masscan_port_fields, masscan_port_zero, masscan_fields, masscan_zero,
  amass_address_fields, amass_fields, amass_zero, dnsx_fields, dnsx_zero, subfinder_fields,
  subfinder_zero, httpx_fields, httpx_zero, nuclei_classification_fields, nuclei_info_fields,
  nuclei_fields, nuclei_zero,
}

abbrev pub int : ℤ → Value
int z = number (decimal_int z)

abbrev pub naabu_members : NaabuRecord → Members
naabu_members r =
    member (codes "host") (text r.host)
      (member (codes "ip") (text r.ip) (member (codes "port") (int r.port) no_members))

pub naabu_back :
    (r : NaabuRecord)
    → IsInt64 r.port
    → set_members naabu_fields (naabu_members r) naabu_zero ≡ some r
unfolding set_members set_string set_int field_of exact ◌==◌
naabu_back r h = rw (parse_int-decimal_int r.port h, set_members) refl

abbrev pub subfinder_members : SubfinderRecord → Members
subfinder_members r =
    member (codes "host") (text r.host) (member (codes "source") (text r.source) no_members)

pub subfinder_back :
    (r : SubfinderRecord)
    → set_members subfinder_fields (subfinder_members r) subfinder_zero ≡ some r
unfolding set_members set_string field_of exact ◌==◌
subfinder_back r = refl

abbrev pub dnsx_members : DnsxRecord → Members
dnsx_members r =
    member (codes "host") (text r.host)
      (member (codes "a") (texts r.a) (member (codes "aaaa") (texts r.aaaa) no_members))

pub dnsx_back : (r : DnsxRecord) → set_members dnsx_fields (dnsx_members r) dnsx_zero ≡ some r
unfolding set_members set_string set_slice field_of exact ◌==◌
dnsx_back r = rw (set_items-texts r.a, set_members, set_items-texts r.aaaa, set_members) refl

abbrev pub amass_address : Bytes → Value
amass_address ip = object (member (codes "ip") (text ip) no_members)

amass_addresses_back :
    (ips : List Bytes)
    → set_items [] (set_struct amass_address_fields) (to_items amass_address ips) [] ≡ some ips
unfolding set_items cons_set set_struct set_members set_string field_of exact ◌==◌
amass_addresses_back [] = refl
amass_addresses_back (ip ∷ ips) = rw (amass_addresses_back ips) refl

abbrev pub amass_members : AmassRecord → Members
amass_members r = member (codes "name") (text r.name) (
    member (codes "domain") (text r.domain)
      (member (codes "addresses") (array (to_items amass_address r.addresses)) no_members))

pub amass_back : (r : AmassRecord) → set_members amass_fields (amass_members r) amass_zero ≡ some r
unfolding set_members set_string set_slice field_of exact ◌==◌
amass_back r = rw (amass_addresses_back r.addresses, set_members) refl

abbrev pub masscan_port : MasscanPort → Value
masscan_port r = object (
    member (codes "port") (int r.port) (
      member (codes "proto") (text r.proto) (
        member (codes "status") (text r.status)
          (member (codes "reason") (text r.reason) no_members))))

abbrev pub HasInt64 : MasscanPort → Type 0
HasInt64 r = IsInt64 r.port

masscan_port_back :
    (r : MasscanPort)
    → IsInt64 r.port
    → set_struct masscan_port_fields (masscan_port r) masscan_port_zero ≡ some r
unfolding set_struct set_members set_string set_int field_of exact ◌==◌
masscan_port_back r h = rw (parse_int-decimal_int r.port h, set_members) refl

abbrev pub masscan_members : MasscanRecord → Members
masscan_members r =
    member (codes "ip") (text r.ip)
      (member (codes "ports") (array (to_items masscan_port r.ports)) no_members)

pub masscan_back :
    (r : MasscanRecord)
    → All HasInt64 r.ports
    → set_members masscan_fields (masscan_members r) masscan_zero ≡ some r
unfolding set_members set_string set_slice field_of exact ◌==◌
masscan_back r h =
    let ports =
      set_items-to_items masscan_port_zero (set_struct masscan_port_fields) masscan_port HasInt64
        masscan_port_back r.ports h in
    rw (ports, set_members) refl

abbrev pub httpx_members : HttpxResult → Members
httpx_members r = member (codes "url") (text r.url) (
    member (codes "host") (text r.host) (
      member (codes "status_code") (int r.status_code) (
        member (codes "content_type") (text r.content_type) (
          member (codes "content_length") (int r.content_length) (
            member (codes "title") (text r.title) (
              member (codes "webserver") (text r.web_server) (
                member (codes "tech") (texts r.tech) (
                  member (codes "scheme") (text r.scheme)
                    (member (codes "method") (text r.method) no_members)))))))))

pub httpx_back :
    (r : HttpxResult)
    → IsInt64 r.status_code
    → IsInt64 r.content_length
    → set_members httpx_fields (httpx_members r) httpx_zero ≡ some r
unfolding set_members set_string set_int set_slice field_of exact ◌==◌
httpx_back r h k =
    rw
      (
        parse_int-decimal_int r.status_code h,
        set_members,
        parse_int-decimal_int r.content_length k,
        set_members,
        set_items-texts r.tech,
        set_members,
      )
      refl

-- `format` writes a score, and `parse_float` reads it again.
module _ (parse_float : Bytes → Option ℕ) (format : ℕ → Bytes) where
  abbrev pub nuclei_classification : NucleiClassification → Members
  nuclei_classification r = member (codes "cve-id") (texts r.cve_id) (
      member (codes "cwe-id") (texts r.cwe_id) (
        member (codes "cvss-score") (number (format r.cvss_score))
          (member (codes "cvss-metrics") (text r.cvss_metrics) no_members)))

  abbrev pub nuclei_info : NucleiInfo → Members
  nuclei_info r = member (codes "name") (text r.name) (
      member (codes "description") (text r.description) (
        member (codes "severity") (text r.severity) (
          member (codes "remediation") (text r.remediation) (
            member (codes "classification") (object (nuclei_classification r.classification))
              (member (codes "tags") (texts r.tags) no_members)))))

  abbrev pub nuclei_members : NucleiEvent → Members
  nuclei_members r = member (codes "template-id") (text r.template_id) (
      member (codes "info") (object (nuclei_info r.info)) (
        member (codes "host") (text r.host) (
          member (codes "matched-at") (text r.matched_at) (
            member (codes "type") (text r.type_name) (
              member (codes "curl-command") (text r.curl_command)
                (member (codes "extracted-results") (texts r.extracted_results) no_members))))))

  nuclei_classification_back :
      (r : NucleiClassification)
      → parse_float (format r.cvss_score) ≡ some r.cvss_score
      → set_members
          (nuclei_classification_fields parse_float)
          (nuclei_classification r)
          nuclei_zero.info.classification
        ≡ some r
  unfolding set_members set_string set_float set_slice field_of exact ◌==◌
  nuclei_classification_back r h =
      rw
        (
          set_items-texts r.cve_id,
          set_members,
          set_items-texts r.cwe_id,
          set_members,
          h,
          set_members,
        )
        refl

  nuclei_info_back :
      (r : NucleiInfo)
      → parse_float (format r.classification.cvss_score) ≡ some r.classification.cvss_score
      → set_members (nuclei_info_fields parse_float) (nuclei_info r) nuclei_zero.info ≡ some r
  unfolding set_members set_struct set_string set_slice field_of exact ◌==◌
  nuclei_info_back r h =
      rw
        (
          nuclei_classification_back r.classification h,
          set_members,
          set_items-texts r.tags,
          set_members,
        )
        refl

  pub nuclei_back :
      (r : NucleiEvent)
      → parse_float (format r.info.classification.cvss_score)
        ≡ some r.info.classification.cvss_score
      → set_members (nuclei_fields parse_float) (nuclei_members r) nuclei_zero ≡ some r
  unfolding set_members set_struct set_string set_slice field_of exact ◌==◌
  nuclei_back r h =
      rw (nuclei_info_back r.info h, set_members, set_items-texts r.extracted_results, set_members)
        refl
