-- ===== src/Graph.antt =====
-- The nodes of `gibson.graphrag.v1.DiscoveryResult` that the parsers build, with the fields that they
-- set. The generated Go types are not in the repository; an optional field is a pointer there.
use gibson_tool_runner.Base.{ℕ, Bytes, List, [], Option, ℤ}

pub record Host : Type 0 where
  pub id : Option Bytes
  pub ip : Bytes
  pub hostname : Option Bytes
  pub mac_address : Option Bytes
  pub state : Option Bytes
  pub os : Option Bytes

pub record Port : Type 0 where
  pub id : Option Bytes
  pub host_id : Bytes
  pub number : ℤ
  pub protocol : Bytes
  pub state : Option Bytes
  pub reason : Option Bytes

pub record Service : Type 0 where
  pub id : Option Bytes
  pub port_id : Bytes
  pub name : Bytes
  pub product : Option Bytes
  pub version : Option Bytes
  pub extra_info : Option Bytes

pub record Endpoint : Type 0 where
  pub id : Option Bytes
  pub service_id : Bytes
  pub url : Bytes
  pub method : Option Bytes
  pub status_code : Option ℤ
  pub content_type : Option Bytes
  pub content_length : Option ℕ
  pub title : Option Bytes

pub record Technology : Type 0 where
  pub id : Option Bytes
  pub name : Bytes
  pub parent_id : Option Bytes
  pub parent_type : Option Bytes

pub record Domain : Type 0 where
  pub id : Option Bytes
  pub name : Bytes

pub record Subdomain : Type 0 where
  pub id : Option Bytes
  pub domain_id : Bytes
  pub name : Bytes
  pub full_name : Option Bytes

-- `cvss_score` is the bits of a `float64`, which the program only copies.
pub record Finding : Type 0 where
  pub id : Option Bytes
  pub title : Bytes
  pub severity : Bytes
  pub description : Option Bytes
  pub remediation : Option Bytes
  pub cvss_score : Option ℕ
  pub cve_ids : Option Bytes
  pub category : Option Bytes

pub record DiscoveryResult : Type 0 where
  pub hosts : List Host
  pub ports : List Port
  pub services : List Service
  pub endpoints : List Endpoint
  pub technologies : List Technology
  pub domains : List Domain
  pub subdomains : List Subdomain
  pub findings : List Finding

-- `&graphragpb.DiscoveryResult{}`
abbrev pub nothing : DiscoveryResult
nothing = record {
  hosts = [];
  ports = [];
  services = [];
  endpoints = [];
  technologies = [];
  domains = [];
  subdomains = [];
  findings = [];
}
