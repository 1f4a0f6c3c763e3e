-- ===== src/Parsers/Links/Web.antt =====
-- parsers/httpx/httpx.go, `appendProbe`, and parsers/nuclei/nuclei.go: the references of their steps.
use gibson_tool_runner.Base.{
  Bytes, true, List, [], ◌∷◌, ◌++◌, Option, none, some, ◌≡◌, refl, inl, inr, is_empty, Bool-cases,
  All-append,
}
use gibson_tool_runner.Graph.{Service, Endpoint, Technology, DiscoveryResult, Finding}
use gibson_tool_runner.Parsers.Links.{
  id_text, has_id, has_id_last, Linked, Linked-more, Linked-append, IsLinked,
}
use gibson_tool_runner.Parsers.Httpx.{
  HttpxResult, endpoint_id_of, tech_node, tech_nodes, service_node, endpoint_node, append_probe,
}
use gibson_tool_runner.Parsers.Nuclei.{NucleiEvent, to_finding, add_finding}
use gibson_tool_runner.Parsers.Nuclei

techs-Linked :
    (url : Bytes) (ts : List Bytes) (es : List Endpoint)
    → has_id (λ (e : Endpoint). e.id) (endpoint_id_of url) es ≡ true
    → Linked
        (λ (e : Endpoint). e.id)
        (λ (t : Technology). id_text t.parent_id)
        es
        (tech_nodes url ts)
unfolding tech_nodes tech_node
techs-Linked url [] es there = tt
techs-Linked url (t ∷ ts) es there = elim (Bool-cases (is_empty t)) [
  | inl e ↦ rw e (techs-Linked url ts es there)
  | inr e ↦ rw e (there, techs-Linked url ts es there)
]

-- One probe keeps the references.
pub append_probe-IsLinked :
    (to_lower : Bytes → Bytes) (r : HttpxResult) (d : DiscoveryResult)
    → IsLinked d
    → IsLinked (append_probe to_lower d r)
unfolding append_probe service_node endpoint_node
append_probe-IsLinked to_lower r d l = record {
  ports = l.ports;
  services = All-append _ d.services (service_node to_lower r ∷ []) l.services (inl refl, tt);
  endpoints =
      Linked-append (λ (s : Service). s.id) (λ (e : Endpoint). e.service_id)
        (d.services ++ (service_node to_lower r ∷ [])) d.endpoints (endpoint_node to_lower r ∷ [])
        (Linked-more (λ (s : Service). s.id) (λ (e : Endpoint). e.service_id) d.services
          (service_node to_lower r ∷ []) d.endpoints l.endpoints)
        (has_id_last (λ (s : Service). s.id) _ d.services (service_node to_lower r) refl, tt);
  technologies =
      Linked-append (λ (e : Endpoint). e.id) (λ (t : Technology). id_text t.parent_id)
        (d.endpoints ++ (endpoint_node to_lower r ∷ [])) d.technologies (tech_nodes r.url r.tech)
        (Linked-more (λ (e : Endpoint). e.id) (λ (t : Technology). id_text t.parent_id) d.endpoints
          (endpoint_node to_lower r ∷ []) d.technologies l.technologies)
        (techs-Linked r.url r.tech _
          (has_id_last (λ (e : Endpoint). e.id) _ d.endpoints (endpoint_node to_lower r) refl));
  subdomains = l.subdomains;
}

pub step-IsLinked :
    (to_lower : Bytes → Bytes) (d : DiscoveryResult) (ev : NucleiEvent)
    → IsLinked d
    → IsLinked (Nuclei.step to_lower d ev)
unfolding Nuclei.step add_finding
step-IsLinked to_lower d ev l = by_finding (to_finding to_lower ev)
  where
    by_finding : (f : Option Finding) → IsLinked (add_finding to_lower f d)
    by_finding none = l
    by_finding (some f) = record {
      ports = l.ports;
      services = l.services;
      endpoints = l.endpoints;
      technologies = l.technologies;
      subdomains = l.subdomains;
    }
