-- ===== src/Parsers/Links.antt =====
-- The references between the nodes that parsers/*/*.go build: a port names its host, a service its
-- port, an endpoint its service, a technology its endpoint, a subdomain its domain.
pub mod Ports
pub mod Scans
pub mod Names
pub mod Web
use gibson_tool_runner.Base.{
  Bytes, Bool, true, false, ◌||◌, List, [], ◌∷◌, ◌++◌, Option, none, some, ◌==◌, ==_iff, ◌≡◌, ◌⊎◌,
  refl, inl, inr, arith, All, All-append,
}
use gibson_tool_runner.Graph.{
  Host, Port, Service, Endpoint, Technology, Domain, Subdomain, DiscoveryResult, nothing,
}

abbrev pub id_text : Option Bytes → Bytes
id_text none = []
id_text (some id) = id

-- Some node of the list has this id.
abbrev pub has_id {ℓ} : {B : Type ℓ} → (B → Option Bytes) → Bytes → List B → Bool
has_id f k [] = false
has_id f k (b ∷ bs) = id_text (f b) == k || has_id f k bs

-- Each node of the second list names a node of the first.
abbrev pub Linked {ℓ κ} :
    {B : Type ℓ} {A : Type κ} → (B → Option Bytes) → (A → Bytes) → List B → List A → Type 0
Linked f key bs [] = Unit
Linked f key bs (a ∷ qs) = (has_id f (key a) bs ≡ true) × Linked f key bs qs

-- No node refers to a node that is not there. A service of a probe by URL names no port.
pub record IsLinked (d : DiscoveryResult) : Type 0 where
  pub ports : Linked (λ (h : Host). h.id) (λ (p : Port). p.host_id) d.hosts d.ports
  pub services :
      All
        (λ (s : Service). (s.port_id ≡ []) ⊎ (has_id (λ (p : Port). p.id) s.port_id d.ports ≡ true))
        d.services
  pub endpoints :
      Linked (λ (s : Service). s.id) (λ (e : Endpoint). e.service_id) d.services d.endpoints
  pub technologies :
      Linked
        (λ (e : Endpoint). e.id)
        (λ (t : Technology). id_text t.parent_id)
        d.endpoints
        d.technologies
  pub subdomains :
      Linked (λ (m : Domain). m.id) (λ (s : Subdomain). s.domain_id) d.domains d.subdomains

pub nothing-IsLinked : IsLinked nothing
nothing-IsLinked = record {
  ports = tt;
  services = tt;
  endpoints = tt;
  technologies = tt;
  subdomains = tt;
}

module _ {ℓ} {B : Type ℓ} (f : B → Option Bytes) where
  pub has_id-append :
      (k : Bytes) (xs ys : List B) → has_id f k (xs ++ ys) ≡ (has_id f k xs || has_id f k ys)
  has_id-append k [] ys = refl
  has_id-append k (x ∷ xs) ys = ground (arith, has_id-append k xs ys)

  pub has_id_more :
      (k : Bytes) (xs ys : List B) → has_id f k xs ≡ true → has_id f k (xs ++ ys) ≡ true
  has_id_more k xs ys h = ground (arith, has_id-append k xs ys)

  pub has_id_last :
      (k : Bytes) (xs : List B) (b : B) → id_text (f b) ≡ k → has_id f k (xs ++ (b ∷ [])) ≡ true
  has_id_last k [] b h = ground (arith, ==_iff (id_text (f b)) k)
  has_id_last k (x ∷ xs) b h = ground (arith, has_id_last k xs b h)

  module _ {κ} {A : Type κ} (key : A → Bytes) where
    -- More nodes to refer to, and more nodes that refer.
    pub Linked-more :
        (bs more : List B) (qs : List A) → Linked f key bs qs → Linked f key (bs ++ more) qs
    Linked-more bs more [] h = tt
    Linked-more bs more (a ∷ qs) h = (has_id_more (key a) bs more h.0, Linked-more bs more qs h.1)

    pub Linked-append :
        (bs : List B) (qs new : List A)
        → Linked f key bs qs
        → Linked f key bs new
        → Linked f key bs (qs ++ new)
    Linked-append bs [] new h k = k
    Linked-append bs (a ∷ qs) new h k = (h.0, Linked-append bs qs new h.1 k)

pub services_more :
    (ports more : List Port) (ss : List Service)
    → All
        (λ (s : Service). (s.port_id ≡ []) ⊎ (has_id (λ (p : Port). p.id) s.port_id ports ≡ true))
        ss
    → All
        (λ (s : Service).
          (s.port_id ≡ []) ⊎ (has_id (λ (p : Port). p.id) s.port_id (ports ++ more) ≡ true))
        ss
services_more ports more [] h = tt
services_more ports more (s ∷ ss) h = (one s h.0, services_more ports more ss h.1)
  where
    one :
        (s : Service)
        → (s.port_id ≡ []) ⊎ (has_id (λ (p : Port). p.id) s.port_id ports ≡ true)
        → (s.port_id ≡ []) ⊎ (has_id (λ (p : Port). p.id) s.port_id (ports ++ more) ≡ true)
    one s (inl e) = inl e
    one s (inr e) = inr (has_id_more (λ (p : Port). p.id) s.port_id ports more e)

-- A host more, and a port of a host that is there.
pub add_host-IsLinked :
    (d : DiscoveryResult) (h : Host)
    → IsLinked d
    → IsLinked (record d { hosts = d.hosts ++ (h ∷ []) })
add_host-IsLinked d h l = record {
  ports =
      Linked-more (λ (h : Host). h.id) (λ (p : Port). p.host_id) d.hosts (h ∷ []) d.ports l.ports;
  services = l.services;
  endpoints = l.endpoints;
  technologies = l.technologies;
  subdomains = l.subdomains;
}

pub add_port-IsLinked :
    (d : DiscoveryResult) (p : Port)
    → has_id (λ (h : Host). h.id) p.host_id d.hosts ≡ true
    → IsLinked d
    → IsLinked (record d { ports = d.ports ++ (p ∷ []) })
add_port-IsLinked d p there l = record {
  ports =
      Linked-append (λ (h : Host). h.id) (λ (p : Port). p.host_id) d.hosts d.ports (p ∷ []) l.ports
        (there, tt);
  services = services_more d.ports (p ∷ []) d.services l.services;
  endpoints = l.endpoints;
  technologies = l.technologies;
  subdomains = l.subdomains;
}

pub add_service-IsLinked :
    (d : DiscoveryResult) (s : Service)
    → (s.port_id ≡ []) ⊎ (has_id (λ (p : Port). p.id) s.port_id d.ports ≡ true)
    → IsLinked d
    → IsLinked (record d { services = d.services ++ (s ∷ []) })
add_service-IsLinked d s there l = record {
  ports = l.ports;
  services = All-append _ d.services (s ∷ []) l.services (there, tt);
  endpoints =
      Linked-more (λ (s : Service). s.id) (λ (e : Endpoint). e.service_id) d.services (s ∷ [])
        d.endpoints l.endpoints;
  technologies = l.technologies;
  subdomains = l.subdomains;
}
