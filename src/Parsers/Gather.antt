-- ===== src/Parsers/Gather.antt =====
-- The graph in parsers/*/*.go described with no loop: each record has its own nodes, and a discovery
-- is their union in the order of the records.
use gibson_tool_runner.Base.{
  Bytes, Bool, true, false, List, [], ◌∷◌, ◌++◌, ◌≡◌, refl, sym, ap, ◌∙◌, append-nil, append_assoc,
  map, foldl, arith, if◌then◌else◌,
}
use gibson_tool_runner.Graph.{DiscoveryResult, nothing}

-- The nodes of both, those of the first one before.
unfoldable pub merge : DiscoveryResult → DiscoveryResult → DiscoveryResult
merge d e = record {
  hosts = d.hosts ++ e.hosts;
  ports = d.ports ++ e.ports;
  services = d.services ++ e.services;
  endpoints = d.endpoints ++ e.endpoints;
  technologies = d.technologies ++ e.technologies;
  domains = d.domains ++ e.domains;
  subdomains = d.subdomains ++ e.subdomains;
  findings = d.findings ++ e.findings;
}

pub ruleset append_laws = (append-nil, append_assoc)

pub merge-nothing : (d : DiscoveryResult) → merge d nothing ≡ d
unfolding merge
merge-nothing d = simp append_laws

pub merge_assoc : (a b c : DiscoveryResult) → merge (merge a b) c ≡ merge a (merge b c)
unfolding merge
merge_assoc a b c = simp append_laws

-- The elements that pass a test.
unfoldable pub filter {ℓ} : {A : Type ℓ} → (A → Bool) → List A → List A
filter p [] = []
filter p (x ∷ xs) = let rest = filter p xs in if p x then x ∷ rest else rest

pub filter-append {ℓ} :
    {A : Type ℓ} (p : A → Bool) (xs ys : List A) → filter p (xs ++ ys) ≡ filter p xs ++ filter p ys
unfolding filter
filter-append p [] ys = refl
filter-append p (x ∷ xs) ys = ground (arith, filter-append p xs ys)

module _ {R : Type 0} (nodes : R → DiscoveryResult) where
  unfoldable pub gather : List R → DiscoveryResult
  gather [] = nothing
  gather (r ∷ rs) = merge (nodes r) (gather rs)

  -- A loop whose rounds add the nodes of a record comes to their union.
  pub foldl-gather :
      (step : DiscoveryResult → R → DiscoveryResult)
      → ((d : DiscoveryResult) (r : R) → step d r ≡ merge d (nodes r))
      → (rs : List R) (d : DiscoveryResult) → foldl step d rs ≡ merge d (gather rs)
  unfolding gather
  foldl-gather step adds [] d = sym (merge-nothing d)
  foldl-gather step adds (r ∷ rs) d =
      ap (λ s. foldl step s rs) (adds d r)
      ∙ foldl-gather step adds rs (merge d (nodes r))
      ∙ merge_assoc d (nodes r) (gather rs)
