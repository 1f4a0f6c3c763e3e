-- ===== src/Observability/Laws.antt =====
-- internal/observability/observability.go, `Init` and `Shutdown`.
use gibson_tool_runner.Base.{
  Bytes, [], ◌∷◌, some, Error, ◌≡◌, ◌≢◌, ◌⊎◌, refl, is_empty, is_empty-true, is_empty-false,
  Bool-cases, inl, inr,
}
use gibson_tool_runner.Observability.{
  Sdk, Made, made, not_made, Globals, Observability, trace_context, baggage, env_endpoint, init,
  init_stack, with_provider, with_exporter, shut_down,
}

module _ (k : Sdk) (getenv : Bytes → Bytes) (service_name : Bytes) (g : Globals k) where
  -- The ways in which `Init` ends.
  pub data Inits (out : Made (Observability k) × Globals k) : Type 0 where
    unnamed : (e : Error) → service_name ≡ [] → out ≡ (not_made e, g) → Inits out
    no_exporter :
        (e e' : Error)
        → service_name ≢ []
        → getenv (env_endpoint k) ≢ []
        → k.exporter ≡ not_made e
        → out ≡ (not_made e', record g { propagator = trace_context ∷ baggage ∷ [] })
        → Inits out
    ready :
        (o : Observability k) (tp : k.Provider)
        → service_name ≢ []
        → ((getenv (env_endpoint k) ≡ []) × (tp ≡ k.plain_provider (k.resource service_name)))
          ⊎ ((exp : k.Exporter) × (getenv (env_endpoint k) ≢ [])
              × (k.exporter ≡ made exp)
              × (tp ≡ k.batch_provider exp (k.resource service_name)))
        → o.logger.service_name ≡ service_name
        → shut_down k (some o) ≡ k.shutdown tp
        → out ≡ (
          made o,
          record { propagator = trace_context ∷ baggage ∷ []; tracer_provider = some tp },
        )
        → Inits out

  exporter-Inits :
      (m : Made k.Exporter)
      → service_name ≢ []
      → getenv (env_endpoint k) ≢ []
      → k.exporter ≡ m
      → Inits
          (with_exporter k service_name (record g { propagator = trace_context ∷ baggage ∷ [] }) m)
  unfolding with_exporter with_provider shut_down
  exporter-Inits (not_made e) named endpoint f = no_exporter e _ named endpoint f refl
  exporter-Inits (made exp) named endpoint f =
      ready _ _ named (inr (exp, endpoint, f, refl)) refl refl refl

  stack-Inits : service_name ≢ [] → Inits (init_stack k getenv service_name g)
  unfolding init_stack with_provider shut_down
  stack-Inits named = elim (Bool-cases (is_empty (getenv (env_endpoint k)))) [
    | inl e ↦ rw e (ready _ _ named (inl (is_empty-true _ e, refl)) refl refl refl)
    | inr e ↦ rw e (exporter-Inits k.exporter named (is_empty-false _ e) refl)
  ]

  -- `Init` ends in one of three ways. With an empty name it fails and leaves the globals alone. With an
  -- endpoint whose exporter cannot be made it fails, with the propagator set and the provider as it was.
  -- Otherwise it succeeds, the logger carries the name, and the provider that is now the global one, which
  -- exports exactly if there is an endpoint, is the one that `Shutdown` stops.
  pub init-Inits : Inits (init k getenv service_name g)
  unfolding init
  init-Inits = elim (Bool-cases (is_empty service_name)) [
    | inl e ↦ rw e (unnamed _ (is_empty-true service_name e) refl)
    | inr e ↦ rw e (stack-Inits (is_empty-false service_name e))
  ]
