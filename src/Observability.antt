-- ===== src/Observability.antt =====
-- internal/observability/observability.go. The packages of OpenTelemetry are parameters: what their
-- constructors give for a resource and an exporter. What they keep for the whole process, the
-- propagator and the tracer provider, is a state that `Init` gets and returns.
pub mod Laws
use gibson_tool_runner.Base.{
  Bytes, codes, List, [], ◌∷◌, Option, none, some, Error, message, wrapping, is_empty,
  if◌then◌else◌,
}

-- `propagation.TraceContext{}` and `propagation.Baggage{}`
pub data Propagator : Type 0 where
  trace_context baggage : Propagator

-- A constructor that can fail.
pub data Made (A : Type 0) : Type 0 where
  made : A → Made A
  not_made : Error → Made A

-- `shutdown` is `TracerProvider.Shutdown`, for a deadline in seconds.
pub record Sdk : Type 1 where
  pub Resource : Type 0
  pub Exporter : Type 0
  pub Provider : Type 0
  pub resource : Bytes → Resource
  pub exporter : Made Exporter
  pub plain_provider : Resource → Provider
  pub batch_provider : Exporter → Resource → Provider
  pub shutdown : Provider → Option Error

-- The JSON logger on the standard error, at level INFO, with its one attribute.
pub record Logger : Type 0 where
  pub service_name : Bytes

module _ (k : Sdk) where
  pub record Globals : Type 0 where
    pub propagator : List Propagator
    pub tracer_provider : Option k.Provider

  -- `shutdown` is nil or the method of a provider.
  pub record Observability : Type 0 where
    pub logger : Logger
    pub shutdown : Option k.Provider

  abbrev pub env_endpoint : Bytes
  env_endpoint = codes "OTEL_EXPORTER_OTLP_ENDPOINT"

  -- From `otel.SetTracerProvider` on.
  unfoldable pub with_provider : Bytes → Globals → k.Provider → Made Observability × Globals
  with_provider service_name g tp = (
    made (record { logger = record { service_name = service_name }; shutdown = some tp }),
    record g { tracer_provider = some tp },
  )

  -- The branch with an endpoint.
  unfoldable pub with_exporter : Bytes → Globals → Made k.Exporter → Made Observability × Globals
  with_exporter service_name g (not_made e) =
      (not_made (wrapping (codes "observability.Init: trace exporter: %w") [] e), g)
  with_exporter service_name g (made exp) =
      with_provider service_name g (k.batch_provider exp (k.resource service_name))

  -- Behind the first check.
  unfoldable pub init_stack : (Bytes → Bytes) → Bytes → Globals → Made Observability × Globals
  init_stack getenv service_name g =
      let g' = record g { propagator = trace_context ∷ baggage ∷ [] } in
      if is_empty (getenv env_endpoint)
      then with_provider service_name g' (k.plain_provider (k.resource service_name))
      else with_exporter service_name g' k.exporter

  unfoldable pub init : (Bytes → Bytes) → Bytes → Globals → Made Observability × Globals
  init getenv service_name g =
      if is_empty service_name
      then (not_made (message (codes "observability.Init: serviceName must not be empty") []), g)
      else init_stack getenv service_name g

  abbrev stop : Option k.Provider → Option Error
  stop none = none
  stop (some tp) = k.shutdown tp

  -- `Shutdown`; an outer `none` is a nil receiver.
  unfoldable pub shut_down : Option Observability → Option Error
  shut_down none = none
  shut_down (some o) = stop o.shutdown
