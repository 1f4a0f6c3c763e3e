-- ===== src/Serve/Routes.antt =====
-- cmd/gibson-runner/main.go, `runServe`: what its server answers. The mux matches these two paths
-- exactly; every other path is the 404 of net/http.
pub mod Laws
use gibson_tool_runner.Base.{
  ℕ, Bytes, codes, Bool, true, false, List, [], ◌∷◌, Option, none, some, Error, ◌==◌, if◌then◌else◌,
}
use gibson_tool_runner.Readiness.{
  Aggregator, new_aggregator, register, ready_handler, Response, encoded, plain, liveness_handler,
  new_daemon_probe, daemon_probe,
}

-- `dial` is `DialContext`: the request's context, the timeout in milliseconds, and the address.
module _ {Context : Type 0} (dial : Context → ℕ → Bytes → Option Error) where
  abbrev pub aggregator : (Bytes → Bytes) → Aggregator Context
  aggregator getenv = register new_aggregator (daemon_probe dial (new_daemon_probe getenv 0))

  unfoldable pub route : (Bytes → Bytes) → Context → Bytes → Response
  route getenv ctx path =
      if path == codes "/readyz"
      then encoded (ready_handler (aggregator getenv) ctx)
      else if path == codes "/healthz"
      then liveness_handler
      else plain 404 (codes "404 page not found\n")
