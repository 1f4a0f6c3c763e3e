-- ===== src/Tests/Serving.antt =====
-- cmd/gibson-runner/main.go in serve mode, with internal/observability, at concrete inputs.
use gibson_tool_runner.Base.{
  ℕ, Bytes, codes, List, [], ◌∷◌, Option, none, some, Error, message, ◌≡◌, refl, true, ◌==◌,
  if◌then◌else◌,
}
use gibson_tool_runner.Observability.{Sdk, not_made, Globals, init}
use gibson_tool_runner.Observability.Laws.{Inits, init-Inits}
use gibson_tool_runner.Readiness.{encoded, plain}
use gibson_tool_runner.Serve.{service_name}
use gibson_tool_runner.Serve.Process.{
  server_closed, gone, finishing, LogLine, serve_starting, server_listening, shutting_down,
  otel_shutdown_error, shutdown_complete, End, exited, State, started, Move, signal, announce,
  notify, wake, complete, returns, stop_server, flush, step, run,
}
use gibson_tool_runner.Serve.Invariant.{IsGraceful, run-IsGraceful}
use gibson_tool_runner.Serve.Ending.{Inevitable, HasEnded, signalled-Inevitable}
use gibson_tool_runner.Serve.Routes.{route}
use gibson_tool_runner.Serve.Routes.Laws.{answer_for, route_lem}

-- Telemetry with no exporter: an endpoint is an error.
abbrev pub quiet_sdk : Sdk
quiet_sdk = record {
  Resource = Bytes;
  Exporter = Unit;
  Provider = Bytes;
  resource = λ name. name;
  exporter = not_made (message (codes "no collector") []);
  plain_provider = λ res. res;
  batch_provider = λ exp res. res;
  shutdown = λ tp. none;
}

abbrev pub fresh_globals : Globals quiet_sdk
fresh_globals = record { propagator = []; tracer_provider = none }

abbrev no_env : Bytes → Bytes
no_env name = []

init-Inits_example :
    Inits quiet_sdk no_env service_name fresh_globals
      (init quiet_sdk no_env service_name fresh_globals)
init-Inits_example = init-Inits quiet_sdk no_env service_name fresh_globals

abbrev lost : Error
lost = message (codes "collector gone") []

-- A signal before the server is announced, then a full shutdown with a failing flush.
abbrev moves : List Move
moves =
    notify
    ∷ signal
    ∷ announce
    ∷ wake
    ∷ returns server_closed
    ∷ stop_server none
    ∷ flush (some lost)
    ∷ complete
    ∷ []

abbrev stopped_state : State
stopped_state = record {
  addr = codes ":8081";
  server = gone;
  main = finishing;
  signalled = true;
  shut_down = true;
  flushed = true;
  log =
      serve_starting
      ∷ server_listening (codes ":8081")
      ∷ shutting_down
      ∷ otel_shutdown_error lost
      ∷ shutdown_complete
      ∷ [];
  end = some (exited 0);
}

run_moves : run (started (codes ":8081")) moves ≡ some stopped_state
unfolding run step
run_moves = refl

run-IsGraceful_example :
    ((end : End) → stopped_state.end ≡ some end → IsGraceful stopped_state end)
    × (stopped_state.flushed ≡ true → stopped_state.shut_down ≡ true)
    × (stopped_state.shut_down ≡ true → stopped_state.signalled ≡ true)
run-IsGraceful_example = run-IsGraceful (codes ":8081") moves stopped_state run_moves

-- The same process at its first signal, with the server not announced yet.
abbrev signalled_state : State
signalled_state = record (started (codes ":8081")) {
  main = gibson_tool_runner.Serve.Process.waiting;
  signalled = true;
}

signalled_runs : run (started (codes ":8081")) (notify ∷ signal ∷ []) ≡ some signalled_state
unfolding run step
signalled_runs = refl

signalled-Inevitable_example : Inevitable HasEnded signalled_state
signalled-Inevitable_example = signalled-Inevitable signalled_state refl

abbrev dial : Bytes → ℕ → Bytes → Option Error
dial ctx timeout addr = if addr == codes "localhost:50002" then none else some lost

route_lem_example :
    (route dial no_env [] (codes "/readyz") ≡ encoded (answer_for (codes "localhost:50002") none))
    × (route dial no_env [] (codes "/healthz") ≡ plain 200 (codes "{\"status\":\"ok\"}"))
unfolding ◌==◌
route_lem_example = route_lem dial no_env []
