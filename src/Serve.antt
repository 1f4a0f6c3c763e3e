-- ===== src/Serve.antt =====
-- cmd/gibson-runner/main.go, `runServe`: its two goroutines as a machine. A move is a step of one of
-- them, or the environment's: a signal, or the end of `ListenAndServe`. Any order of moves is a run.
pub mod Process
pub mod Invariant
pub mod Ending
pub mod Routes
use gibson_tool_runner.Base.{
  Bytes, codes, Bool, true, false, List, [], ◌∷◌, ◌++◌, Option, none, some, Error, is_empty,
  if◌then◌else◌,
}
use gibson_tool_runner.Observability.{Sdk, Made, made, not_made, Globals, Observability, init}
use gibson_tool_runner.Serve.Process.{State, started}

-- `serviceName`
abbrev pub service_name : Bytes
service_name = codes "gibson-executor"

-- `healthAddr`
unfoldable pub health_addr : (Bytes → Bytes) → Bytes
health_addr getenv =
    let addr = getenv (codes "RUNNER_HEALTH_ADDR") in if is_empty addr then codes ":8081" else addr

-- Up to the start of the server's goroutine: an exit with code 1 and the error, or the machine.
pub data Launch : Type 0 where
  refused : Error → Launch
  launched : State → Launch

module _ (k : Sdk) where
  unfoldable pub launch : (Bytes → Bytes) → Made (Observability k) → Launch
  launch getenv (not_made e) = refused e
  launch getenv (made o) = launched (started (health_addr getenv))

  -- `runServe` up to that point, with the globals that `observability.Init` leaves.
  unfoldable pub run_serve : (Bytes → Bytes) → Globals k → Launch × Globals k
  run_serve getenv g = let (o, g') = init k getenv service_name g in (launch getenv o, g')
