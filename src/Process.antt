-- ===== src/Process.antt =====
-- What the parsers ask of the operating system: the environment, the search path, and the run of a
-- command. All of it is a parameter of the model; internal/sandbox holds what the program does around
-- it.
use gibson_tool_runner.Base.{ℕ, Bytes, List, [], Option, none, some, Error, ℤ}
use gibson_tool_runner.Sandbox.Shell.{Cmd}

-- `ctx` of a call: the deadline in seconds that `context.WithTimeout` sets, if any.
abbrev pub Context : Type 0
Context = Option ℕ

-- What `cmd.Run()` leaves: the writes to the two streams in order, the exit code if there is a
-- `ProcessState`, and the error.
pub record Outcome : Type 0 where
  pub stdout_writes : List Bytes
  pub stderr_writes : List Bytes
  pub exit_code : Option ℤ
  pub run_err : Option Error

-- `look_path` is `exec.LookPath`, with `look_err` the error for a name that it does not find; `run` is the
-- run of a command that is started, for the bytes on its standard input.
pub record World : Type 0 where
  pub getenv : Bytes → Bytes
  pub look_path : Bytes → Option Bytes
  pub look_err : Bytes → Error
  pub run : Context → Cmd → Bytes → Outcome

-- `cmd.Run()`: a command with an error from `exec.CommandContext` is not started.
unfoldable pub run_cmd : World → Context → Cmd → Bytes → Outcome
run_cmd w ctx cmd stdin = elim cmd.err [
  | some e ↦ record { stdout_writes = []; stderr_writes = []; exit_code = none; run_err = some e }
  | none ↦ w.run ctx cmd stdin
]
