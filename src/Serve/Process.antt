-- ===== src/Serve/Process.antt =====
-- cmd/gibson-runner/main.go, `runServe`: the state of the process and its moves.
use gibson_tool_runner.Base.{
  ℕ, Bytes, Bool, true, false, List, [], ◌∷◌, ◌++◌, Option, none, some, Error, if◌then◌else◌,
}

-- What `ListenAndServe` returns: `http.ErrServerClosed` or another error, never nil.
pub data Returned : Type 0 where
  server_closed : Returned
  other : Error → Returned

-- The goroutine of the server: before its log line, in `ListenAndServe`, about to exit, at its end.
pub data Server : Type 0 where
  spawned serving gone : Server
  failing : Error → Server

-- The goroutine of `main`: before `signal.Notify`, at `<-quit`, before `srv.Shutdown`, before
-- `otelProvider.Shutdown`, and before the last log line.
pub data Main : Type 0 where
  starting waiting stopping flushing finishing : Main

pub data LogLine : Type 0 where
  serve_starting : LogLine
  server_listening : Bytes → LogLine
  server_error : Error → LogLine
  shutting_down : LogLine
  server_shutdown_error : Error → LogLine
  otel_shutdown_error : Error → LogLine
  shutdown_complete : LogLine

-- The end of the process: an exit code, or the default action of a signal.
pub data End : Type 0 where
  exited : ℕ → End
  killed : End

-- `signalled` is a signal in `quit`; `shut_down` and `flushed` say that `srv.Shutdown` and
-- `otelProvider.Shutdown` have returned.
pub record State : Type 0 where
  pub addr : Bytes
  pub server : Server
  pub main : Main
  pub signalled : Bool
  pub shut_down : Bool
  pub flushed : Bool
  pub log : List LogLine
  pub end : Option End

abbrev pub started : Bytes → State
started addr = record {
  addr = addr;
  server = spawned;
  main = starting;
  signalled = false;
  shut_down = false;
  flushed = false;
  log = serve_starting ∷ [];
  end = none;
}

-- `signal`: SIGTERM or SIGINT arrives. `announce`, `returns` and `crash` are the server's goroutine,
-- the others that of `main`, with what the two calls of `Shutdown` return.
pub data Move : Type 0 where
  signal announce crash notify wake complete : Move
  returns : Returned → Move
  stop_server flush : Option Error → Move

abbrev warned : (Error → LogLine) → Option Error → List LogLine
warned line none = []
warned line (some e) = line e ∷ []

-- Before `signal.Notify` a signal ends the process; behind it the first one fills the channel, and
-- further ones change nothing.
on_signal : Main → State → Option State
on_signal starting s = some (record s { end = some killed })
on_signal _ s = if s.signalled then none else some (record s { signalled = true })

on_announce : Server → State → Option State
on_announce spawned s =
    some (record s { server = serving; log = s.log ++ (server_listening s.addr ∷ []) })
on_announce _ s = none

-- `ErrServerClosed` needs a call of `srv.Shutdown`, which closes the listener first.
on_returns : Server → Main → Returned → State → Option State
on_returns serving main (other e) s = some (record s { server = failing e })
on_returns serving stopping server_closed s = some (record s { server = gone })
on_returns serving main server_closed s =
    if s.shut_down then some (record s { server = gone }) else none
on_returns _ main r s = none

on_crash : Server → State → Option State
on_crash (failing e) s =
    some (record s { log = s.log ++ (server_error e ∷ []); end = some (exited 1) })
on_crash _ s = none

on_notify : Main → State → Option State
on_notify starting s = some (record s { main = waiting })
on_notify _ s = none

on_wake : Main → State → Option State
on_wake waiting s =
    if s.signalled
    then some (record s { main = stopping; log = s.log ++ (shutting_down ∷ []) })
    else none
on_wake _ s = none

on_stop_server : Main → Option Error → State → Option State
on_stop_server stopping e s =
    some (record s {
      main = flushing;
      shut_down = true;
      log = s.log ++ warned server_shutdown_error e;
    })
on_stop_server _ e s = none

on_flush : Main → Option Error → State → Option State
on_flush flushing e s =
    some
      (record s { main = finishing; flushed = true; log = s.log ++ warned otel_shutdown_error e })
on_flush _ e s = none

on_complete : Main → State → Option State
on_complete finishing s =
    some (record s { log = s.log ++ (shutdown_complete ∷ []); end = some (exited 0) })
on_complete _ s = none

act : Move → State → Option State
act signal s = on_signal s.main s
act announce s = on_announce s.server s
act (returns r) s = on_returns s.server s.main r s
act crash s = on_crash s.server s
act notify s = on_notify s.main s
act wake s = on_wake s.main s
act (stop_server e) s = on_stop_server s.main e s
act (flush e) s = on_flush s.main e s
act complete s = on_complete s.main s

-- One move, or `none` where it is not possible. Nothing moves behind the end.
unfoldable pub step : State → Move → Option State
unfolding act on_signal on_announce on_returns on_crash on_notify on_wake on_stop_server on_flush
    on_complete
step s m = elim s.end [ some e ↦ none | none ↦ act m s ]

-- A run: its moves one after the other.
unfoldable pub run : State → List Move → Option State
run s [] = some s
run s (m ∷ ms) = elim (step s m) [ none ↦ none | some t ↦ run t ms ]
