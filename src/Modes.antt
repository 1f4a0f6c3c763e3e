-- ===== src/Modes.antt =====
-- cmd/gibson-runner/main.go, `main` and `runListTools`: the three modes of the binary.
pub mod Laws
use gibson_tool_runner.Base.{
  ℕ, Bytes, Bool, true, false, List, Option, none, some, Error, if◌then◌else◌,
}
use gibson_tool_runner.Process.{World}
use gibson_tool_runner.Registry.{Registry, CatalogEntry, catalog}
use gibson_tool_runner.Runner.{Codec, Exit, run_default}
use gibson_tool_runner.Observability.{Sdk, Globals}
use gibson_tool_runner.Serve.{Launch, run_serve}

-- The two flags, as `flag.Parse` leaves them.
pub record Flags : Type 0 where
  pub list_tools : Bool
  pub serve : Bool

-- The catalog on the standard output and the exit code.
pub record Listing : Type 0 where
  pub output : Bytes
  pub code : ℕ

exit_of : Option Error → ℕ
exit_of none = 0
exit_of (some e) = 1

-- `encode` is the JSON encoder: what it writes, and its error.
unfoldable pub run_list_tools :
    (List CatalogEntry → Bytes × Option Error) → List CatalogEntry → Listing
unfolding exit_of
run_list_tools encode entries =
    let (output, e) = encode entries in record { output = output; code = exit_of e }

-- What `main` comes to.
pub data Outcome (k : Sdk) : Type 0 where
  listed : Listing → Outcome k
  served : Launch → Globals k → Outcome k
  ran : Exit → Outcome k

unfoldable pub run_main :
    (k : Sdk)
    → Codec
    → (List CatalogEntry → Bytes × Option Error)
    → ((CatalogEntry → CatalogEntry → Bool) → List CatalogEntry → List CatalogEntry)
    → Registry
    → World
    → Globals k
    → Flags
    → Outcome k
run_main k c encode sort r w g flags =
    let (launch, g') = run_serve k w.getenv g in
    if flags.list_tools
    then listed (run_list_tools encode (catalog sort r))
    else if flags.serve
    then served launch g'
    else ran (run_default c r w)
