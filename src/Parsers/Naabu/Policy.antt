-- ===== src/Parsers/Naabu/Policy.antt =====
-- parsers/naabu/policy.go: the flags that a request may pass to naabu.
use gibson_tool_runner.Base.{codes, [], ◌∷◌, none, some}
use gibson_tool_runner.Policy.{ArgsPolicy, allow_any, allow_enum}

unfoldable pub args_policy : ArgsPolicy
args_policy = some (
    (codes "-p", some allow_any)
    ∷ (codes "-top-ports", some allow_any)
    ∷ (codes "-exclude-ports", some allow_any)
    ∷ (
      codes "-scan-type",
      some (allow_enum (codes "s" ∷ codes "c" ∷ codes "syn" ∷ codes "connect" ∷ [])),
    )
    ∷ (codes "-s", some (allow_enum (codes "s" ∷ codes "c" ∷ codes "syn" ∷ codes "connect" ∷ [])))
    ∷ (codes "-Pn", none)
    ∷ (codes "-sn", none)
    ∷ (codes "-rate", some allow_any)
    ∷ (codes "-c", some allow_any)
    ∷ (codes "-timeout", some allow_any)
    ∷ (codes "-retries", some allow_any)
    ∷ (codes "-stats", none)
    ∷ (codes "-silent", none)
    ∷ (codes "-verify", none)
    ∷ [])
