-- ===== src/Parsers/Dnsx/Policy.antt =====
-- parsers/dnsx/policy.go: the flags that a request may pass to dnsx.
use gibson_tool_runner.Base.{codes, [], ◌∷◌, none, some}
use gibson_tool_runner.Policy.{ArgsPolicy, allow_any}

unfoldable pub args_policy : ArgsPolicy
args_policy = some (
    (codes "-a", none)
    ∷ (codes "-aaaa", none)
    ∷ (codes "-cname", none)
    ∷ (codes "-ns", none)
    ∷ (codes "-txt", none)
    ∷ (codes "-mx", none)
    ∷ (codes "-soa", none)
    ∷ (codes "-ptr", none)
    ∷ (codes "-srv", none)
    ∷ (codes "-caa", none)
    ∷ (codes "-axfr", none)
    ∷ (codes "-rate-limit", some allow_any)
    ∷ (codes "-rl", some allow_any)
    ∷ (codes "-c", some allow_any)
    ∷ (codes "-t", some allow_any)
    ∷ (codes "-retry", some allow_any)
    ∷ (codes "-silent", none)
    ∷ (codes "-stats", none)
    ∷ (codes "-resp", none)
    ∷ (codes "-resp-only", none)
    ∷ [])
