-- ===== src/Parsers/Subfinder/Policy.antt =====
-- parsers/subfinder/policy.go: the flags that a request may pass to subfinder.
use gibson_tool_runner.Base.{codes, [], ◌∷◌, none, some}
use gibson_tool_runner.Policy.{ArgsPolicy, allow_any}

unfoldable pub args_policy : ArgsPolicy
args_policy = some (
    (codes "-sources", some allow_any)
    ∷ (codes "-s", some allow_any)
    ∷ (codes "-exclude-sources", some allow_any)
    ∷ (codes "-es", some allow_any)
    ∷ (codes "-all", none)
    ∷ (codes "-recursive", none)
    ∷ (codes "-active", none)
    ∷ (codes "-timeout", some allow_any)
    ∷ (codes "-rate-limit", some allow_any)
    ∷ (codes "-rl", some allow_any)
    ∷ (codes "-t", some allow_any)
    ∷ (codes "-silent", none)
    ∷ (codes "-stats", none)
    ∷ (codes "-no-color", none)
    ∷ [])
