-- ===== src/Parsers/Masscan/Policy.antt =====
-- parsers/masscan/policy.go: the flags that a request may pass to masscan.
use gibson_tool_runner.Base.{codes, [], ◌∷◌, none, some}
use gibson_tool_runner.Policy.{ArgsPolicy, allow_any}

unfoldable pub args_policy : ArgsPolicy
args_policy = some (
    (codes "-p", some allow_any)
    ∷ (codes "--ports", some allow_any)
    ∷ (codes "--rate", some allow_any)
    ∷ (codes "--top-ports", some allow_any)
    ∷ (codes "--exclude", some allow_any)
    ∷ (codes "--banners", none)
    ∷ (codes "--ping", none)
    ∷ (codes "-v", none)
    ∷ (codes "-vv", none)
    ∷ (codes "--retries", some allow_any)
    ∷ [])
