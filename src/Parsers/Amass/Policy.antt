-- ===== src/Parsers/Amass/Policy.antt =====
-- parsers/amass/policy.go: the flags that a request may pass to amass.
use gibson_tool_runner.Base.{codes, [], ◌∷◌, none, some}
use gibson_tool_runner.Policy.{ArgsPolicy, allow_any}

unfoldable pub args_policy : ArgsPolicy
args_policy = some (
    (codes "-passive", none)
    ∷ (codes "-active", none)
    ∷ (codes "-brute", none)
    ∷ (codes "-w", some allow_any)
    ∷ (codes "-timeout", some allow_any)
    ∷ (codes "-max-depth", some allow_any)
    ∷ (codes "-min-for-recursive", some allow_any)
    ∷ (codes "-include", some allow_any)
    ∷ (codes "-exclude", some allow_any)
    ∷ (codes "-silent", none)
    ∷ (codes "-nolocaldb", none)
    ∷ [])
