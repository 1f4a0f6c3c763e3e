-- ===== src/Parsers/Nuclei/Policy.antt =====
-- parsers/nuclei/policy.go: the flags that a request may pass to nuclei.
use gibson_tool_runner.Base.{codes, [], ◌∷◌, none, some}
use gibson_tool_runner.Policy.{ArgsPolicy, allow_any}

unfoldable pub args_policy : ArgsPolicy
args_policy = some (
    (codes "-severity", some allow_any)
    ∷ (codes "-s", some allow_any)
    ∷ (codes "-tags", some allow_any)
    ∷ (codes "-itags", some allow_any)
    ∷ (codes "-etags", some allow_any)
    ∷ (codes "-type", some allow_any)
    ∷ (codes "-author", some allow_any)
    ∷ (codes "-rate-limit", some allow_any)
    ∷ (codes "-bulk-size", some allow_any)
    ∷ (codes "-concurrency", some allow_any)
    ∷ (codes "-c", some allow_any)
    ∷ (codes "-timeout", some allow_any)
    ∷ (codes "-retries", some allow_any)
    ∷ (codes "-stats", none)
    ∷ (codes "-silent", none)
    ∷ (codes "-no-color", none)
    ∷ (codes "-disable-update-check", none)
    ∷ (codes "-include-rr", none)
    ∷ [])
