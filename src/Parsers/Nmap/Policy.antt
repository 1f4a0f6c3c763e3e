-- ===== src/Parsers/Nmap/Policy.antt =====
-- parsers/nmap/policy.go: the flags that a request may pass to nmap.
use gibson_tool_runner.Base.{codes, [], ◌∷◌, none, some}
use gibson_tool_runner.Policy.{ArgsPolicy, allow_any}

unfoldable pub args_policy : ArgsPolicy
args_policy = some (
    (codes "-sS", none)
    ∷ (codes "-sT", none)
    ∷ (codes "-sU", none)
    ∷ (codes "-sn", none)
    ∷ (codes "-sV", none)
    ∷ (codes "-sC", none)
    ∷ (codes "-O", none)
    ∷ (codes "-A", none)
    ∷ (codes "-Pn", none)
    ∷ (codes "-n", none)
    ∷ (codes "-v", none)
    ∷ (codes "-vv", none)
    ∷ (codes "-T0", none)
    ∷ (codes "-T1", none)
    ∷ (codes "-T2", none)
    ∷ (codes "-T3", none)
    ∷ (codes "-T4", none)
    ∷ (codes "-T5", none)
    ∷ (codes "-p", some allow_any)
    ∷ (codes "--top-ports", some allow_any)
    ∷ (codes "--reason", none)
    ∷ (codes "--open", none)
    ∷ (codes "--max-retries", some allow_any)
    ∷ (codes "--host-timeout", some allow_any)
    ∷ (codes "--max-rate", some allow_any)
    ∷ (codes "--min-rate", some allow_any)
    ∷ [])
