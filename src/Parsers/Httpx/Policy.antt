-- ===== src/Parsers/Httpx/Policy.antt =====
-- parsers/httpx/policy.go: the flags that a request may pass to httpx.
use gibson_tool_runner.Base.{
  Bytes, codes, Bool, false, ◌||◌, [], ◌∷◌, none, some, message, eqb, if◌then◌else◌,
}
use gibson_tool_runner.Policy.{Validator, ArgsPolicy, allow_any, allow_enum}

-- `strings.ContainsAny(value, "\r\n")`
has_newline : Bytes → Bool
has_newline [] = false
has_newline (c ∷ cs) = (eqb c b'\r' || eqb c b'\n') || has_newline cs

unfoldable pub no_newlines : Validator
unfolding has_newline
no_newlines value =
    if has_newline value then some (message (codes "value must not contain newlines") []) else none

unfoldable pub args_policy : ArgsPolicy
args_policy = some (
    (
      codes "-method",
      some (
          allow_enum (
            codes "GET"
            ∷ codes "POST"
            ∷ codes "HEAD"
            ∷ codes "OPTIONS"
            ∷ codes "PUT"
            ∷ codes "DELETE"
            ∷ [])),
    )
    ∷ (
      codes "-X",
      some (
          allow_enum (
            codes "GET"
            ∷ codes "POST"
            ∷ codes "HEAD"
            ∷ codes "OPTIONS"
            ∷ codes "PUT"
            ∷ codes "DELETE"
            ∷ [])),
    )
    ∷ (codes "-path", some no_newlines)
    ∷ (codes "-paths", some no_newlines)
    ∷ (codes "-ports", some allow_any)
    ∷ (codes "-p", some allow_any)
    ∷ (codes "-body", some no_newlines)
    ∷ (codes "-H", some no_newlines)
    ∷ (codes "-status-code", some allow_any)
    ∷ (codes "-sc", none)
    ∷ (codes "-content-length", none)
    ∷ (codes "-cl", none)
    ∷ (codes "-content-type", none)
    ∷ (codes "-ct", none)
    ∷ (codes "-title", none)
    ∷ (codes "-tech-detect", none)
    ∷ (codes "-td", none)
    ∷ (codes "-web-server", none)
    ∷ (codes "-server", none)
    ∷ (codes "-mc", some allow_any)
    ∷ (codes "-fc", some allow_any)
    ∷ (codes "-ms", some allow_any)
    ∷ (codes "-fs", some allow_any)
    ∷ (codes "-threads", some allow_any)
    ∷ (codes "-t", some allow_any)
    ∷ (codes "-rate-limit", some allow_any)
    ∷ (codes "-rl", some allow_any)
    ∷ (codes "-timeout", some allow_any)
    ∷ (codes "-retries", some allow_any)
    ∷ (codes "-silent", none)
    ∷ (codes "-no-color", none)
    ∷ (codes "-stats", none)
    ∷ (codes "-follow-redirects", none)
    ∷ (codes "-fr", none)
    ∷ [])
