-- ===== src/Parsers/Tools/Rejected.antt =====
-- parsers/*/*.go, `Execute` of all eight tools: the answer when the policy rejects a value.
use gibson_tool_runner.Base.{
  Bytes, codes, List, [], ◌∷◌, ◌++◌, Option, none, some, Error, message, wrapping, ◌≡◌, refl, arith,
  is_empty, pos, if◌then◌else◌,
}
use gibson_tool_runner.Process.{World, Context}
use gibson_tool_runner.Registry.{
  Policies, ExecuteRequest, ExecuteResponse, Filtered, apply_policy, failed,
}
use gibson_tool_runner.Parsers.Tool.{run_filtered, require_target}
use gibson_tool_runner.Parsers.Amass
use gibson_tool_runner.Parsers.Dnsx
use gibson_tool_runner.Parsers.Httpx
use gibson_tool_runner.Parsers.Masscan
use gibson_tool_runner.Parsers.Naabu
use gibson_tool_runner.Parsers.Nmap
use gibson_tool_runner.Parsers.Nuclei
use gibson_tool_runner.Parsers.Subfinder
use gibson_tool_runner.Parsers.Tools.{
  Tool, amass, dnsx, httpx, masscan, naabu, nmap, nuclei, subfinder, Decoders, parser_of, name_of,
}

-- A failed response with nothing else in it.
abbrev blank_failure : ExecuteResponse
blank_failure = record {
  exit_code = pos 0;
  stdout = [];
  stderr = [];
  parse_quality = failed;
  discovery = none;
}

abbrev refuses : Error → ExecuteResponse × Option Error
refuses err = (blank_failure, some err)

-- The error for a request with this target: the one of `ApplyPolicy`, wrapped, behind the check of the
-- target.
abbrev behind_target : Bytes → Bytes → Error → Error
behind_target tool [] err = message (tool ++ codes ": target is required") []
behind_target tool (c ∷ cs) err = wrapping (tool ++ codes " args policy: %w") [] err

-- The answer of a tool to a request whose arguments are rejected. Nmap does not check the target.
abbrev pub refusal : Tool → ExecuteRequest → Error → ExecuteResponse × Option Error
refusal nmap req err = refuses (wrapping (codes "nmap args policy: %w") [] err)
refusal t req err = refuses (behind_target (name_of t) req.target err)

shared_refusal :
    (tool : Bytes) (req : ExecuteRequest) (f : Filtered) (err : Error)
    (run : List Bytes → ExecuteResponse × Option Error)
    → f.error ≡ some err
    → require_target tool req (run_filtered tool f run)
      ≡ refuses (behind_target tool req.target err)
unfolding require_target run_filtered is_empty
shared_refusal tool req f err run e = rw e (by_target req.target)
  where
    by_target :
        (target : Bytes)
        → (if is_empty target
            then refuses (message (tool ++ codes ": target is required") [])
            else refuses (wrapping (tool ++ codes " args policy: %w") [] err))
          ≡ refuses (behind_target tool target err)
    by_target [] = refl
    by_target (c ∷ cs) = refl

nmap_refusal :
    (d : Decoders) (policies : Policies) (w : World) (ctx : Context) (req : ExecuteRequest)
    (err : Error)
    → (apply_policy policies Nmap.tool_name req.args).error ≡ some err
    → Nmap.execute d.of_nmap policies w ctx req ≡ refusal nmap req err
unfolding Nmap.execute Nmap.build_args
nmap_refusal d policies w ctx req err e = ground arith

-- If `ApplyPolicy` rejects a value of the request, the `Execute` of every tool answers with a failed
-- response that holds no output, no exit code and no discovery, and with the error of `ApplyPolicy`,
-- wrapped, or for all tools but nmap with that of a missing target if the target is empty. The answer is
-- the same whatever the environment, the deadline and the child process are.
pub execute_rejected :
    (d : Decoders) (policies : Policies) (w : World) (ctx : Context) (req : ExecuteRequest)
    (t : Tool) (err : Error)
    → (apply_policy policies (name_of t) req.args).error ≡ some err
    → (parser_of d t).execute policies w ctx req ≡ refusal t req err
unfolding Amass.execute Dnsx.execute Httpx.execute Masscan.execute Naabu.execute Nuclei.execute
    Subfinder.execute
execute_rejected d policies w ctx req amass err e = shared_refusal _ req _ err _ e
execute_rejected d policies w ctx req dnsx err e = shared_refusal _ req _ err _ e
execute_rejected d policies w ctx req httpx err e = shared_refusal _ req _ err _ e
execute_rejected d policies w ctx req masscan err e = shared_refusal _ req _ err _ e
execute_rejected d policies w ctx req naabu err e = shared_refusal _ req _ err _ e
execute_rejected d policies w ctx req nuclei err e = shared_refusal _ req _ err _ e
execute_rejected d policies w ctx req subfinder err e = shared_refusal _ req _ err _ e
execute_rejected d policies w ctx req nmap err e = nmap_refusal d policies w ctx req err e
