-- ===== src/Parsers/Tool/Drawn.antt =====
-- The shared part of `Execute` in parsers/*/*.go: an answer whose discovery is the graph of its output.
use gibson_tool_runner.Base.{
  Bytes, List, Option, none, some, Error, ◌≡◌, refl, is_empty, Bool-cases, Option-cases, inl, inr,
}
use gibson_tool_runner.Graph.{DiscoveryResult}
use gibson_tool_runner.Registry.{Policies, ExecuteRequest, ExecuteResponse, Filtered, apply_policy}
use gibson_tool_runner.Parsers.Lines.{Parsed}
use gibson_tool_runner.Parsers.Tool.{Run, settle_run, after_parse, run_filtered, require_target}

-- The answers of `Execute`: an error with no discovery, or the graph of the output in the response, with
-- an error or without one.
pub data Graphed (graph : Bytes → Option DiscoveryResult)
    : ExecuteResponse × Option Error → Type 0 where
  without :
      (resp : ExecuteResponse) (e : Error) → resp.discovery ≡ none → Graphed graph (resp, some e)
  drawn :
      (resp : ExecuteResponse) (e : Option Error) (disc : DiscoveryResult)
      → resp.discovery ≡ some disc
      → graph resp.stdout ≡ some disc
      → Graphed graph (resp, e)

module _ (graph : Bytes → Option DiscoveryResult) where
  after_parse-Graphed :
      (tool : Bytes) (format : Option Bytes) (resp : ExecuteResponse) (e : Option Error)
      (p : Parsed)
      → graph resp.stdout ≡ some p.discovery
      → Graphed graph (after_parse tool format resp e p)
  unfolding after_parse
  after_parse-Graphed tool format resp none p h = drawn _ _ p.discovery refl h
  after_parse-Graphed tool format resp (some e) p h = drawn _ _ p.discovery refl h

  settle_run-Graphed :
      (tool : Bytes) (format : Option Bytes) (r : Run) (parse : Bytes → Parsed)
      → r.response.discovery ≡ none
      → ((text : Bytes) → graph text ≡ some (parse text).discovery)
      → Graphed graph (settle_run tool format r parse)
  unfolding settle_run
  settle_run-Graphed tool format r parse unset h = elim (Option-cases r.overflow) [
    | inl e ↦ rw e (after_parse-Graphed tool format r.response _ (parse r.response.stdout) (h _))
    | inr (err, e) ↦ rw e (without _ _ unset)
  ]

  require_target-Graphed :
      (tool : Bytes) (req : ExecuteRequest) (rest : ExecuteResponse × Option Error)
      → Graphed graph rest
      → Graphed graph (require_target tool req rest)
  unfolding require_target
  require_target-Graphed tool req rest h = elim (Bool-cases (is_empty req.target)) [
    | inl e ↦ rw e (without _ _ refl)
    | inr e ↦ rw e h
  ]

  run_filtered-Graphed :
      (tool : Bytes) (f : Filtered) (continue : List Bytes → ExecuteResponse × Option Error)
      → ((args : List Bytes) → Graphed graph (continue args))
      → Graphed graph (run_filtered tool f continue)
  unfolding run_filtered
  run_filtered-Graphed tool f continue h = elim (Option-cases f.error) [
    | inl e ↦ rw e (h f.args)
    | inr (err, e) ↦ rw e (without _ _ refl)
  ]

  pub shared-Graphed :
      (policies : Policies) (tool : Bytes) (req : ExecuteRequest) (format : Option Bytes)
      (run : List Bytes → Run) (parse : Bytes → Parsed)
      → ((args : List Bytes) → (run args).response.discovery ≡ none)
      → ((text : Bytes) → graph text ≡ some (parse text).discovery)
      → Graphed graph (
          require_target tool req (
            run_filtered tool
              (apply_policy policies tool req.args)
              λ args. settle_run tool format (run args) parse))
  shared-Graphed policies tool req format run parse unset h = require_target-Graphed tool req _ (
      run_filtered-Graphed tool _ _
        λ args. settle_run-Graphed tool format (run args) parse (unset args) h)
