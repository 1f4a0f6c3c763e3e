-- ===== src/Parsers/Tool/Discovery.antt =====
-- The shared part of `Execute` in parsers/*/*.go: where the discovery of a response comes
-- from.
use gibson_tool_runner.Base.{
  Bytes, List, Option, none, some, Error, ◌≡◌, refl, is_empty, Bool-cases, Option-cases, inl, inr,
}
use gibson_tool_runner.Graph.{DiscoveryResult}
use gibson_tool_runner.Process.{World, Context}
use gibson_tool_runner.Registry.{ExecuteRequest, ExecuteResponse, Filtered, ParseQuality}
use gibson_tool_runner.Parsers.Lines.{Decoded, loop, Parsed, conclude}
use gibson_tool_runner.Parsers.Lines.Laws.{records, loop_state-foldl, conclude-discovery, foldl-inv}
use gibson_tool_runner.Parsers.Tool.{
  Run, run_tool, settle_run, after_parse, run_filtered, require_target,
}

module _ (P : DiscoveryResult → Type 0) where
  abbrev pub OnSome : Option DiscoveryResult → Type 0
  OnSome none = Unit
  OnSome (some d) = P d

  after_parse-discovery :
      (tool : Bytes) (format : Option Bytes) (resp : ExecuteResponse) (e : Option Error)
      (p : Parsed)
      → P p.discovery
      → OnSome (after_parse tool format resp e p).0.discovery
  unfolding after_parse
  after_parse-discovery tool format resp none p h = h
  after_parse-discovery tool format resp (some e) p h = h

  pub settle_run-discovery :
      (tool : Bytes) (format : Option Bytes) (r : Run) (parse : Bytes → Parsed)
      → r.response.discovery ≡ none
      → ((text : Bytes) → P (parse text).discovery)
      → OnSome (settle_run tool format r parse).0.discovery
  unfolding settle_run
  settle_run-discovery tool format r parse unset h = elim (Option-cases r.overflow) [
    | inl e ↦ rw e (after_parse-discovery tool format r.response _ (parse r.response.stdout) (h _))
    | inr (err, e) ↦ rw (e, unset) tt
  ]

  pub require_target-discovery :
      (tool : Bytes) (req : ExecuteRequest) (rest : ExecuteResponse × Option Error)
      → OnSome rest.0.discovery
      → OnSome (require_target tool req rest).0.discovery
  unfolding require_target
  require_target-discovery tool req rest h = elim (Bool-cases (is_empty req.target)) [
    | inl e ↦ rw e tt
    | inr e ↦ rw e h
  ]

  pub run_filtered-discovery :
      (tool : Bytes) (f : Filtered) (continue : List Bytes → ExecuteResponse × Option Error)
      → ((args : List Bytes) → OnSome (continue args).0.discovery)
      → OnSome (run_filtered tool f continue).0.discovery
  unfolding run_filtered
  run_filtered-discovery tool f continue h = elim (Option-cases f.error) [
    | inl e ↦ rw e (h f.args)
    | inr (err, e) ↦ rw e tt
  ]

  -- An invariant of the steps holds of the discovery, wherever the loop stops.
  pub conclude-inv :
      {S R : Type 0} (discovery : S → DiscoveryResult) (Inv : S → Type 0) (clean : Bytes → Bytes)
      (decode : Bytes → Decoded R) (step : S → R → S) (q : ParseQuality) (e : Option Error)
      (tokens : List Bytes) (s : S)
      → ((s : S) → Inv s → P (discovery s))
      → ((s : S) (r : R) → Inv s → Inv (step s r))
      → Inv s
      → P (conclude discovery q e (loop clean decode step tokens s 0)).discovery
  conclude-inv discovery Inv clean decode step q e tokens s out keep h =
      rw
        (
          conclude-discovery discovery q e (loop clean decode step tokens s 0),
          loop_state-foldl clean decode step tokens s 0,
        )
        (out _ (foldl-inv Inv step keep (records clean decode tokens) s h))

pub run_tool-discovery :
    (w : World) (ctx : Context) (tool : Bytes) (args : List Bytes) (stdin : Bytes)
    → (run_tool w ctx tool args stdin).response.discovery ≡ none
unfolding run_tool
run_tool-discovery w ctx tool args stdin = refl
