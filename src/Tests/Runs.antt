-- ===== src/Tests/Runs.antt =====
-- cmd/gibson-runner/main.go, internal/bridgerunner and internal/readiness at concrete inputs.
use gibson_tool_runner.Base.{
  ℕ, ◌≤◌, ◌<◌, Bytes, codes, List, [], ◌∷◌, Option, none, some, Error, message, ◌≡◌, ◌↔◌, ◌⊎◌, refl,
  arith, ltb, ◌/◌, ℤ, pos, ◌==◌, ◌++◌, if◌then◌else◌, All, map,
}
use gibson_tool_runner.Runner.{empty_request, with_timeout, deadline, run_default}
use gibson_tool_runner.Runner.Abi.{Ends, run_default-Ends}
use gibson_tool_runner.Runner.Deadline.{deadline-with_timeout}
use gibson_tool_runner.Bridge.{
  Result, ok, fail, Host, env_manifest_b64, env_manifest_path, manifest_path,
}
use gibson_tool_runner.Bridge.Runner.{Ran, returned, run_bridge, BridgeEnds, run_bridge-Ends}
use gibson_tool_runner.Readiness.{Probe, Aggregator}
use gibson_tool_runner.Tests.Tools.{runner, runner_world, plain_codec}

-- The parser naabu runs on the request and its answer is printed.
run_default-Ends_example :
    Ends plain_codec runner runner_world (run_default plain_codec runner runner_world)
run_default-Ends_example = run_default-Ends plain_codec runner runner_world

deadline-with_timeout_example :
    deadline (with_timeout (pos 2500) empty_request).timeout
    ≡ (if ltb 2500 1000 then none else some (2500 / 1000))
deadline-with_timeout_example = deadline-with_timeout 2500 empty_request (omega arith) (omega arith)

-- A host with no files, whose base64 is the identity; a file is its contents.
abbrev pub plain_host : Host
plain_host = record {
  Files = List (Bytes × Bytes);
  stat = λ files path. some (message (codes "no such file") []);
  join = λ dir name. dir ++ (b'/' ∷ name);
  write_file = λ files path content. (none, (path, content) ∷ files);
}

abbrev inline_only : Bytes → Bytes
inline_only name = if name == env_manifest_b64 then codes "bmFtZTog\neA==" else []

-- A bridge that ends with an error unless its manifest is one file.
abbrev one_file_bridge : Bytes → List (Bytes × Bytes) → Ran
one_file_bridge path (file ∷ []) = returned none
one_file_bridge path files = returned (some (message (codes "no manifest") []))

bridge_runs : run_bridge plain_host one_file_bridge (codes "/tmp") inline_only [] ≡ 0
unfolding manifest_path gibson_tool_runner.Bridge.resolve gibson_tool_runner.Base.is_empty ◌==◌
    gibson_tool_runner.Bridge.hosted_path run_bridge gibson_tool_runner.Bridge.decode_base64
    gibson_tool_runner.Base64.decode gibson_tool_runner.Base64.groups
    gibson_tool_runner.Base64.without_breaks gibson_tool_runner.Base64.value
bridge_runs = refl

run_bridge-Ends_example :
    BridgeEnds plain_host one_file_bridge
      (codes "/tmp")
      inline_only
      []
      (run_bridge plain_host one_file_bridge (codes "/tmp") inline_only [])
run_bridge-Ends_example = run_bridge-Ends plain_host one_file_bridge (codes "/tmp") inline_only []

abbrev up : Probe Unit
up = record { name = codes "up"; check = λ ctx. none }

abbrev down : Probe Unit
down = record { name = codes "down"; check = λ ctx. some (message (codes "gone") []) }

abbrev two_probes : Aggregator Unit
two_probes = record { probes = up ∷ down ∷ [] }
