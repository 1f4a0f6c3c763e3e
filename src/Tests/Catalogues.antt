-- ===== src/Tests/Catalogues.antt =====
-- The eight tools with decoders that read nothing, but for naabu.
use gibson_tool_runner.Base.{
  wrapping, Bytes, codes, List, [], ◌∷◌, Option, none, some, Error, message, ◌≡◌, ◌↔◌, refl, true,
  false, All, mem, pos,
}
use gibson_tool_runner.Registry.{
  Registry, Registered, done, Policies, ExecuteRequest, ExecuteResponse, apply_policy,
  lookup_args_policy, policy_or_nil,
}
use gibson_tool_runner.Parsers.Lines.{malformed}
use gibson_tool_runner.Graph.{nothing}
use gibson_tool_runner.Parsers.Amass
use gibson_tool_runner.Parsers.Amass.Graph as AmassGraph
use gibson_tool_runner.Parsers.Links.{IsLinked}
use gibson_tool_runner.Parsers.Tool.Discovery.{OnSome}
use gibson_tool_runner.Parsers.Tools.{naabu, Decoders, parser_of, policy_of, start_up}
use gibson_tool_runner.Parsers.Tools.Startup.{IsReady, start_up-IsReady}
use gibson_tool_runner.Parsers.Tools.Denied.{apply_policy-denied}
use gibson_tool_runner.Parsers.Tools.Results.{execute-IsLinked}
use gibson_tool_runner.Parsers.Tools.Commands.{parse_of}
use gibson_tool_runner.Parsers.Tool.Drawn.{Graphed}
use gibson_tool_runner.Parsers.Tools.Graphs.{graph_of, execute-Graphed}
use gibson_tool_runner.Parsers.Tools.Successes.{
  HasTarget, IsGood, filtered, outcome, execute_none_iff,
}
use gibson_tool_runner.Parsers.Tools.Rejected.{execute_rejected}
use gibson_tool_runner.Tests.Tools.{decode, runner_world}
use gibson_tool_runner.Registry.{apply_policy_of}
use gibson_tool_runner.Policy.{apply_args, apply_loop}
use gibson_tool_runner.Sandbox.Config.{default_config}
use gibson_tool_runner.Parsers.Naabu.{execute}
use gibson_tool_runner.Base.{is_empty, index}

abbrev no_json : Error
no_json = message (codes "no JSON") []

abbrev pub decoders : Decoders
decoders = record {
  to_lower = λ s. s;
  of_amass = λ line. malformed no_json;
  of_dnsx = λ line. malformed no_json;
  of_httpx = λ line. malformed no_json;
  of_masscan = λ line. malformed no_json;
  of_naabu = decode;
  of_nmap = λ xml. malformed no_json;
  of_nuclei = λ line. malformed no_json;
  of_subfinder = λ line. malformed no_json;
}

start_up-IsReady_example : (r : Registry) × (start_up decoders ≡ done r) × IsReady decoders r
start_up-IsReady_example = start_up-IsReady decoders

abbrev policies : Policies
policies = (codes "naabu", policy_of naabu) ∷ []

naabu_policy : lookup_args_policy policies (codes "naabu") ≡ some (policy_of naabu)
unfolding lookup_args_policy gibson_tool_runner.Base.index
naabu_policy = refl

abbrev writing : List Bytes
writing = codes "-p" ∷ codes "22" ∷ codes "-o" ∷ codes "/etc/passwd" ∷ []

apply_policy-denied_example :
    All
      (λ flag. mem flag (apply_policy policies (codes "naabu") writing).args ≡ false)
      (codes "-o" ∷ codes "-output" ∷ codes "-csv" ∷ codes "-json" ∷ [])
apply_policy-denied_example = apply_policy-denied policies naabu writing naabu_policy

abbrev request : ExecuteRequest
request = record { target = codes "10.0.0.1"; args = writing; options = []; timeout = pos 0 }

execute-IsLinked_example :
    OnSome IsLinked
      ((parser_of decoders naabu).execute policies runner_world none request).0.discovery
execute-IsLinked_example = execute-IsLinked decoders policies runner_world none request naabu

abbrev plain : ExecuteRequest
plain = record { target = codes "10.0.0.1"; args = []; options = []; timeout = pos 0 }

execute_none_iff_example :
    ((parser_of decoders naabu).execute policies runner_world none plain).1 ≡ none ↔ (
      HasTarget naabu plain
      × ((filtered decoders policies runner_world none plain naabu).error ≡ none)
      × IsGood
          (outcome decoders policies runner_world none plain naabu)
          (default_config runner_world.getenv)
          (parse_of naabu decoders plain))
unfolding gibson_tool_runner.Process.run_cmd gibson_tool_runner.Parsers.Tool.sandboxed
    gibson_tool_runner.Sandbox.Shell.apply gibson_tool_runner.Sandbox.Shell.shell_wrap_args
execute_none_iff_example =
    execute_none_iff decoders policies runner_world none plain naabu (λ e. cc, (λ e. cc, tt))

execute-Graphed_example :
    Graphed
      (graph_of naabu decoders plain.target)
      ((parser_of decoders naabu).execute policies runner_world none plain)
execute-Graphed_example = execute-Graphed decoders policies runner_world none plain naabu

-- Three records with a name that comes twice, an address that comes twice, and two empty texts.
abbrev found : List Amass.AmassRecord
found =
    record { name = codes "a.x"; domain = codes "x"; addresses = codes "1" ∷ [] ∷ [] }
    ∷ record { name = []; domain = codes "x"; addresses = codes "2" ∷ codes "1" ∷ [] }
    ∷ record { name = codes "a.x"; domain = codes "x"; addresses = [] }
    ∷ []

amass_graph_runs : AmassGraph.graph (codes "x") found ≡ record nothing {
  hosts = Amass.host_node (codes "a.x") (codes "1") ∷ Amass.host_node [] (codes "2") ∷ [];
  domains = record { id = some (codes "domain:x"); name = codes "x" } ∷ [];
  subdomains = Amass.sub_node (codes "domain:x") (codes "a.x") ∷ [];
}
unfolding gibson_tool_runner.Parsers.Gather.filter gibson_tool_runner.Parsers.Dedup.firsts
    mathlib.Core.List.flat_map Amass.domain_id_of gibson_tool_runner.Parsers.Dedup.see mem is_empty
amass_graph_runs = refl

abbrev bare : ExecuteRequest
bare = record { target = codes "10.0.0.1"; args = codes "-p" ∷ []; options = []; timeout = pos 0 }

abbrev needs_value : Error
needs_value = message (codes "flag %q requires a value but none was provided") (codes "-p" ∷ [])

bare_rejects : (apply_policy policies (codes "naabu") (codes "-p" ∷ [])).error ≡ some needs_value
unfolding apply_policy lookup_args_policy gibson_tool_runner.Registry.apply_policy_of
    gibson_tool_runner.Registry.filtered gibson_tool_runner.Policy.apply_args
    gibson_tool_runner.Policy.apply_loop gibson_tool_runner.Policy.round
    gibson_tool_runner.Policy.is_flag gibson_tool_runner.Policy.lookup policy_or_nil
    gibson_tool_runner.Parsers.Naabu.Policy.args_policy
bare_rejects = refl

execute_rejected_example : (parser_of decoders naabu).execute policies runner_world none bare ≡ (
  record {
    exit_code = pos 0;
    stdout = [];
    stderr = [];
    parse_quality = gibson_tool_runner.Registry.failed;
    discovery = none;
  },
  some (wrapping (codes "naabu args policy: %w") [] needs_value),
)
execute_rejected_example =
    execute_rejected decoders policies runner_world none bare naabu needs_value bare_rejects
