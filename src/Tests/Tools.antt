-- ===== src/Tests/Tools.antt =====
-- A run of naabu under internal/sandbox, with a world that answers every command alike.
use gibson_tool_runner.Base.{
  Bytes, codes, [], ◌∷◌, none, some, ◌≡◌, refl, pos, ◌==◌, if◌then◌else◌, trim_space, index,
  is_empty, message,
}
use gibson_tool_runner.Graph.{nothing}
use gibson_tool_runner.Process.{World, Outcome}
use gibson_tool_runner.Registry.{Registry, ExecuteResponse, structured, assign}
use gibson_tool_runner.Sandbox.Config.{default_config}
use gibson_tool_runner.Parsers.Dedup.{host_id}
use gibson_tool_runner.Sandbox.Buffer.{err, write_all, write, init, bytes}
use gibson_tool_runner.Parsers.Lines.{Decoded, record_of, scan, conclude, loop, is_skipped}
use gibson_tool_runner.Parsers.Tool.{
  run_tool, settle_run, hard_failure, exit_code_or_zero, pass_parse_err, collect,
}
use gibson_tool_runner.Parsers.Naabu
use gibson_tool_runner.Parsers.Naabu.{NaabuRecord, parse_json_lines}
use gibson_tool_runner.Parsers.Naabu.Graph.{host_of, port_of}
use gibson_tool_runner.Runner.{Codec, env_tool_name, env_input_b64}

abbrev open_22 : NaabuRecord
open_22 = record { host = []; ip = codes "10.0.0.1"; port = pos 22 }

-- A decoder that reads every line as one open port.
abbrev pub decode : Bytes → Decoded NaabuRecord
decode line = record_of open_22

abbrev two_lines : Bytes
two_lines = codes "{}\nnoise\n{}\n"

-- Two lines with one address: one host and two ports.
graph_runs : (parse_json_lines decode two_lines).discovery ≡ record nothing {
  hosts = host_of open_22 ∷ [];
  ports = port_of open_22 ∷ port_of open_22 ∷ [];
}
unfolding parse_json_lines conclude loop scan is_skipped trim_space Naabu.step Naabu.add_port
    Naabu.see_host index assign host_of port_of Naabu.host_id_of host_id
graph_runs = refl

abbrev answer : Outcome
answer = record {
  stdout_writes = codes "{}\n" ∷ codes "{}\n" ∷ [];
  stderr_writes = [];
  exit_code = some (pos 0);
  run_err = none;
}

abbrev runner_env : Bytes → Bytes
runner_env name =
    if name == env_tool_name
    then codes "naabu"
    else if name == env_input_b64
    then codes "e30="
    else []

abbrev pub runner_world : World
runner_world = record {
  getenv = runner_env;
  look_path = λ name. some name;
  look_err = λ name. message (codes "%s: not found") (name ∷ []);
  run = λ ctx cmd stdin. answer;
}

abbrev pub complete : ExecuteResponse
complete = record {
  exit_code = pos 0;
  stdout = codes "{}\n{}\n";
  stderr = [];
  parse_quality = structured;
  discovery = some (record nothing {
    hosts = host_of open_22 ∷ [];
    ports = port_of open_22 ∷ port_of open_22 ∷ [];
  });
}

completes :
    settle_run
      (codes "naabu")
      none
      (run_tool runner_world none (codes "naabu") [] [])
      (parse_json_lines decode)
    ≡ (complete, none)
unfolding settle_run run_tool err write_all write init default_config is_empty ◌==◌ hard_failure
    exit_code_or_zero bytes parse_json_lines pass_parse_err conclude loop scan is_skipped trim_space
    Naabu.step Naabu.add_port Naabu.see_host Naabu.host_id_of index assign host_of port_of host_id
    collect gibson_tool_runner.Process.run_cmd gibson_tool_runner.Parsers.Tool.sandboxed
    gibson_tool_runner.Sandbox.Shell.apply gibson_tool_runner.Sandbox.Shell.shell_wrap_args
completes = refl

abbrev pub runner : Registry
runner = record {
  parsers = (codes "naabu", Naabu.parser decode) ∷ [];
  registry = Naabu.parser decode ∷ [];
  policies = [];
}

-- A codec that takes every text for one request, and writes a constant.
abbrev pub plain_codec : Codec
plain_codec = record {
  decode_request = λ b.
      record_of (record { input_json = codes "{\"target\":\"10.0.0.1\"}"; timeout_ms = pos 2000 });
  encode_discovery = λ d. record_of (codes "{}");
  encode_response = λ r. record_of (codes "{}");
  sprintf = λ format args. codes "tool not registered";
}
