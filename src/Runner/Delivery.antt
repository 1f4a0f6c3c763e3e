-- ===== src/Runner/Delivery.antt =====
-- cmd/gibson-runner/main.go with the eight parsers: from the environment to the answer of a run that
-- exits with 0.
use gibson_tool_runner.Base.{
  Bytes, List, [], ◌∷◌, Option, none, some, Error, ◌≡◌, refl, sym, ap, ◌∙◌, subst, arith, map,
  index, ◌==◌, ==_iff, Bool-cases, inl, inr, trim_space,
}
use gibson_tool_runner.Graph.{DiscoveryResult}
use gibson_tool_runner.Process.{run_cmd, World}
use gibson_tool_runner.Policy.Allowed.{Allowed}
use gibson_tool_runner.Registry.{
  Parser, Registry, done, ExecuteRequest, ExecuteResponse, lookup, policy_or_nil, apply_policy,
}
use gibson_tool_runner.Sandbox.Buffer.Laws.{concat}
use gibson_tool_runner.Sandbox.Config.{default_config}
use gibson_tool_runner.Sandbox.Shell.Wrapper.{RunsLimited}
use gibson_tool_runner.Parsers.Lines.{record_of}
use gibson_tool_runner.Parsers.Tool.{sandboxed}
use gibson_tool_runner.Parsers.Tool.Drawn.{Graphed, without, drawn}
use gibson_tool_runner.Parsers.Tools.{
  Tool, amass, dnsx, httpx, masscan, naabu, nmap, nuclei, subfinder, Decoders, parser_of, policy_of,
  name_of, imported, start_up,
}
use gibson_tool_runner.Parsers.Tools.Startup.{IsReady, IsReady-done}
use gibson_tool_runner.Parsers.Tools.Words.{words_for, line_of}
use gibson_tool_runner.Parsers.Tools.Commands.{stdin_of, Ran, execute-Ran}
use gibson_tool_runner.Parsers.Tool.Discovery.{OnSome}
use gibson_tool_runner.Parsers.Links.{IsLinked}
use gibson_tool_runner.Parsers.Tools.Results.{execute-IsLinked}
use gibson_tool_runner.Parsers.Tools.Graphs.{graph_of, execute-Graphed}
use gibson_tool_runner.Runner.{
  Codec, deadline, output, output_line, Exit, env_tool_name, run_default,
}
use gibson_tool_runner.Runner.Abi.{
  Requested, Shown, Ends, unnamed, no_input, no_tool, reported, succeeded, not_encoded,
  run_default-Ends,
}

abbrev keyed : Parser → Bytes × Parser
keyed p = (p.describe.name, p)

-- A parser that the tables hold is that of a tool of the list, under the tool's name.
index-keyed :
    (d : Decoders) (ts : List Tool) (name : Bytes) (p : Parser)
    → index name (map keyed (map (parser_of d) ts)) ≡ some p
    → (t : Tool) × ((name ≡ (parser_of d t).describe.name) × (p ≡ parser_of d t))
unfolding index
index-keyed d [] name p h = absurd (ground arith)
index-keyed d (t ∷ ts) name p h = elim (Bool-cases ((parser_of d t).describe.name == name)) [
  | inl same ↦ (t, (sym ((==_iff (parser_of d t).describe.name name).0 same), ground arith))
  | inr differs ↦ index-keyed d ts name p (ground arith)
]

name-parser_of : (d : Decoders) (t : Tool) → (parser_of d t).describe.name ≡ name_of t
name-parser_of d amass = refl
name-parser_of d dnsx = refl
name-parser_of d httpx = refl
name-parser_of d masscan = refl
name-parser_of d naabu = refl
name-parser_of d nmap = refl
name-parser_of d nuclei = refl
name-parser_of d subfinder = refl

-- Behind the `init` functions only the eight tools are found.
lookup-IsReady :
    (d : Decoders) (r : Registry) (name : Bytes) (p : Parser)
    → IsReady d r
    → lookup r name ≡ some p
    → (t : Tool) × ((name ≡ name_of t) × (p ≡ parser_of d t))
unfolding lookup
lookup-IsReady d r name p ready found =
    let held : r.parsers ≡ map keyed (map (parser_of d) imported) =
      ready.consistent.in_step ∙ ap (map keyed) ready.lists in
    let (t, (named, same)) = index-keyed d imported name p (sym (ap (index name) held) ∙ found) in
    (t, (named ∙ name-parser_of d t, same))

Graphed-none :
    (graph : Bytes → Option DiscoveryResult) (out : ExecuteResponse × Option Error)
    → Graphed graph out
    → out.1 ≡ none
    → (disc : DiscoveryResult) × ((out.0.discovery ≡ some disc) × (graph out.0.stdout ≡ some disc))
Graphed-none graph out (without resp e h) k = absurd (ground arith)
Graphed-none graph out (drawn resp e disc h g) k = (disc, (h, g))

Shown-some :
    (o : Option DiscoveryResult) (shown disc : DiscoveryResult)
    → Shown o shown
    → o ≡ some disc
    → shown ≡ disc
Shown-some none shown disc h e = absurd (ground arith)
Shown-some (some x) shown disc h e = ground arith

module _ (d : Decoders) (c : Codec) (r : Registry) (w : World) where
  -- What stands behind the response `b` of a run that exits with 0.
  pub record Delivers (b : Bytes) : Type 0 where
    pub tool : Tool
    pub req : ExecuteRequest
    pub args : List Bytes
    pub disc : DiscoveryResult
    pub json : Bytes
    pub named : trim_space (w.getenv env_tool_name) ≡ name_of tool
    pub requested : Requested c r w req
    pub found : (path : Bytes) × (w.look_path (name_of tool) ≡ some path)
    pub passed : args ≡ (apply_policy r.policies (name_of tool) req.args).args
    pub conforms : Allowed (policy_of tool) args
    pub limited :
        RunsLimited w.look_path
          (default_config w.getenv).memory_bytes
          (words_for tool req args)
          (sandboxed w (name_of tool) (line_of tool req args))
    pub graphed :
        graph_of tool d req.target (
          concat
            (run_cmd w
              (deadline req.timeout)
              (sandboxed w (name_of tool) (line_of tool req args))
              (stdin_of tool req)).stdout_writes)
        ≡ some disc
    pub linked : IsLinked disc
    pub encoded : c.encode_discovery disc ≡ record_of json
    pub answered : c.encode_response (output json) ≡ record_of b

  tool-Delivers :
      (t : Tool) (req : ExecuteRequest) (resp : ExecuteResponse) (shown : DiscoveryResult)
      (json b : Bytes)
      → IsReady d r
      → trim_space (w.getenv env_tool_name) ≡ name_of t
      → Requested c r w req
      → (parser_of d t).execute r.policies w (deadline req.timeout) req ≡ (resp, none)
      → Shown resp.discovery shown
      → c.encode_discovery shown ≡ record_of json
      → c.encode_response (output json) ≡ record_of b
      → Delivers b
  unfolding policy_or_nil
  tool-Delivers t req resp shown json b ready named q ran same enc out =
      let behind : Ran d r.policies w (deadline req.timeout) req t resp =
        execute-Ran d r.policies w (deadline req.timeout) req t resp ran in
      let (disc, (found, graphed)) =
        Graphed-none _ (resp, none)
          (subst (Graphed (graph_of t d req.target)) ran
            (execute-Graphed d r.policies w (deadline req.timeout) req t))
          refl in
      record {
        tool = t;
        req = req;
        args = behind.filtered;
        disc = disc;
        json = json;
        named = named;
        requested = q;
        found = behind.found;
        passed = behind.passed;
        conforms =
            subst (λ p. Allowed (policy_or_nil p) behind.filtered) (ready.filters t)
              behind.conforms;
        limited = behind.limited;
        graphed = ap (graph_of t d req.target) (sym behind.complete.whole_output) ∙ graphed;
        linked = subst (OnSome IsLinked) found (
            subst (λ (out : ExecuteResponse × Option Error). OnSome IsLinked out.0.discovery) ran
              (execute-IsLinked d r.policies w (deadline req.timeout) req t));
        encoded =
            ap c.encode_discovery (sym (Shown-some resp.discovery shown disc same found)) ∙ enc;
        answered = out;
      }

  Ends-Delivers :
      (ex : Exit)
      → IsReady d r
      → Ends c r w ex
      → ex.code ≡ 0
      → (b : Bytes) × ((ex.emitted ≡ output_line b) × Delivers b)
  Ends-Delivers ex ready (unnamed blank e) h = absurd (ground arith)
  Ends-Delivers ex ready (no_tool missing e) h = absurd (ground arith)
  Ends-Delivers ex ready (no_input p found why e) h = absurd (ground arith)
  Ends-Delivers ex ready (reported p resp err b ans enc e) h = absurd (ground arith)
  Ends-Delivers ex ready (succeeded p resp disc json b ans shown enc out e) h =
      let (t, (named, same)) = lookup-IsReady d r _ p ready ans.named.1 in
      (
        b,
        (
          ap (λ x. x.emitted) e,
          tool-Delivers t ans.req resp disc json b ready named ans.requested
              (subst
                (λ (p : Parser).
                  p.execute r.policies w (deadline ans.req.timeout) ans.req ≡ (resp, none))
                same ans.answers)
              shown enc out,
        ),
      )
  Ends-Delivers ex ready (not_encoded p resp err ans why e) h = absurd (ground arith)

  -- From the environment to the answer: behind the `init` functions, a process in default mode that
  -- exits with 0 has printed an output line, and behind it stands one of the eight tools, the one that the
  -- environment names. It was found and ran in a shell that sets the memory limit, in its own process group, for the
  -- request that the environment holds, as the words written out for it: its fixed flags, the request's
  -- target and options, and the arguments that `ApplyPolicy` returned, which conform to the tool's own
  -- policy. The line encodes the graph of all that the tool wrote to its standard output, in which no node
  -- refers to one that is missing.
  pub run_default-Delivers :
      start_up d ≡ done r
      → (run_default c r w).code ≡ 0
      → (b : Bytes) × (((run_default c r w).emitted ≡ output_line b) × Delivers b)
  run_default-Delivers started h =
      Ends-Delivers _ (IsReady-done d r started) (run_default-Ends c r w) h
