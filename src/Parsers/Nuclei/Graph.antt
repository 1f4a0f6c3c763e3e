-- ===== src/Parsers/Nuclei/Graph.antt =====
-- parsers/nuclei/nuclei.go: the nodes that `parseJSONLines` builds.
use gibson_tool_runner.Base.{
  Bytes, not, List, [], ◌∷◌, ◌≡◌, ◌∙◌, map, foldl, trim_space, is_empty, Bool-cases, inl, inr,
  if◌then◌else◌,
}
use gibson_tool_runner.Graph.{DiscoveryResult, nothing}
use gibson_tool_runner.Registry.{structured}
use gibson_tool_runner.Parsers.Gather.{append_laws, merge, filter}
use gibson_tool_runner.Parsers.Lines.{Decoded, scan}
use gibson_tool_runner.Parsers.Lines.Laws.{records, loop_state-foldl, conclude-discovery}
use gibson_tool_runner.Parsers.Nuclei.{
  NucleiEvent, finding_node, to_finding, add_finding, step, parse_json_lines,
}

-- An event has a title if its name or else its template's is not empty.
abbrev pub title_of : NucleiEvent → Bytes
title_of ev = if is_empty ev.info.name then ev.template_id else ev.info.name

module _ (to_lower : Bytes → Bytes) where
  -- One finding for each event with a title.
  abbrev pub graph : List NucleiEvent → DiscoveryResult
  graph evs = record nothing {
    findings =
        map (λ ev. finding_node to_lower (title_of ev) ev)
          (filter (λ ev. not (is_empty (title_of ev))) evs);
  }

  foldl-step :
      (evs : List NucleiEvent) (d : DiscoveryResult)
      → foldl (step to_lower) d evs ≡ merge d (graph evs)
  unfolding step add_finding to_finding merge filter
  foldl-step [] d = simp append_laws
  foldl-step (ev ∷ evs) d = elim (Bool-cases (is_empty (title_of ev))) [
    | inl e ↦ rw e (foldl-step evs d)
    | inr e ↦ rw e (foldl-step evs _ ∙ simp append_laws)
  ]

  pub parse_json_lines-graph :
      (decode : Bytes → Decoded NucleiEvent) (text : Bytes)
      → (parse_json_lines to_lower decode text).discovery
        ≡ graph (records trim_space decode (scan text).tokens)
  unfolding parse_json_lines merge
  parse_json_lines-graph decode text =
      conclude-discovery _ structured _ _
      ∙ loop_state-foldl trim_space decode (step to_lower) (scan text).tokens nothing 0
      ∙ foldl-step _ nothing
