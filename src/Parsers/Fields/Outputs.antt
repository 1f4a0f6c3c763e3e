-- ===== src/Parsers/Fields/Outputs.antt =====
-- parsers/*/*.go: the tools that print JSON lines, from their output to the graph.
use gibson_tool_runner.Base.{ℕ, Bytes, List, Option, none, ◌≡◌, ap, ◌∙◌}
use gibson_tool_runner.Graph.{DiscoveryResult, nothing}
use gibson_tool_runner.Registry.{ExecuteRequest, ParseQuality, structured, raw}
use gibson_tool_runner.Json.{Members}
use gibson_tool_runner.Json.Fields.{unmarshal}
use gibson_tool_runner.Parsers.Lines.{Decoded}
use gibson_tool_runner.Parsers.Lines.Laws.{quality_of, settled}
use gibson_tool_runner.Parsers.Amass
use gibson_tool_runner.Parsers.Dnsx
use gibson_tool_runner.Parsers.Httpx
use gibson_tool_runner.Parsers.Naabu
use gibson_tool_runner.Parsers.Nmap.{NmapHost}
use gibson_tool_runner.Parsers.Nuclei
use gibson_tool_runner.Parsers.Subfinder
use gibson_tool_runner.Parsers.Amass.Graph as AmassGraph
use gibson_tool_runner.Parsers.Dnsx.Graph as DnsxGraph
use gibson_tool_runner.Parsers.Httpx.Graph as HttpxGraph
use gibson_tool_runner.Parsers.Masscan.Graph as MasscanGraph
use gibson_tool_runner.Parsers.Naabu.Graph as NaabuGraph
use gibson_tool_runner.Parsers.Nuclei.Graph as NucleiGraph
use gibson_tool_runner.Parsers.Subfinder.Graph as SubfinderGraph
use gibson_tool_runner.Parsers.Tools.{
  Tool, amass, dnsx, httpx, masscan, naabu, nmap, nuclei, subfinder,
}
use gibson_tool_runner.Parsers.Tools.Commands.{parse_of}
use gibson_tool_runner.Parsers.Fields.{
  naabu_fields, naabu_zero, amass_fields, amass_zero, dnsx_fields, dnsx_zero, subfinder_fields,
  subfinder_zero, httpx_fields, httpx_zero, nuclei_fields, nuclei_zero, decoders,
}
use gibson_tool_runner.Parsers.Fields.Tools.{RecordOf, zero_of, fields_of}
use gibson_tool_runner.Parsers.Fields.Tools.Records.{AllHold, AllHold-Written, AllHold-Fit}
use gibson_tool_runner.Parsers.Fields.Arrays.{array_of, parse_json-array_of}
use gibson_tool_runner.Parsers.Fields.Lines.{text_of, Written, lines_of-text_of, conclude-text_of}

-- All but masscan, which prints an array, and nmap, which prints XML.
abbrev pub PrintsLines : Tool → Type 0
PrintsLines masscan = ⊥
PrintsLines nmap = ⊥
PrintsLines _ = Unit

-- nmap prints XML.
abbrev pub PrintsJson : Tool → Type 0
PrintsJson nmap = ⊥
PrintsJson _ = Unit

-- An output with these objects.
abbrev pub output_of : Tool → List Members → Bytes
output_of masscan mss = array_of mss
output_of _ mss = text_of mss

-- httpx calls an output with no record RAW.
abbrev pub empty_quality_of : Tool → ParseQuality
empty_quality_of httpx = raw
empty_quality_of _ = structured

-- The graph that a tool's records have for a target.
abbrev pub records_graph :
    (to_lower : Bytes → Bytes) (t : Tool) → Bytes → List (RecordOf t) → DiscoveryResult
records_graph to_lower amass target rs = AmassGraph.graph target rs
records_graph to_lower dnsx target rs = DnsxGraph.graph rs
records_graph to_lower httpx target rs = HttpxGraph.graph to_lower rs
records_graph to_lower naabu target rs = NaabuGraph.graph rs
records_graph to_lower nuclei target rs = NucleiGraph.graph to_lower rs
records_graph to_lower subfinder target rs = SubfinderGraph.graph target rs
records_graph to_lower masscan target rs = MasscanGraph.graph rs
records_graph to_lower nmap target rs = nothing

module _ (parse_float : Bytes → Option ℕ) (to_lower : Bytes → Bytes)
    (of_nmap : Bytes → Decoded (List NmapHost)) where
  module _ (req : ExecuteRequest) where
    parse_of-text_of :
        (t : Tool)
        → PrintsLines t
        → (mss : List Members) (rs : List (RecordOf t))
        → Written (fields_of parse_float t) (zero_of t) mss rs
        → parse_of t (decoders parse_float to_lower of_nmap) req (text_of mss) ≡ record {
          discovery = records_graph to_lower t req.target rs;
          quality = quality_of (empty_quality_of t) rs;
          error = none;
        }
    unfolding Amass.parse_json_lines Dnsx.parse_json_lines Httpx.parse_json_lines
        Naabu.parse_json_lines Nuclei.parse_json_lines Subfinder.parse_json_lines
    parse_of-text_of amass p mss rs h =
        settled _ _
          (conclude-text_of amass_fields amass_zero (Amass.step (Amass.domain_id_of req.target))
            (λ (s : Amass.State). s.disc) structured (Amass.start req.target) mss rs h)
          (AmassGraph.parse_json_lines-graph (unmarshal amass_fields amass_zero) req.target
              (text_of mss)
            ∙ ap (AmassGraph.graph req.target) (lines_of-text_of amass_fields amass_zero mss rs h))
    parse_of-text_of dnsx p mss rs h =
        settled _ _
          (conclude-text_of dnsx_fields dnsx_zero Dnsx.step (λ (d : DiscoveryResult). d) structured
            nothing mss rs h)
          (DnsxGraph.parse_json_lines-graph (unmarshal dnsx_fields dnsx_zero) (text_of mss)
            ∙ ap (DnsxGraph.graph) (lines_of-text_of dnsx_fields dnsx_zero mss rs h))
    parse_of-text_of httpx p mss rs h =
        settled _ _
          (conclude-text_of httpx_fields httpx_zero (Httpx.append_probe to_lower)
            (λ (d : DiscoveryResult). d) raw nothing mss rs h)
          (HttpxGraph.parse_json_lines-graph to_lower (unmarshal httpx_fields httpx_zero)
              (text_of mss)
            ∙ ap (HttpxGraph.graph to_lower) (lines_of-text_of httpx_fields httpx_zero mss rs h))
    parse_of-text_of naabu p mss rs h =
        settled _ _
          (conclude-text_of naabu_fields naabu_zero Naabu.step (λ (s : Naabu.State). s.disc)
            structured Naabu.start mss rs h)
          (NaabuGraph.parse_json_lines-graph (unmarshal naabu_fields naabu_zero) (text_of mss)
            ∙ ap (NaabuGraph.graph) (lines_of-text_of naabu_fields naabu_zero mss rs h))
    parse_of-text_of nuclei p mss rs h =
        settled _ _
          (conclude-text_of (nuclei_fields parse_float) nuclei_zero (Nuclei.step to_lower)
            (λ (d : DiscoveryResult). d) structured nothing mss rs h)
          (NucleiGraph.parse_json_lines-graph to_lower
              (unmarshal (nuclei_fields parse_float) nuclei_zero) (text_of mss)
            ∙ ap (NucleiGraph.graph to_lower)
                (lines_of-text_of (nuclei_fields parse_float) nuclei_zero mss rs h))
    parse_of-text_of subfinder p mss rs h =
        settled _ _
          (conclude-text_of subfinder_fields subfinder_zero
            (Subfinder.step (Subfinder.domain_id_of req.target)) (λ (d : DiscoveryResult). d)
            structured (Subfinder.start req.target) mss rs h)
          (SubfinderGraph.parse_json_lines-graph (unmarshal subfinder_fields subfinder_zero)
              req.target (text_of mss)
            ∙ ap (SubfinderGraph.graph req.target)
                (lines_of-text_of subfinder_fields subfinder_zero mss rs h))
    parse_of-text_of masscan p mss rs h = elim p [ ]
    parse_of-text_of nmap p mss rs h = elim p [ ]

    -- Every tool but nmap, on an output that holds an object on each line, for masscan as an array with
    -- commas: where the objects are plain ASCII, their lines with a comma fit the scanner, and the members
    -- that have a field are those of a record in the order of its struct, whatever the other members are,
    -- the parser gives no error and the graph of the records. The quality is STRUCTURED, but RAW for httpx
    -- with no record.
    pub parse_of-output_of :
        (format : ℕ → Bytes) (t : Tool)
        → PrintsJson t
        → (mss : List Members) (rs : List (RecordOf t)) → AllHold parse_float format t mss rs
        → parse_of t (decoders parse_float to_lower of_nmap) req (output_of t mss) ≡ record {
          discovery = records_graph to_lower t req.target rs;
          quality = quality_of (empty_quality_of t) rs;
          error = none;
        }
    parse_of-output_of format masscan p mss rs h =
        parse_json-array_of mss rs (AllHold-Written parse_float format masscan mss rs h)
          (AllHold-Fit parse_float format masscan mss rs h)
    parse_of-output_of format amass p mss rs h =
        parse_of-text_of amass tt mss rs (AllHold-Written parse_float format amass mss rs h)
    parse_of-output_of format dnsx p mss rs h =
        parse_of-text_of dnsx tt mss rs (AllHold-Written parse_float format dnsx mss rs h)
    parse_of-output_of format httpx p mss rs h =
        parse_of-text_of httpx tt mss rs (AllHold-Written parse_float format httpx mss rs h)
    parse_of-output_of format naabu p mss rs h =
        parse_of-text_of naabu tt mss rs (AllHold-Written parse_float format naabu mss rs h)
    parse_of-output_of format nuclei p mss rs h =
        parse_of-text_of nuclei tt mss rs (AllHold-Written parse_float format nuclei mss rs h)
    parse_of-output_of format subfinder p mss rs h =
        parse_of-text_of subfinder tt mss rs (AllHold-Written parse_float format subfinder mss rs h)
    parse_of-output_of format nmap p mss rs h = elim p [ ]
