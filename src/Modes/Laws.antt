-- ===== src/Modes/Laws.antt =====
-- cmd/gibson-runner/main.go, `main`: the catalog that `--list-tools` prints.
use mathlib.Core.List.{Perm}
use mathlib.Core.List.Perm
use gibson_tool_runner.Base.{
  ℕ, none, some, ◌∙◌, Bytes, Bool, true, List, [], ◌∷◌, Option, Error, ◌≡◌, refl, ap, subst, map,
}
use gibson_tool_runner.Process.{World}
use gibson_tool_runner.Registry.{Parser, Registry, done, CatalogEntry, by_name, string_lt, catalog}
use gibson_tool_runner.Registry.Catalog.{
  IsSortOf, Ascending, Ascending-Pairwise, entries, IsSortOf-unique,
}
use gibson_tool_runner.Observability.{Sdk, Globals}
use gibson_tool_runner.Runner.{Codec}
use gibson_tool_runner.Modes.{listed, run_list_tools, run_main}
use gibson_tool_runner.Parsers.Tools.{
  amass, dnsx, httpx, masscan, naabu, nmap, nuclei, subfinder, Decoders, parser_of, start_up,
}
use gibson_tool_runner.Parsers.Tools.Startup.{IsReady-done}

-- The entries of the eight tools in the order of their names.
abbrev pub descriptions : Decoders → List CatalogEntry
descriptions d =
    map (λ t. (parser_of d t).describe)
      (amass ∷ dnsx ∷ httpx ∷ masscan ∷ naabu ∷ nmap ∷ nuclei ∷ subfinder ∷ [])

descriptions-Ascending : (d : Decoders) → Ascending (descriptions d)
unfolding by_name string_lt
descriptions-Ascending d = (refl, (refl, (refl, (refl, (refl, (refl, (refl, tt)))))))

pub descriptions-IsSortOf : (d : Decoders) → IsSortOf (descriptions d) (descriptions d)
descriptions-IsSortOf d = record {
  permutes = Perm.rfl;
  ordered = Ascending-Pairwise (descriptions d) (descriptions-Ascending d);
}

-- The exit code for the error of an encoder.
abbrev pub code_of : Option Error → ℕ
code_of none = 0
code_of (some e) = 1

run_list_tools-code_of :
    (encode : List CatalogEntry → Bytes × Option Error) (es : List CatalogEntry)
    → run_list_tools encode es ≡ record { output = (encode es).0; code = code_of (encode es).1 }
unfolding run_list_tools
run_list_tools-code_of encode es = by_result (encode es)
  where
    by_result :
        (out : Bytes × Option Error)
        → run_list_tools (λ _. out) es ≡ record { output = out.0; code = code_of out.1 }
    by_result (output, none) = refl
    by_result (output, some e) = refl

-- With `--list-tools`, whatever `--serve` says, the binary prints what the encoder makes of the eight
-- tools' entries in the order of their names, however `sort.Slice` sorts, and exits with 0 if the encoder
-- has no error and with 1 if it has one. It does not come to the other two modes.
pub run_main_list :
    (k : Sdk) (c : Codec) (d : Decoders) (r : Registry) (w : World) (g : Globals k) (serve : Bool)
    (encode : List CatalogEntry → Bytes × Option Error)
    (sort : (CatalogEntry → CatalogEntry → Bool) → List CatalogEntry → List CatalogEntry)
    → start_up d ≡ done r
    → IsSortOf (entries r) (sort by_name (entries r))
    → run_main k c encode sort r w g (record { list_tools = true; serve = serve })
      ≡ listed (record {
        output = (encode (descriptions d)).0;
        code = code_of (encode (descriptions d)).1;
      })
unfolding run_main catalog
run_main_list k c d r w g serve encode sort e s =
    let ready = IsReady-done d r e in
    let es : entries r ≡ descriptions d = ap (map (λ (p : Parser). p.describe)) ready.lists in
    ap (λ es. listed (run_list_tools encode es))
      (IsSortOf-unique r (descriptions d) _ _ ready.consistent
        (subst (Perm (entries r)) es Perm.rfl) s (descriptions-IsSortOf d))
    ∙ ap listed (run_list_tools-code_of encode (descriptions d))
