-- ===== src/Parsers/Fields/Tools/Records.antt =====
-- parsers/*/*.go: the line of a record, with all of its fields under their tags.
use gibson_tool_runner.Base.{ℕ, Bytes, List, [], ◌∷◌, Option, some, ◌≡◌, refl, ◌==◌, arith, All}
use gibson_tool_runner.Sandbox.Config.Laws.{IsInt64}
use gibson_tool_runner.Json.{Members, text, object, no_members}
use gibson_tool_runner.Json.Parser.{max_depth}
use gibson_tool_runner.Json.Number.Laws.{decimal_int-IsNumber}
use gibson_tool_runner.Json.Print.{IsPlain, IsNumber, IsGood, AreGoodItems}
use gibson_tool_runner.Json.Fields.{unmarshal, set_members, field_of, exact}
use gibson_tool_runner.Json.Fields.Laws.{to_items, known, unmarshal-print}
use gibson_tool_runner.Parsers.Lines.{record_of}
use gibson_tool_runner.Parsers.Masscan.{MasscanPort}
use gibson_tool_runner.Parsers.Tools.{
  Tool, amass, dnsx, httpx, masscan, naabu, nmap, nuclei, subfinder,
}
use gibson_tool_runner.Parsers.Fields.Laws.{
  HasInt64, amass_address, masscan_port, amass_members, dnsx_members, httpx_members,
  masscan_members, naabu_members, nuclei_members, subfinder_members, amass_back, dnsx_back,
  httpx_back, masscan_back, naabu_back, nuclei_back, subfinder_back,
}
use gibson_tool_runner.Parsers.Fields.Tools.{RecordOf, zero_of, fields_of}
use gibson_tool_runner.Parsers.Fields.Lines.{line_of, FitsComma, Written}

texts-AreGood : (n : ℕ) (ss : List Bytes) → All IsPlain ss → AreGoodItems n (to_items text ss)
texts-AreGood n [] h = tt
texts-AreGood n (s ∷ ss) (h, hs) = (h, texts-AreGood n ss hs)

addresses-AreGood :
    (ss : List Bytes) → All IsPlain ss → AreGoodItems 9998 (to_items amass_address ss)
addresses-AreGood [] h = tt
addresses-AreGood (s ∷ ss) (h, hs) = (ground (arith, h), addresses-AreGood ss hs)

abbrev pub IsPlainPort : MasscanPort → Type 0
IsPlainPort p = IsInt64 p.port × IsPlain p.proto × IsPlain p.status × IsPlain p.reason

ports-AreGood :
    (ps : List MasscanPort) → All IsPlainPort ps → AreGoodItems 9998 (to_items masscan_port ps)
ports-AreGood [] h = tt
ports-AreGood (p ∷ ps) ((n, a, b, c), hs) =
    (ground (arith, a, b, c, decimal_int-IsNumber p.port), ports-AreGood ps hs)

ports-HaveInt64 : (ps : List MasscanPort) → All IsPlainPort ps → All HasInt64 ps
ports-HaveInt64 [] h = tt
ports-HaveInt64 (p ∷ ps) ((n, _, _, _), hs) = (n, ports-HaveInt64 ps hs)

-- `format` writes the bits of a `float64`, and `parse_float` is `strconv.ParseFloat`.
module _ (parse_float : Bytes → Option ℕ) (format : ℕ → Bytes) where
  -- All fields of a record under their tags.
  abbrev pub members_of : (t : Tool) → RecordOf t → Members
  members_of amass r = amass_members r
  members_of dnsx r = dnsx_members r
  members_of httpx r = httpx_members r
  members_of masscan r = masscan_members r
  members_of naabu r = naabu_members r
  members_of nmap r = no_members
  members_of nuclei r = nuclei_members parse_float format r
  members_of subfinder r = subfinder_members r

  -- The texts of a record are plain ASCII, its integers are `int64`s, and its score reads back.
  abbrev pub IsWritable : (t : Tool) → RecordOf t → Type 0
  IsWritable amass r = IsPlain r.name × IsPlain r.domain × All IsPlain r.addresses
  IsWritable dnsx r = IsPlain r.host × All IsPlain r.a × All IsPlain r.aaaa
  IsWritable httpx r =
      (IsPlain r.url × IsPlain r.host × IsInt64 r.status_code × IsPlain r.content_type)
      × (IsInt64 r.content_length × IsPlain r.title × IsPlain r.web_server)
      × (All IsPlain r.tech × IsPlain r.scheme × IsPlain r.method)
  IsWritable masscan r = IsPlain r.ip × All IsPlainPort r.ports
  IsWritable naabu r = IsPlain r.host × IsPlain r.ip × IsInt64 r.port
  IsWritable nmap r = Unit
  IsWritable nuclei r =
      (IsPlain r.template_id × IsPlain r.host × IsPlain r.matched_at × IsPlain r.type_name)
      × (IsPlain r.curl_command × All IsPlain r.extracted_results)
      × (IsPlain r.info.name × IsPlain r.info.description × IsPlain r.info.severity)
      × (IsPlain r.info.remediation × All IsPlain r.info.tags)
      × (All IsPlain r.info.classification.cve_id × All IsPlain r.info.classification.cwe_id)
      × IsPlain r.info.classification.cvss_metrics
      × IsNumber (format r.info.classification.cvss_score)
      × (parse_float (format r.info.classification.cvss_score)
          ≡ some r.info.classification.cvss_score)
  IsWritable subfinder r = IsPlain r.host × IsPlain r.source

  members_of-IsGood :
      (t : Tool) (r : RecordOf t) → IsWritable t r → IsGood max_depth (object (members_of t r))
  members_of-IsGood amass r (a, b, c) = ground (arith, a, b, addresses-AreGood r.addresses c)
  members_of-IsGood dnsx r (a, b, c) =
      ground (arith, a, texts-AreGood 9998 r.a b, texts-AreGood 9998 r.aaaa c)
  members_of-IsGood httpx r ((a, b, i, c), (j, d, e), (f, g, h)) = ground (
    arith,
    a,
    b,
    c,
    d,
    e,
    g,
    h,
    texts-AreGood 9998 r.tech f,
    decimal_int-IsNumber r.status_code,
    decimal_int-IsNumber r.content_length,
  )
  members_of-IsGood masscan r (a, b) = ground (arith, a, ports-AreGood r.ports b)
  members_of-IsGood naabu r (a, b, i) = ground (arith, a, b, decimal_int-IsNumber r.port)
  members_of-IsGood nmap r h = tt
  members_of-IsGood nuclei r ((a, b, c, d), (e, f), (g, h, i), (j, k), (l, m), n, o, p) = ground (
    arith,
    texts-AreGood 9998 r.extracted_results f,
    texts-AreGood 9997 r.info.tags k,
    texts-AreGood 9996 r.info.classification.cve_id l,
    texts-AreGood 9996 r.info.classification.cwe_id m,
  )
  members_of-IsGood subfinder r (a, b) = ground (arith, a, b)

  members_of-known :
      (t : Tool) (r : RecordOf t)
      → known (fields_of parse_float t) (members_of t r) ≡ members_of t r
  unfolding known field_of exact ◌==◌
  members_of-known amass r = refl
  members_of-known dnsx r = refl
  members_of-known httpx r = refl
  members_of-known masscan r = refl
  members_of-known naabu r = refl
  members_of-known nmap r = refl
  members_of-known nuclei r = refl
  members_of-known subfinder r = refl

  members_of_back :
      (t : Tool) (r : RecordOf t)
      → IsWritable t r
      → set_members (fields_of parse_float t) (members_of t r) (zero_of t) ≡ some r
  members_of_back amass r h = amass_back r
  members_of_back dnsx r h = dnsx_back r
  members_of_back httpx r ((a, b, i, c), (j, d, e), _) = httpx_back r i j
  members_of_back masscan r (a, b) = masscan_back r (ports-HaveInt64 r.ports b)
  members_of_back naabu r (a, b, i) = naabu_back r i
  members_of_back nmap r h = unfold set_members in refl
  members_of_back nuclei r (_, _, _, _, _, _, o, p) = nuclei_back parse_float format r p
  members_of_back subfinder r h = subfinder_back r

  -- The line that holds all fields of a record under the tags of its struct decodes to the record again,
  -- where its texts are plain ASCII, its integers fit an `int64`, and its score is a number that
  -- `ParseFloat` reads back. nmap has no fields.
  pub unmarshal-line_of :
      (t : Tool) (r : RecordOf t)
      → IsWritable t r
      → unmarshal (fields_of parse_float t) (zero_of t) (line_of (members_of t r)) ≡ record_of r
  unmarshal-line_of t r h =
      unmarshal-print (fields_of parse_float t) max_depth (members_of t r) (zero_of t) r
        (omega arith) (members_of-IsGood t r h) (rw (members_of-known t r) (members_of_back t r h))

  -- An object that holds the fields of a record under their tags, in order, and other members that have
  -- no field.
  abbrev pub Holds : (t : Tool) → Members → RecordOf t → Type 0
  Holds t ms r =
      IsWritable t r
      × IsGood max_depth (object ms)
      × FitsComma ms
      × (known (fields_of parse_float t) ms ≡ members_of t r)

  abbrev pub AllHold : (t : Tool) → List Members → List (RecordOf t) → Type 0
  AllHold t [] [] = Unit
  AllHold t (ms ∷ mss) (r ∷ rs) = Holds t ms r × AllHold t mss rs
  AllHold t _ _ = ⊥

  -- Such objects are what the parser of an output reads.
  pub AllHold-Written :
      (t : Tool) (mss : List Members) (rs : List (RecordOf t))
      → AllHold t mss rs
      → Written (fields_of parse_float t) (zero_of t) mss rs
  AllHold-Written t [] [] h = tt
  AllHold-Written t [] (r ∷ rs) h = elim h [ ]
  AllHold-Written t (ms ∷ mss) [] h = elim h [ ]
  AllHold-Written t (ms ∷ mss) (r ∷ rs) ((w, g, f, e), hs) =
      ((g, omega (arith, f), rw e (members_of_back t r w)), AllHold-Written t mss rs hs)

  pub AllHold-Fit :
      (t : Tool) (mss : List Members) (rs : List (RecordOf t))
      → AllHold t mss rs
      → All (λ ms. IsGood max_depth (object ms) × FitsComma ms) mss
  AllHold-Fit t [] rs h = tt
  AllHold-Fit t (ms ∷ mss) [] h = elim h [ ]
  AllHold-Fit t (ms ∷ mss) (r ∷ rs) ((w, g, f, e), hs) = ((g, f), AllHold-Fit t mss rs hs)
