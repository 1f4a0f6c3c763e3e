-- ===== src/Parsers/Fields/Tools.antt =====
-- parsers/*/*.go: the record type of each tool with its tags. nmap, which prints XML, has none.
pub mod Records
use gibson_tool_runner.Base.{ℕ, Bytes, List, [], Option}
use gibson_tool_runner.Json.Fields.{Field}
use gibson_tool_runner.Parsers.Amass
use gibson_tool_runner.Parsers.Dnsx
use gibson_tool_runner.Parsers.Httpx
use gibson_tool_runner.Parsers.Masscan
use gibson_tool_runner.Parsers.Naabu
use gibson_tool_runner.Parsers.Nuclei
use gibson_tool_runner.Parsers.Subfinder
use gibson_tool_runner.Parsers.Tools.{
  Tool, amass, dnsx, httpx, masscan, naabu, nmap, nuclei, subfinder,
}
use gibson_tool_runner.Parsers.Fields.{
  naabu_fields, naabu_zero, masscan_fields, masscan_zero, amass_fields, amass_zero, dnsx_fields,
  dnsx_zero, subfinder_fields, subfinder_zero, httpx_fields, httpx_zero, nuclei_fields, nuclei_zero,
}

abbrev pub RecordOf : Tool → Type 0
RecordOf amass = Amass.AmassRecord
RecordOf dnsx = Dnsx.DnsxRecord
RecordOf httpx = Httpx.HttpxResult
RecordOf masscan = Masscan.MasscanRecord
RecordOf naabu = Naabu.NaabuRecord
RecordOf nmap = Unit
RecordOf nuclei = Nuclei.NucleiEvent
RecordOf subfinder = Subfinder.SubfinderRecord

abbrev pub zero_of : (t : Tool) → RecordOf t
zero_of amass = amass_zero
zero_of dnsx = dnsx_zero
zero_of httpx = httpx_zero
zero_of masscan = masscan_zero
zero_of naabu = naabu_zero
zero_of nmap = tt
zero_of nuclei = nuclei_zero
zero_of subfinder = subfinder_zero

-- `parse_float` is `strconv.ParseFloat`.
abbrev pub fields_of : (Bytes → Option ℕ) → (t : Tool) → List (Field (RecordOf t))
fields_of parse_float amass = amass_fields
fields_of parse_float dnsx = dnsx_fields
fields_of parse_float httpx = httpx_fields
fields_of parse_float masscan = masscan_fields
fields_of parse_float naabu = naabu_fields
fields_of parse_float nmap = []
fields_of parse_float nuclei = nuclei_fields parse_float
fields_of parse_float subfinder = subfinder_fields
