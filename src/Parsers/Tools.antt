-- ===== src/Parsers/Tools.antt =====
-- The eight parsers that cmd/gibson-runner/main.go imports, and what their `init` functions register:
-- in the order of the import paths, and in each package in the order of the file names.
pub mod Startup
pub mod Denied
pub mod Results
pub mod Words
pub mod Commands
pub mod Rejected
pub mod Successes
pub mod Graphs
use gibson_tool_runner.Base.{Bytes, codes, List, [], ◌∷◌, ◌++◌, foldl}
use gibson_tool_runner.Policy.{ArgsPolicy}
use gibson_tool_runner.Registry.{
  Parser, Registry, empty, Registered, panics, done, register, register_args_policy,
}
use gibson_tool_runner.Parsers.Lines.{Decoded}
use gibson_tool_runner.Parsers.Amass
use gibson_tool_runner.Parsers.Dnsx
use gibson_tool_runner.Parsers.Httpx
use gibson_tool_runner.Parsers.Masscan
use gibson_tool_runner.Parsers.Naabu
use gibson_tool_runner.Parsers.Nmap
use gibson_tool_runner.Parsers.Nuclei
use gibson_tool_runner.Parsers.Subfinder
use gibson_tool_runner.Parsers.Amass.Policy as AmassPolicy
use gibson_tool_runner.Parsers.Dnsx.Policy as DnsxPolicy
use gibson_tool_runner.Parsers.Httpx.Policy as HttpxPolicy
use gibson_tool_runner.Parsers.Masscan.Policy as MasscanPolicy
use gibson_tool_runner.Parsers.Naabu.Policy as NaabuPolicy
use gibson_tool_runner.Parsers.Nmap.Policy as NmapPolicy
use gibson_tool_runner.Parsers.Nuclei.Policy as NucleiPolicy
use gibson_tool_runner.Parsers.Subfinder.Policy as SubfinderPolicy

pub data Tool : Type 0 where
  amass dnsx httpx masscan naabu nmap nuclei subfinder : Tool

-- What the parsers take from other packages.
pub record Decoders : Type 0 where
  pub to_lower : Bytes → Bytes
  pub of_amass : Bytes → Decoded Amass.AmassRecord
  pub of_dnsx : Bytes → Decoded Dnsx.DnsxRecord
  pub of_httpx : Bytes → Decoded Httpx.HttpxResult
  pub of_masscan : Bytes → Decoded Masscan.MasscanRecord
  pub of_naabu : Bytes → Decoded Naabu.NaabuRecord
  pub of_nmap : Bytes → Decoded (List Nmap.NmapHost)
  pub of_nuclei : Bytes → Decoded Nuclei.NucleiEvent
  pub of_subfinder : Bytes → Decoded Subfinder.SubfinderRecord

abbrev pub parser_of : Decoders → Tool → Parser
parser_of d amass = Amass.parser d.of_amass
parser_of d dnsx = Dnsx.parser d.of_dnsx
parser_of d httpx = Httpx.parser d.to_lower d.of_httpx
parser_of d masscan = Masscan.parser d.of_masscan
parser_of d naabu = Naabu.parser d.of_naabu
parser_of d nmap = Nmap.parser d.of_nmap
parser_of d nuclei = Nuclei.parser d.to_lower d.of_nuclei
parser_of d subfinder = Subfinder.parser d.of_subfinder

abbrev pub name_of : Tool → Bytes
name_of amass = Amass.tool_name
name_of dnsx = Dnsx.tool_name
name_of httpx = Httpx.tool_name
name_of masscan = Masscan.tool_name
name_of naabu = Naabu.tool_name
name_of nmap = Nmap.tool_name
name_of nuclei = Nuclei.tool_name
name_of subfinder = Subfinder.tool_name

abbrev pub policy_of : Tool → ArgsPolicy
policy_of amass = AmassPolicy.args_policy
policy_of dnsx = DnsxPolicy.args_policy
policy_of httpx = HttpxPolicy.args_policy
policy_of masscan = MasscanPolicy.args_policy
policy_of naabu = NaabuPolicy.args_policy
policy_of nmap = NmapPolicy.args_policy
policy_of nuclei = NucleiPolicy.args_policy
policy_of subfinder = SubfinderPolicy.args_policy

-- One `init` function.
pub data Init : Type 0 where
  of_parser : Parser → Init
  of_policy : Bytes → ArgsPolicy → Init

abbrev pub run_init : Registered → Init → Registered
run_init (panics format args) i = panics format args
run_init (done r) (of_parser p) = register r p
run_init (done r) (of_policy name p) = register_args_policy r name p

-- policy.go comes behind the parser's own file, except for subfinder.go.
abbrev pub inits_of : Decoders → Tool → List Init
inits_of d subfinder =
    of_policy (name_of subfinder) (policy_of subfinder) ∷ of_parser (parser_of d subfinder) ∷ []
inits_of d t = of_parser (parser_of d t) ∷ of_policy (name_of t) (policy_of t) ∷ []

abbrev pub inits : Decoders → List Tool → List Init
inits d [] = []
inits d (t ∷ ts) = inits_of d t ++ inits d ts

abbrev pub imported : List Tool
imported = amass ∷ dnsx ∷ httpx ∷ masscan ∷ naabu ∷ nmap ∷ nuclei ∷ subfinder ∷ []

-- The tables when `main` begins.
unfoldable pub start_up : Decoders → Registered
start_up d = foldl run_init (done empty) (inits d imported)
