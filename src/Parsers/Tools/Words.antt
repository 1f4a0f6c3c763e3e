-- ===== src/Parsers/Tools/Words.antt =====
-- parsers/*/*.go, `buildArgs` of all eight tools: the words of each command line, written out.
use gibson_tool_runner.Base.{
  Bytes, codes, List, [], ◌∷◌, ◌++◌, Option, none, some, ◌≡◌, refl, is_empty, index, if◌then◌else◌,
}
use gibson_tool_runner.Registry.{ExecuteRequest}
use gibson_tool_runner.Parsers.Tool.{option}
use gibson_tool_runner.Parsers.Amass
use gibson_tool_runner.Parsers.Dnsx
use gibson_tool_runner.Parsers.Httpx
use gibson_tool_runner.Parsers.Masscan
use gibson_tool_runner.Parsers.Naabu
use gibson_tool_runner.Parsers.Nmap
use gibson_tool_runner.Parsers.Nuclei
use gibson_tool_runner.Parsers.Subfinder
use gibson_tool_runner.Parsers.Tools.{
  Tool, amass, dnsx, httpx, masscan, naabu, nmap, nuclei, subfinder, name_of,
}

-- A text that counts as set: one that is not empty.
abbrev set_text : Option Bytes → Option Bytes
set_text none = none
set_text (some []) = none
set_text (some (c ∷ cs)) = some (c ∷ cs)

-- The words for a flag with a value, none if the value is not set.
abbrev with_flag : Bytes → Option Bytes → List Bytes
with_flag flag none = []
with_flag flag (some v) = flag ∷ v ∷ []

abbrev or_else : Option Bytes → Bytes → Bytes
or_else none fallback = fallback
or_else (some v) fallback = v

abbrev only : Bytes → List Bytes
only [] = []
only (c ∷ cs) = (c ∷ cs) ∷ []

-- The option of a request, if it is set.
abbrev given : ExecuteRequest → Bytes → Option Bytes
given req name = set_text (index name req.options)

-- The command line of each tool, its name included: the fixed flags, the target, the options with a
-- flag, and the extra arguments in their place.
abbrev pub words_for : Tool → ExecuteRequest → List Bytes → List Bytes
words_for amass req args =
    codes "amass"
    ∷ codes "enum"
    ∷ codes "-passive"
    ∷ codes "-json"
    ∷ codes "/dev/stdout"
    ∷ codes "-d"
    ∷ req.target
    ∷ args
words_for dnsx req args =
    codes "dnsx"
    ∷ codes "-json"
    ∷ codes "-silent"
    ∷ codes "-l"
    ∷ codes "/dev/stdin"
    ∷ codes "-a"
    ∷ codes "-aaaa"
    ∷ args
words_for httpx req args =
    codes "httpx"
    ∷ codes "-json"
    ∷ codes "-silent"
    ∷ codes "-target"
    ∷ req.target
    ∷ (with_flag (codes "-path") (given req (codes "paths")) ++ args)
words_for masscan req args =
    codes "masscan"
    ∷ codes "--rate"
    ∷ or_else (given req (codes "rate")) (codes "1000")
    ∷ codes "-p"
    ∷ or_else (given req (codes "ports")) (codes "1-65535")
    ∷ codes "-oJ"
    ∷ codes "-"
    ∷ req.target
    ∷ args
words_for naabu req args =
    codes "naabu"
    ∷ codes "-json"
    ∷ codes "-silent"
    ∷ codes "-host"
    ∷ req.target
    ∷ (with_flag (codes "-p") (given req (codes "ports")) ++ args)
words_for nmap req args =
    codes "nmap"
    ∷ codes "-oX"
    ∷ codes "-"
    ∷ (with_flag (codes "-p") (given req (codes "ports")) ++ (args ++ only req.target))
words_for nuclei req args =
    codes "nuclei"
    ∷ codes "-jsonl"
    ∷ codes "-silent"
    ∷ codes "-target"
    ∷ req.target
    ∷ (with_flag (codes "-severity") (given req (codes "severity"))
        ++ (with_flag (codes "-t") (given req (codes "templates")) ++ args))
words_for subfinder req args =
    codes "subfinder" ∷ codes "-json" ∷ codes "-silent" ∷ codes "-d" ∷ req.target ∷ args

-- The command line of a tool as its code builds it.
abbrev pub line_of : Tool → ExecuteRequest → List Bytes → List Bytes
line_of amass req filtered = Amass.build_args req filtered
line_of dnsx req filtered = Dnsx.build_args filtered
line_of httpx req filtered = Httpx.build_args req filtered
line_of masscan req filtered = Masscan.build_args req filtered
line_of naabu req filtered = Naabu.build_args req filtered
line_of nmap req filtered = Nmap.line req filtered
line_of nuclei req filtered = Nuclei.build_args req filtered
line_of subfinder req filtered = Subfinder.build_args req filtered

flag-option :
    (req : ExecuteRequest) (name flag : Bytes)
    → (if is_empty (option req name) then [] else flag ∷ option req name ∷ [])
      ≡ with_flag flag (given req name)
unfolding option is_empty
flag-option req name flag = by_value (index name req.options)
  where
    by_value :
        (o : Option Bytes)
        → (if is_empty (elim o [ none ↦ [] | some v ↦ v ])
            then []
            else flag ∷ (elim o [ none ↦ [] | some v ↦ v ]) ∷ [])
          ≡ with_flag flag (set_text o)
    by_value none = refl
    by_value (some []) = refl
    by_value (some (c ∷ cs)) = refl

option_or-or_else :
    (req : ExecuteRequest) (name fallback : Bytes)
    → Masscan.option_or req name fallback ≡ or_else (given req name) fallback
unfolding Masscan.option_or option is_empty
option_or-or_else req name fallback = by_value (index name req.options)
  where
    by_value :
        (o : Option Bytes)
        → (if is_empty (elim o [ none ↦ [] | some v ↦ v ])
            then fallback
            else (elim o [ none ↦ [] | some v ↦ v ]))
          ≡ or_else (set_text o) fallback
    by_value none = refl
    by_value (some []) = refl
    by_value (some (c ∷ cs)) = refl

only_lem : (s : Bytes) → (if is_empty s then [] else s ∷ []) ≡ only s
unfolding is_empty
only_lem [] = refl
only_lem (c ∷ cs) = refl

-- Each tool's code builds exactly these words.
pub line_of-words_for :
    (t : Tool) (req : ExecuteRequest) (args : List Bytes)
    → name_of t ∷ line_of t req args ≡ words_for t req args
unfolding Amass.build_args Dnsx.build_args Httpx.build_args Masscan.build_args Naabu.build_args
    Nuclei.build_args Subfinder.build_args
line_of-words_for amass req args = refl
line_of-words_for dnsx req args = refl
line_of-words_for httpx req args = rw (flag-option req (codes "paths") (codes "-path")) refl
line_of-words_for masscan req args =
    rw
      (
        option_or-or_else req (codes "rate") (codes "1000"),
        option_or-or_else req (codes "ports") (codes "1-65535"),
      )
      refl
line_of-words_for naabu req args = rw (flag-option req (codes "ports") (codes "-p")) refl
line_of-words_for nmap req args =
    rw (flag-option req (codes "ports") (codes "-p"), only_lem req.target) refl
line_of-words_for nuclei req args =
    rw
      (
        flag-option req (codes "severity") (codes "-severity"),
        flag-option req (codes "templates") (codes "-t"),
      )
      refl
line_of-words_for subfinder req args = refl
