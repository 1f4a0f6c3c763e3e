-- ===== src/Parsers/Tools/Denied.antt =====
-- The flags that the comments of parsers/*/policy.go say are denied: the ones by which a tool writes to
-- a file, loads a configuration, or takes another resolver or template.
use gibson_tool_runner.Base.{
  Bytes, codes, true, false, List, [], ◌∷◌, none, some, ◌≡◌, refl, All, mem, index, has_prefix,
  ◌==◌,
}
use gibson_tool_runner.Policy.{ArgsPolicy, is_flag, apply_args}
use gibson_tool_runner.Policy
use gibson_tool_runner.Policy.Allowed.{Allowed, Allowed_unlisted}
use gibson_tool_runner.Registry.{lookup_args_policy, policy_or_nil, apply_policy, Policies}
use gibson_tool_runner.Registry.Filter.{apply_policy-Allowed}
use gibson_tool_runner.Parsers.Amass.Policy as AmassPolicy
use gibson_tool_runner.Parsers.Dnsx.Policy as DnsxPolicy
use gibson_tool_runner.Parsers.Httpx.Policy as HttpxPolicy
use gibson_tool_runner.Parsers.Masscan.Policy as MasscanPolicy
use gibson_tool_runner.Parsers.Naabu.Policy as NaabuPolicy
use gibson_tool_runner.Parsers.Nmap.Policy as NmapPolicy
use gibson_tool_runner.Parsers.Nuclei.Policy as NucleiPolicy
use gibson_tool_runner.Parsers.Subfinder.Policy as SubfinderPolicy
use gibson_tool_runner.Parsers.Tools.{
  Tool, amass, dnsx, httpx, masscan, naabu, nmap, nuclei, subfinder, name_of, policy_of,
}

-- The comments also name -rl for subfinder, which the policy lists.
abbrev pub denied : Tool → List Bytes
denied amass = codes "-o" ∷ codes "-dir" ∷ codes "-config" ∷ []
denied dnsx = codes "-o" ∷ codes "-output" ∷ codes "-r" ∷ []
denied httpx =
    codes "-o"
    ∷ codes "-output"
    ∷ codes "-store-response"
    ∷ codes "-store-response-dir"
    ∷ codes "-srd"
    ∷ []
denied masscan =
    codes "-oN" ∷ codes "-oX" ∷ codes "-oJ" ∷ codes "-oG" ∷ codes "--output-filename" ∷ []
denied naabu = codes "-o" ∷ codes "-output" ∷ codes "-csv" ∷ codes "-json" ∷ []
denied nmap = codes "-oN" ∷ codes "-oX" ∷ codes "-oG" ∷ codes "-oA" ∷ codes "--script" ∷ []
denied nuclei =
    codes "-t"
    ∷ codes "--templates"
    ∷ codes "-o"
    ∷ codes "-output"
    ∷ codes "-store-resp"
    ∷ codes "-store-resp-dir"
    ∷ []
denied subfinder = codes "-o" ∷ codes "-r" ∷ []

-- A flag that a policy does not list.
abbrev Unlisted : ArgsPolicy → Bytes → Type 0
Unlisted p flag = (is_flag flag ≡ true) × (Policy.lookup p flag ≡ none)

denied-Unlisted : (t : Tool) → All (Unlisted (policy_of t)) (denied t)
unfolding is_flag Policy.lookup index has_prefix ◌==◌ AmassPolicy.args_policy DnsxPolicy.args_policy
    HttpxPolicy.args_policy MasscanPolicy.args_policy NaabuPolicy.args_policy NmapPolicy.args_policy
    NucleiPolicy.args_policy SubfinderPolicy.args_policy
denied-Unlisted amass = ((refl, refl), ((refl, refl), ((refl, refl), tt)))
denied-Unlisted dnsx = ((refl, refl), ((refl, refl), ((refl, refl), tt)))
denied-Unlisted httpx =
    ((refl, refl), ((refl, refl), ((refl, refl), ((refl, refl), ((refl, refl), tt)))))
denied-Unlisted masscan =
    ((refl, refl), ((refl, refl), ((refl, refl), ((refl, refl), ((refl, refl), tt)))))
denied-Unlisted naabu = ((refl, refl), ((refl, refl), ((refl, refl), ((refl, refl), tt))))
denied-Unlisted nmap =
    ((refl, refl), ((refl, refl), ((refl, refl), ((refl, refl), ((refl, refl), tt)))))
denied-Unlisted nuclei = (
  (refl, refl),
  ((refl, refl), ((refl, refl), ((refl, refl), ((refl, refl), ((refl, refl), tt))))),
)
denied-Unlisted subfinder = ((refl, refl), ((refl, refl), tt))

All-Unlisted :
    (p : ArgsPolicy) (xs flags : List Bytes)
    → Allowed p xs
    → All (Unlisted p) flags
    → All (λ flag. mem flag xs ≡ false) flags
All-Unlisted p xs [] a h = tt
All-Unlisted p xs (flag ∷ flags) a h =
    (Allowed_unlisted p a flag h.0.0 h.0.1, All-Unlisted p xs flags a h.1)

-- With the policy of its own package registered for a tool, none of the flags that the comments of
-- the package say are denied comes through `ApplyPolicy`, neither as a flag nor as a value, whatever the
-- arguments are. For subfinder this leaves out -rl, which the policy lists.
pub apply_policy-denied :
    (policies : Policies) (t : Tool) (args : List Bytes)
    → lookup_args_policy policies (name_of t) ≡ some (policy_of t)
    → All (λ flag. mem flag (apply_policy policies (name_of t) args).args ≡ false) (denied t)
unfolding policy_or_nil
apply_policy-denied policies t args h =
    All-Unlisted (policy_of t) _ (denied t)
      (rw h at (apply_policy-Allowed policies (name_of t) args)) (denied-Unlisted t)
