-- ===== src/Tests/Registries.antt =====
-- internal/registry/registry.go with two parsers and one policy.
use gibson_tool_runner.Base.{
  Bytes, codes, List, [], ◌∷◌, none, some, message, ◌≡◌, refl, is_empty, map, mem, index,
}
use gibson_tool_runner.Policy.{allow_any}
use gibson_tool_runner.Policy.Allowed.{Allowed}
use gibson_tool_runner.Registry.{
  Parser, Registry, panics, done, register, Policies, lookup_args_policy, policy_or_nil,
  flag_denied, apply_policy, assign,
}
use gibson_tool_runner.Policy.Order.{denial}
use gibson_tool_runner.Policy.Groups.{groups}
use gibson_tool_runner.Registry.Filter.{apply_policy-Allowed, apply_policy_unregistered}
use gibson_tool_runner.Registry.Tables.{IsConsistent, register-IsConsistent}
use gibson_tool_runner.Parsers.Lines.{malformed}
use gibson_tool_runner.Parsers.Naabu
use gibson_tool_runner.Parsers.Subfinder

abbrev pub naabu_parser : Parser
naabu_parser = Naabu.parser (λ line. malformed (message (codes "no JSON") []))

abbrev pub subfinder_parser : Parser
subfinder_parser = Subfinder.parser (λ line. malformed (message (codes "no JSON") []))

abbrev with_naabu : Registry
with_naabu = record {
  parsers = (codes "naabu", naabu_parser) ∷ [];
  registry = naabu_parser ∷ [];
  policies = [];
}

abbrev pub with_both : Registry
with_both = record {
  parsers = (codes "naabu", naabu_parser) ∷ (codes "subfinder", subfinder_parser) ∷ [];
  registry = naabu_parser ∷ subfinder_parser ∷ [];
  policies = [];
}

second_done : register with_naabu subfinder_parser ≡ done with_both
unfolding register assign is_empty index
second_done = refl

twice_panics :
    register with_naabu naabu_parser
    ≡ panics (codes "registry: duplicate parser %q") (codes "naabu" ∷ [])
unfolding register is_empty index
twice_panics = refl

with_naabu-IsConsistent : IsConsistent with_naabu
unfolding mem
with_naabu-IsConsistent = record { in_step = refl; distinct = (refl, tt); no_empty = refl }

register-IsConsistent_example : IsConsistent with_both
register-IsConsistent_example =
    register-IsConsistent with_naabu with_both subfinder_parser with_naabu-IsConsistent second_done

abbrev policies : Policies
policies = (codes "naabu", some ((codes "-p", some allow_any) ∷ [])) ∷ []

abbrev given : List Bytes
given = codes "-p" ∷ codes "22" ∷ codes "-o" ∷ codes "out" ∷ []

apply_policy-Allowed_example :
    Allowed
      (policy_or_nil (lookup_args_policy policies (codes "naabu")))
      (apply_policy policies (codes "naabu") given).args
apply_policy-Allowed_example = apply_policy-Allowed policies (codes "naabu") given

no_policy : lookup_args_policy policies (codes "nmap") ≡ none
unfolding lookup_args_policy index
no_policy = refl

apply_policy_unregistered_example :
    ((apply_policy policies (codes "nmap") given).args ≡ [])
    × ((apply_policy policies (codes "nmap") given).error ≡ none)
    × ((apply_policy policies (codes "nmap") given).log
        ≡ map (flag_denied (codes "nmap")) (map denial (groups given)))
apply_policy_unregistered_example =
    apply_policy_unregistered policies (codes "nmap") given no_policy
