-- ===== src/Tests/Policies.antt =====
-- internal/policy/policy.go at concrete arguments.
use gibson_tool_runner.Base.{
  Bytes, codes, List, [], ◌∷◌, none, some, message, ◌≡◌, refl, true, false,
}
use gibson_tool_runner.Policy.{
  ArgsPolicy, stray_token, not_in_allowlist, allow_any, path_under, is_flag, lookup, apply_args,
  apply_loop, round, check_flag, check_value, paired_value,
}
use gibson_tool_runner.Policy.Groups.{groups, judge}
use gibson_tool_runner.Policy.Refinement.{apply_args-judge}
use gibson_tool_runner.Policy.Allowed.{
  Allowed, free, none_left, apply_args-Allowed, apply_args_fixed,
}
use gibson_tool_runner.Base.{◌==◌, is_empty, ◌++◌}
use gibson_tool_runner.Policy.{path_under}
use gibson_tool_runner.Policy.Paths.{enter, first_part, other_parts, leads_to, path_under-leads_to}

abbrev port_policy : ArgsPolicy
port_policy = some ((codes "-p", some allow_any) ∷ (codes "-sV", none) ∷ [])

-- -p 22 -oN out stray -sV
abbrev given : List Bytes
given = codes "-p" ∷ codes "22" ∷ codes "-oN" ∷ codes "out" ∷ codes "stray" ∷ codes "-sV" ∷ []

given_runs : apply_args given port_policy ≡ record {
  args = codes "-p" ∷ codes "22" ∷ codes "-sV" ∷ [];
  dropped = not_in_allowlist (codes "-oN") (codes "out") ∷ stray_token (codes "stray") ∷ [];
  error = none;
}
unfolding apply_args apply_loop round check_flag check_value paired_value is_flag lookup allow_any
given_runs = refl

-- A validated flag before another flag has no value.
no_value_runs : apply_args (codes "-sV" ∷ codes "-p" ∷ codes "-sV" ∷ []) port_policy ≡ record {
  args = [];
  dropped = [];
  error = some (message (codes "flag %q requires a value but none was provided") (codes "-p" ∷ []));
}
unfolding apply_args apply_loop round check_flag check_value paired_value is_flag lookup
no_value_runs = refl

-- The flag -sV has no validator and takes an address along.
smuggled_runs :
    apply_args (codes "-sV" ∷ codes "10.0.0.0/8" ∷ []) port_policy
    ≡ record { args = codes "-sV" ∷ codes "10.0.0.0/8" ∷ []; dropped = []; error = none }
unfolding apply_args apply_loop round check_flag check_value paired_value is_flag lookup
smuggled_runs = refl

-- A sibling directory of the prefix is accepted.
sibling_runs : path_under (codes "/tmp/run") (codes "/tmp/run-evil/x") ≡ none
unfolding path_under
sibling_runs = refl

out_is_flag : is_flag (codes "-oN") ≡ true
unfolding is_flag
out_is_flag = refl

out_unlisted : lookup port_policy (codes "-oN") ≡ none
unfolding lookup
out_unlisted = refl

apply_args-judge_example : apply_args given port_policy ≡ judge port_policy (groups given)
apply_args-judge_example = apply_args-judge given port_policy

apply_args-Allowed_example : Allowed port_policy (apply_args given port_policy).args
apply_args-Allowed_example = apply_args-Allowed port_policy given

abbrev run_dir : Bytes
run_dir = codes "/tmp/run"

abbrev scan_file : Bytes
scan_file = codes "/tmp/run/./a//scan.xml"

scan_accepted : path_under (codes "/tmp/run/") scan_file ≡ none
unfolding path_under
scan_accepted = refl

scan_leads : leads_to scan_file ≡ codes "scan.xml" ∷ codes "a" ∷ leads_to run_dir
unfolding enter first_part other_parts is_empty ◌==◌
scan_leads = refl

path_under-leads_to_example : (more : List Bytes) × (leads_to scan_file ≡ more ++ leads_to run_dir)
path_under-leads_to_example = path_under-leads_to run_dir scan_file scan_accepted

-- With no slash at its end a prefix takes in its siblings.
sibling_accepted : path_under run_dir (codes "/tmp/run-evil/x") ≡ none
unfolding path_under
sibling_accepted = refl

flag_listed : lookup port_policy (codes "-sV") ≡ some none
unfolding lookup
flag_listed = refl

address_is_value : is_flag (codes "10.0.0.0/8") ≡ false
unfolding is_flag
address_is_value = refl

version_is_flag : is_flag (codes "-sV") ≡ true
unfolding is_flag
version_is_flag = refl

apply_args_fixed_example :
    apply_args (codes "-sV" ∷ codes "10.0.0.0/8" ∷ []) port_policy
    ≡ record { args = codes "-sV" ∷ codes "10.0.0.0/8" ∷ []; dropped = []; error = none }
apply_args_fixed_example =
    apply_args_fixed port_policy (free version_is_flag address_is_value flag_listed none_left)
