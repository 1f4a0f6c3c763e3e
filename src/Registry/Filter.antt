-- ===== src/Registry/Filter.antt =====
-- internal/registry/registry.go, `ApplyPolicy`: what reaches a tool's command line.
use gibson_tool_runner.Base.{
  Bytes, List, [], ◌∷◌, ◌++◌, none, some, ◌≡◌, ◌⊎◌, refl, ap, arith, map, Error, inl, inr,
}
use gibson_tool_runner.Policy.{Applied, apply_args}
use gibson_tool_runner.Policy.Allowed.{Allowed, none_left, apply_args-Allowed}
use gibson_tool_runner.Policy.Order.{denial, apply_args_nil}
use gibson_tool_runner.Policy.Groups.{groups}
use gibson_tool_runner.Registry.{
  Policies, lookup_args_policy, policy_or_nil, LogEvent, flag_denied, value_rejected, filtered,
  apply_policy_of, apply_policy,
}

filtered-cases :
    (tool : Bytes) (a : Applied) → ((filtered tool a).args ≡ a.args) ⊎ ((filtered tool a).args ≡ [])
unfolding filtered
filtered-cases tool a = ground arith

-- What `ApplyPolicy` returns consists of flags that the policy registered for the tool lists, with
-- accepted values behind the flags that have a validator, whatever the arguments. The policy is the
-- nil map if none is registered.
pub apply_policy-Allowed :
    (policies : Policies) (tool : Bytes) (args : List Bytes)
    → Allowed
        (policy_or_nil (lookup_args_policy policies tool))
        (apply_policy policies tool args).args
unfolding apply_policy apply_policy_of
apply_policy-Allowed policies tool args =
    let p = policy_or_nil (lookup_args_policy policies tool) in
    elim (filtered-cases tool (apply_args args p)) [
      | inl e ↦ rw e (apply_args-Allowed p args)
      | inr e ↦ rw e none_left
    ]

-- A tool without a registered policy gets no argument, and that is no error. The log has one denial
-- for each stray token and each flag of the arguments, in order, a flag with the value that came with it.
pub apply_policy_unregistered :
    (policies : Policies) (tool : Bytes) (args : List Bytes)
    → lookup_args_policy policies tool ≡ none
    → ((apply_policy policies tool args).args ≡ [])
      × ((apply_policy policies tool args).error ≡ none)
      × ((apply_policy policies tool args).log ≡ map (flag_denied tool) (map denial (groups args)))
unfolding apply_policy apply_policy_of filtered policy_or_nil
apply_policy_unregistered policies tool args h =
    let (no_args, no_error, reported) = apply_args_nil args in
    rw (h, no_error) (no_args, refl, ap (map (flag_denied tool)) reported)

-- An error of `ApplyPolicy` comes without arguments and is logged last, behind the denials.
pub apply_policy_rejects :
    (policies : Policies) (tool : Bytes) (args : List Bytes) (err : Error)
    → (apply_policy policies tool args).error ≡ some err
    → ((apply_policy policies tool args).args ≡ [])
      × ((denials : List LogEvent) × ((apply_policy policies tool args).log
            ≡ denials ++ (value_rejected tool err ∷ [])))
unfolding apply_policy apply_policy_of
apply_policy_rejects policies tool args err h =
    by_error (apply_args args (policy_or_nil (lookup_args_policy policies tool))) h
  where
    by_error :
        (a : Applied)
        → (filtered tool a).error ≡ some err
        → ((filtered tool a).args ≡ [])
          × ((denials : List LogEvent) × ((filtered tool a).log
                ≡ denials ++ (value_rejected tool err ∷ [])))
    by_error a e =
        unfold filtered in (ground arith, (map (flag_denied tool) a.dropped, ground arith))
