-- ===== src/Policy/Order.antt =====
-- internal/policy/policy.go: the order of what `ApplyArgs` lets through, and the nil policy.
use gibson_tool_runner.Base.{
  Bytes, Error, List, [], ◌∷◌, ◌++◌, Option, none, some, ◌≡◌, refl, Subseq, done, keep, skip, map,
  codes, arith,
}
use gibson_tool_runner.Policy.{
  ArgsPolicy, DroppedFlag, Applied, apply_args, lookup, stray_token, not_in_allowlist,
}
use gibson_tool_runner.Policy.Groups.{
  Group, stray, flagged, tokens, flatten, groups, flatten-groups, Verdict, kept, denied, rejected,
  verdict_of, verdict, settle, judge,
}
use gibson_tool_runner.Policy.Refinement.{apply_args-judge}

none-Subseq : (xs : List Bytes) → Subseq [] xs
none-Subseq [] = done
none-Subseq (x ∷ xs) = skip (none-Subseq xs)

skip_all : (toks : List Bytes) {ys xs : List Bytes} → Subseq ys xs → Subseq ys (toks ++ xs)
skip_all [] s = s
skip_all (tok ∷ toks) s = skip (skip_all toks s)

keep_all :
    (toks : List Bytes) {ys xs : List Bytes} → Subseq ys xs → Subseq (toks ++ ys) (toks ++ xs)
keep_all [] s = s
keep_all (tok ∷ toks) s = keep (keep_all toks s)

settle-Subseq :
    (v : Verdict) (toks : List Bytes) (rest : Applied) (xs : List Bytes)
    → Subseq rest.args xs
    → Subseq (settle v toks rest).args (toks ++ xs)
unfolding settle
settle-Subseq kept toks rest xs s = by_error rest.error
  where
    by_error :
        (e : Option Error)
        → Subseq
            (elim e as (λ _. Applied) [
              | none ↦ record rest { args = toks ++ rest.args }
              | some err ↦ rest
            ]).args
            (toks ++ xs)
    by_error none = keep_all toks s
    by_error (some err) = skip_all toks s
settle-Subseq (denied d) toks rest xs s = skip_all toks s
settle-Subseq (rejected err) toks rest xs s = none-Subseq (toks ++ xs)

judge-Subseq : (p : ArgsPolicy) (gs : List Group) → Subseq (judge p gs).args (flatten gs)
unfolding judge
judge-Subseq p [] = done
judge-Subseq p (g ∷ gs) =
    settle-Subseq (verdict p g) (tokens g) (judge p gs) (flatten gs) (judge-Subseq p gs)

-- `ApplyArgs` invents no token and keeps the order: its result arises from the arguments by
-- leaving tokens out.
pub apply_args-Subseq : (args : List Bytes) (p : ArgsPolicy) → Subseq (apply_args args p).args args
apply_args-Subseq args p = rw apply_args-judge (rw flatten-groups at (judge-Subseq p (groups args)))

-- How a token group is reported that no policy lists: with the value that came with it, and why.
abbrev pub denial : Group → DroppedFlag
denial (stray tok) = record {
  flag = tok;
  value = [];
  reason = codes "stray positional token; use req.Target for the scan subject";
}
denial (flagged flag none) = record {
  flag = flag;
  value = [];
  reason = codes "flag not in tool allowlist";
}
denial (flagged flag (some value)) = record {
  flag = flag;
  value = value;
  reason = codes "flag not in tool allowlist";
}

judge_nil :
    (gs : List Group)
    → ((judge none gs).args ≡ [])
      × ((judge none gs).error ≡ none)
      × ((judge none gs).dropped ≡ map denial gs)
unfolding judge verdict verdict_of settle lookup stray_token not_in_allowlist
judge_nil [] = (refl, refl, refl)
judge_nil (stray tok ∷ gs) = ground (arith, judge_nil gs)
judge_nil (flagged flag none ∷ gs) = ground (arith, judge_nil gs)
judge_nil (flagged flag (some value) ∷ gs) = ground (arith, judge_nil gs)

-- Without a policy nothing passes and nothing is an error: each stray token and each flag is
-- reported as one dropped flag, in order.
pub apply_args_nil :
    (args : List Bytes)
    → ((apply_args args none).args ≡ [])
      × ((apply_args args none).error ≡ none)
      × ((apply_args args none).dropped ≡ map denial (groups args))
apply_args_nil args = rw apply_args-judge (judge_nil (groups args))
