-- ===== src/Policy/Allowed.antt =====
-- internal/policy/policy.go: what the arguments that `ApplyArgs` lets through look like.
use gibson_tool_runner.Base.{
  Bytes, true, false, List, [], ◌∷◌, ◌++◌, Option, none, some, ◌≡◌, refl, ◌∙◌, arith, ◌⊎◌, inl, inr,
  Option-cases, Bool, mem, ◌==◌, ==_iff, All, ◌≢◌,
}
use gibson_tool_runner.Policy.{
  Validator, ArgsPolicy, Applied, is_flag, lookup, apply_args, paired_value,
}
use gibson_tool_runner.Policy.Groups.{
  Group, stray, flagged, tokens, groups, kept, validate, verdict_of, verdict, settle, judge,
  IsGrouped, groups-IsGrouped, groups_bare, groups_paired,
}
use gibson_tool_runner.Policy.Refinement.{apply_args-judge}

-- Argument lists made of allowed flags only: a flag without validator with or without a value, and
-- a flag with a validator that accepts the value behind it. No value looks like a flag.
pub data Allowed (p : ArgsPolicy) : List Bytes → Type 0 where
  none_left : Allowed p []
  bare :
      {flag : Bytes} {rest : List Bytes}
      → is_flag flag ≡ true
      → lookup p flag ≡ some none
      → Allowed p rest
      → Allowed p (flag ∷ rest)
  free :
      {flag value : Bytes} {rest : List Bytes}
      → is_flag flag ≡ true
      → is_flag value ≡ false
      → lookup p flag ≡ some none
      → Allowed p rest
      → Allowed p (flag ∷ value ∷ rest)
  checked :
      {flag value : Bytes} {validator : Validator} {rest : List Bytes}
      → is_flag flag ≡ true
      → is_flag value ≡ false
      → lookup p flag ≡ some (some validator)
      → validator value ≡ none
      → Allowed p rest
      → Allowed p (flag ∷ value ∷ rest)

module _ (p : ArgsPolicy) where
  settle_kept-Allowed :
      (toks : List Bytes) (rest : Applied)
      → Allowed p (toks ++ rest.args)
      → Allowed p rest.args
      → Allowed p (settle kept toks rest).args
  unfolding settle
  settle_kept-Allowed toks rest h k = elim (Option-cases rest.error) [
    | inl e ↦ rw e h
    | inr (err, e) ↦ rw e k
  ]

  settle-validate-Allowed :
      (validator : Validator) (flag : Bytes) (value : Option Bytes) (rest : Applied)
      → lookup p flag ≡ some (some validator)
      → IsGrouped (flagged flag value)
      → Allowed p rest.args
      → Allowed p (settle (validate validator flag value) (tokens (flagged flag value)) rest).args
  unfolding validate
  settle-validate-Allowed validator flag none rest l h k = unfold settle in none_left
  settle-validate-Allowed validator flag (some value) rest l h k =
      elim (Option-cases (validator value)) [
        | inl e ↦
            rw (e, validate)
              (settle_kept-Allowed (flag ∷ value ∷ []) rest (checked h.0 h.1 l e k) k)
        | inr (err, e) ↦ rw (e, validate) (unfold settle in none_left)
      ]

  settle_free-Allowed :
      (flag : Bytes) (value : Option Bytes) (rest : Applied)
      → lookup p flag ≡ some none
      → IsGrouped (flagged flag value)
      → Allowed p rest.args
      → Allowed p (settle kept (tokens (flagged flag value)) rest).args
  settle_free-Allowed flag none rest l h k = settle_kept-Allowed (flag ∷ []) rest (bare h l k) k
  settle_free-Allowed flag (some value) rest l h k =
      settle_kept-Allowed (flag ∷ value ∷ []) rest (free h.0 h.1 l k) k

  settle-Allowed :
      (g : Group) (rest : Applied)
      → IsGrouped g
      → Allowed p rest.args
      → Allowed p (settle (verdict p g) (tokens g) rest).args
  unfolding verdict verdict_of
  settle-Allowed (stray tok) rest h k = unfold settle in k
  settle-Allowed (flagged flag value) rest h k = by_lookup (lookup p flag) refl
    where
      by_lookup :
          (l : Option (Option Validator))
          → lookup p flag ≡ l
          → Allowed p (settle (verdict_of l flag value) (tokens (flagged flag value)) rest).args
      by_lookup none e = unfold settle in k
      by_lookup (some none) e = settle_free-Allowed flag value rest e h k
      by_lookup (some (some validator)) e = settle-validate-Allowed validator flag value rest e h k

  judge-Allowed : (gs : List Group) → All IsGrouped gs → Allowed p (judge p gs).args
  unfolding judge
  judge-Allowed [] h = none_left
  judge-Allowed (g ∷ gs) h = settle-Allowed g (judge p gs) h.0 (judge-Allowed gs h.1)

  -- Whatever the arguments, what `ApplyArgs` returns consists of flags that the policy lists, a flag
  -- with a validator being followed by a value that its validator accepts. Stray tokens, unlisted
  -- flags and their values are gone.
  pub apply_args-Allowed : (args : List Bytes) → Allowed p (apply_args args p).args
  apply_args-Allowed args =
      rw (apply_args-judge args p) (judge-Allowed (groups args) (groups-IsGrouped args))

  -- In an allowed list every token that looks like a flag is listed.
  pub Allowed-listed :
      {xs : List Bytes}
      → Allowed p xs
      → All (λ tok. (is_flag tok ≡ false) ⊎ (lookup p tok ≢ none)) xs
  Allowed-listed none_left = tt
  Allowed-listed (bare f l a) = (inr (λ e. cc), Allowed-listed a)
  Allowed-listed (free f v l a) = (inr (λ e. cc), (inl v, Allowed-listed a))
  Allowed-listed (checked f v l c a) = (inr (λ e. cc), (inl v, Allowed-listed a))

  paired_value-Allowed : {xs : List Bytes} → Allowed p xs → paired_value xs ≡ none
  unfolding paired_value
  paired_value-Allowed none_left = refl
  paired_value-Allowed (bare f l a) = rw f
  paired_value-Allowed (free f v l a) = rw f
  paired_value-Allowed (checked f v l c a) = rw f

  judge-groups-Allowed :
      {xs : List Bytes}
      → Allowed p xs
      → judge p (groups xs) ≡ record { args = xs; dropped = []; error = none }
  unfolding judge verdict verdict_of validate settle
  judge-groups-Allowed none_left = unfold groups in refl
  judge-groups-Allowed (bare {flag} {rest} f l a) =
      rw (groups_bare flag rest f (paired_value-Allowed a)) (ground (arith, judge-groups-Allowed a))
  judge-groups-Allowed (free {flag} {value} {rest} f v l a) =
      rw (groups_paired flag value rest f v) (ground (arith, judge-groups-Allowed a))
  judge-groups-Allowed (checked {flag} {value} {validator} {rest} f v l c a) =
      rw (groups_paired flag value rest f v) (ground (arith, judge-groups-Allowed a))

  -- Every allowed list passes `ApplyArgs` unchanged: nothing is dropped and there is no error. In such a
  -- list a flag with a nil validator may have any one token behind it that does not look like a flag.
  pub apply_args_fixed :
      {xs : List Bytes}
      → Allowed p xs
      → apply_args xs p ≡ record { args = xs; dropped = []; error = none }
  apply_args_fixed {xs} a = apply_args-judge xs p ∙ judge-groups-Allowed a

  -- Filtering twice is filtering once, for every argument list: the second pass drops nothing and
  -- reports no error.
  pub apply_args_idem :
      (args : List Bytes)
      → apply_args (apply_args args p).args p
        ≡ record { args = (apply_args args p).args; dropped = []; error = none }
  apply_args_idem args = apply_args_fixed (apply_args-Allowed args)

  Allowed-mem :
      (flag : Bytes) (xs : List Bytes)
      → is_flag flag ≡ true
      → lookup p flag ≡ none
      → All (λ tok. (is_flag tok ≡ false) ⊎ (lookup p tok ≢ none)) xs
      → mem flag xs ≡ false
  unfolding mem
  Allowed-mem flag [] f l h = refl
  Allowed-mem flag (x ∷ xs) f l h = rw (other (flag == x) refl, Allowed-mem flag xs f l h.1)
    where
      other : (b : Bool) → (flag == x) ≡ b → (flag == x) ≡ false
      other false e = e
      other true e = let same = (==_iff flag x).0 e in absurd (ground arith)

  -- A flag that the policy does not list is nowhere in an allowed list.
  pub Allowed_unlisted :
      {xs : List Bytes}
      → Allowed p xs
      → (flag : Bytes) → is_flag flag ≡ true
      → lookup p flag ≡ none
      → mem flag xs ≡ false
  Allowed_unlisted a flag f l = Allowed-mem flag _ f l (Allowed-listed a)

  -- A flag that the policy does not list appears nowhere in the result, neither as a flag nor as a
  -- value, whatever the arguments.
  pub apply_args_unlisted :
      (args : List Bytes) (flag : Bytes)
      → is_flag flag ≡ true
      → lookup p flag ≡ none
      → mem flag (apply_args args p).args ≡ false
  apply_args_unlisted args flag f l = Allowed_unlisted (apply_args-Allowed args) flag f l
