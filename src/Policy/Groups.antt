-- ===== src/Policy/Groups.antt =====
-- internal/policy/policy.go, `ApplyArgs` specified with no index and no accumulators: the tokens
-- are grouped into stray tokens and flags with or without a value, and each group is judged.
use gibson_tool_runner.Base.{
  Bytes, Bool, true, false, List, [], ◌∷◌, ◌++◌, Option, none, some, Error, message, wrapping,
  codes, ◌≡◌, refl, ◌∙◌, arith, if◌then◌else◌, Bool-cases, All, inl, inr,
}
use gibson_tool_runner.Policy.{
  not_in_allowlist, Validator, ArgsPolicy, DroppedFlag, Applied, is_flag, lookup, stray_token,
  paired_value,
}

pub data Group : Type 0 where
  stray : Bytes → Group
  flagged : Bytes → Option Bytes → Group

abbrev pub tokens : Group → List Bytes
tokens (stray tok) = tok ∷ []
tokens (flagged flag none) = flag ∷ []
tokens (flagged flag (some value)) = flag ∷ value ∷ []

abbrev pub flatten : List Group → List Bytes
flatten [] = []
flatten (g ∷ gs) = tokens g ++ flatten gs

-- `tok` with what groups the tokens behind it make: a stray token becomes the value of a flag.
abbrev pub attach : Bytes → List Group → List Group
attach tok (stray value ∷ gs) = flagged tok (some value) ∷ gs
attach tok gs = flagged tok none ∷ gs

unfoldable pub groups : List Bytes → List Group
groups [] = []
groups (tok ∷ rest) = let gs = groups rest in if is_flag tok then attach tok gs else stray tok ∷ gs

-- Grouping loses and reorders nothing.
pub flatten-groups : (args : List Bytes) → flatten (groups args) ≡ args
unfolding groups
flatten-groups [] = refl
flatten-groups (tok ∷ rest) = elim (Bool-cases (is_flag tok)) [
  | inl f ↦ rw f (flat (groups rest) ∙ (λ i. tok ∷ flatten-groups rest i))
  | inr s ↦ rw s (λ i. tok ∷ flatten-groups rest i)
]
  where
    flat : (gs : List Group) → flatten (attach tok gs) ≡ tok ∷ flatten gs
    flat [] = refl
    flat (stray value ∷ gs) = refl
    flat (flagged flag value ∷ gs) = refl

-- Three ways in which a list of tokens begins with a group.
module _ (tok : Bytes) where
  attach-attach :
      (next : Bytes) (gs : List Group)
      → attach tok (attach next gs) ≡ flagged tok none ∷ attach next gs
  attach-attach next [] = refl
  attach-attach next (stray value ∷ gs) = refl
  attach-attach next (flagged flag value ∷ gs) = refl

  pub groups_stray :
      (rest : List Bytes) → is_flag tok ≡ false → groups (tok ∷ rest) ≡ stray tok ∷ groups rest
  unfolding groups
  groups_stray rest s = rw s

  pub groups_paired :
      (value : Bytes) (rest : List Bytes)
      → is_flag tok ≡ true
      → is_flag value ≡ false
      → groups (tok ∷ value ∷ rest) ≡ flagged tok (some value) ∷ groups rest
  unfolding groups
  groups_paired value rest f v = rw (f, v)

  pub groups_bare :
      (rest : List Bytes)
      → is_flag tok ≡ true
      → paired_value rest ≡ none
      → groups (tok ∷ rest) ≡ flagged tok none ∷ groups rest
  unfolding groups paired_value
  groups_bare [] f v = rw f
  groups_bare (next ∷ rest) f v = elim (Bool-cases (is_flag next)) [
    | inl n ↦ rw (f, n) (attach-attach next (groups rest))
    | inr n ↦ absurd (ground arith)
  ]

-- A stray token and a value are no flags, and the flag of a group is one.
abbrev pub IsGrouped : Group → Type 0
IsGrouped (stray tok) = is_flag tok ≡ false
IsGrouped (flagged flag none) = is_flag flag ≡ true
IsGrouped (flagged flag (some value)) = (is_flag flag ≡ true) × (is_flag value ≡ false)

attach-IsGrouped :
    (tok : Bytes) (gs : List Group)
    → is_flag tok ≡ true
    → All IsGrouped gs
    → All IsGrouped (attach tok gs)
attach-IsGrouped tok [] f h = (f, tt)
attach-IsGrouped tok (stray value ∷ gs) f h = ((f, h.0), h.1)
attach-IsGrouped tok (flagged flag value ∷ gs) f h = (f, h)

pub groups-IsGrouped : (args : List Bytes) → All IsGrouped (groups args)
unfolding groups
groups-IsGrouped [] = tt
groups-IsGrouped (tok ∷ rest) = elim (Bool-cases (is_flag tok)) [
  | inl f ↦ rw f (attach-IsGrouped tok (groups rest) f (groups-IsGrouped rest))
  | inr s ↦ rw s (s, groups-IsGrouped rest)
]

-- What becomes of a group.
pub data Verdict : Type 0 where
  kept : Verdict
  denied : DroppedFlag → Verdict
  rejected : Error → Verdict

-- A validated flag needs a value that its validator accepts.
unfoldable pub validate : Validator → Bytes → Option Bytes → Verdict
validate validator flag none =
    rejected (message (codes "flag %q requires a value but none was provided") (flag ∷ []))
validate validator flag (some value) = elim (validator value) [
  | none ↦ kept
  | some err ↦ rejected (wrapping (codes "flag %q value rejected: %w") (flag ∷ []) err)
]

abbrev pub is_some : Option Bytes → Bool
is_some none = false
is_some (some _) = true

abbrev value_or_empty : Option Bytes → Bytes
value_or_empty none = []
value_or_empty (some value) = value

-- A flag that is not listed is denied with its value, one without validator is kept with its value.
unfoldable pub verdict_of : Option (Option Validator) → Bytes → Option Bytes → Verdict
unfolding validate
verdict_of none flag value = denied (not_in_allowlist flag (value_or_empty value))
verdict_of (some none) flag value = kept
verdict_of (some (some validator)) flag value = validate validator flag value

unfoldable pub verdict : ArgsPolicy → Group → Verdict
verdict p (stray tok) = denied (stray_token tok)
verdict p (flagged flag value) = verdict_of (lookup p flag) flag value

-- A verdict on a group with these tokens, and what comes of the groups behind it. A rejection
-- leaves no arguments, and the denials before it.
unfoldable pub settle : Verdict → List Bytes → Applied → Applied
settle kept toks rest = elim rest.error [
  | none ↦ record rest { args = toks ++ rest.args }
  | some err ↦ rest
]
settle (denied d) toks rest = record rest { dropped = d ∷ rest.dropped }
settle (rejected err) toks rest = record { args = []; dropped = []; error = some err }

unfoldable pub judge : ArgsPolicy → List Group → Applied
judge p [] = record { args = []; dropped = []; error = none }
judge p (g ∷ gs) = settle (verdict p g) (tokens g) (judge p gs)
