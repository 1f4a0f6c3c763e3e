-- ===== src/Policy.antt =====
-- internal/policy/policy.go: the argument allowlist. `ApplyArgs` is `apply_args`, its loop
-- `apply_loop` with `i++` as a flag that skips the next token.
pub mod Paths
pub mod Groups
pub mod Refinement
pub mod Allowed
pub mod Order
use gibson_tool_runner.Base.{
  Bytes, codes, Bool, true, false, not, ◌&&◌, List, [], ◌∷◌, ◌++◌, Option, none, some, Error,
  message, wrapping, is_empty, has_prefix, contains, mem, index, if◌then◌else◌,
}

-- The error of a value, or `none` to accept it.
abbrev pub Validator : Type 0
Validator = Bytes → Option Error

-- An inner `none` is a nil validator; an outer `none` is the nil map.
abbrev pub ArgsPolicy : Type 0
ArgsPolicy = Option (List (Bytes × Option Validator))

pub record DroppedFlag : Type 0 where
  pub flag : Bytes
  pub value : Bytes
  pub reason : Bytes

-- The three results of `ApplyArgs`; a nil slice is the empty list.
pub record Applied : Type 0 where
  pub args : List Bytes
  pub dropped : List DroppedFlag
  pub error : Option Error

-- `strings.HasPrefix(tok, "-")`
unfoldable pub is_flag : Bytes → Bool
unfolding has_prefix
is_flag tok = has_prefix tok (codes "-")

-- `lookup`: `none` is "not allowed".
unfoldable pub lookup : ArgsPolicy → Bytes → Option (Option Validator)
unfolding index
lookup none flag = none
lookup (some p) flag = index flag p

unfoldable pub stray_token : Bytes → DroppedFlag
stray_token tok = record {
  flag = tok;
  value = [];
  reason = codes "stray positional token; use req.Target for the scan subject";
}

unfoldable pub not_in_allowlist : Bytes → Bytes → DroppedFlag
not_in_allowlist tok value = record {
  flag = tok;
  value = value;
  reason = codes "flag not in tool allowlist";
}

-- What one round of the loop does. The Bool says whether the round consumes the next token too.
pub data Round : Type 0 where
  dropping : Bool → DroppedFlag → Round
  passing : Bool → List Bytes → Round
  failing : Error → Round

-- The paired value of a flag: the next token, unless it is a flag itself.
unfoldable pub paired_value : List Bytes → Option Bytes
paired_value [] = none
paired_value (next ∷ _) = if is_flag next then none else some next

-- The part of a round behind the lookup: validator, token, and paired value.
unfoldable pub check_value : Option Validator → Bytes → Option Bytes → Round
check_value none tok none = passing false (tok ∷ [])
check_value none tok (some value) = passing true (tok ∷ value ∷ [])
check_value (some validator) tok none =
    failing (message (codes "flag %q requires a value but none was provided") (tok ∷ []))
check_value (some validator) tok (some value) = elim (validator value) [
  | none ↦ passing true (tok ∷ value ∷ [])
  | some err ↦ failing (wrapping (codes "flag %q value rejected: %w") (tok ∷ []) err)
]

-- The part of a round that begins at the lookup of a flag.
unfoldable pub check_flag : Option (Option Validator) → Bytes → Option Bytes → Round
unfolding check_value
check_flag none tok none = dropping false (not_in_allowlist tok [])
check_flag none tok (some value) = dropping true (not_in_allowlist tok value)
check_flag (some validator) tok value = check_value validator tok value

unfoldable pub round : ArgsPolicy → Bytes → List Bytes → Round
unfolding paired_value check_flag
round p tok rest =
    if not (is_flag tok)
    then dropping false (stray_token tok)
    else check_flag (lookup p tok) tok (paired_value rest)

-- The loop: the tokens left, whether the next one is consumed already, and the two slices so far.
unfoldable pub apply_loop : ArgsPolicy → List Bytes → Bool → List Bytes → List DroppedFlag → Applied
apply_loop p [] skip out dropped = record { args = out; dropped = dropped; error = none }
apply_loop p (tok ∷ rest) true out dropped = apply_loop p rest false out dropped
apply_loop p (tok ∷ rest) false out dropped = elim (round p tok rest) [
  | dropping skip d ↦ apply_loop p rest skip out (dropped ++ (d ∷ []))
  | passing skip toks ↦ apply_loop p rest skip (out ++ toks) dropped
  | failing err ↦ record { args = []; dropped = dropped; error = some err }
]

unfoldable pub apply_args : List Bytes → ArgsPolicy → Applied
apply_args args p = apply_loop p args false [] []

-- The validators.
unfoldable pub allow_any : Validator
unfolding is_empty
allow_any value =
    if is_empty value then some (message (codes "value must be non-empty") []) else none

unfoldable pub allow_enum : List Bytes → Validator
unfolding mem
allow_enum allowed value =
    if mem value allowed
    then none
    else some (message (codes "value %q not in allowed set") (value ∷ []))

unfoldable pub path_under : Bytes → Validator
unfolding is_empty contains has_prefix
path_under prefix value =
    if is_empty value
    then some (message (codes "path must be non-empty") [])
    else if contains value (codes "..")
    then some (message (codes "path %q contains '..' traversal") (value ∷ []))
    else if not (has_prefix value prefix)
    then some (message (codes "path %q is not under tempdir %q") (value ∷ prefix ∷ []))
    else none
