-- ===== src/Registry.antt =====
-- internal/registry/registry.go: the data that parsers share with the runner, and the three global
-- tables as one state. The mutex is not modelled: every registration happens in `init()`, before
-- `main`, and the rest only reads.
pub mod Catalog
pub mod Tables
pub mod Filter
use gibson_tool_runner.Base.{
  ℕ, Bytes, codes, Bool, true, false, List, [], ◌∷◌, ◌++◌, Option, none, some, Error, ℤ, ◌&&◌, ◌||◌,
  ltb, eqb, is_empty, index, ◌==◌, map, if◌then◌else◌,
}
use gibson_tool_runner.Policy.{ArgsPolicy, DroppedFlag, Applied, apply_args}
use gibson_tool_runner.Process.{World, Context}
use gibson_tool_runner.Graph.{DiscoveryResult}

pub record ExecuteRequest : Type 0 where
  pub target : Bytes
  pub args : List Bytes
  pub options : List (Bytes × Bytes)
  pub timeout : ℤ

pub data ParseQuality : Type 0 where
  unspecified structured partial raw failed : ParseQuality

-- A `*ExecuteResponse` that is not nil.
pub record ExecuteResponse : Type 0 where
  pub exit_code : ℤ
  pub stdout : Bytes
  pub stderr : Bytes
  pub parse_quality : ParseQuality
  pub discovery : Option DiscoveryResult

pub record ResourceHint : Type 0 where
  pub vcpu : ℕ
  pub memory : Bytes

-- `InputSchema`: every parser gives an object with typed properties and required names. A property
-- has a type, the type of its items if it is an array, and a description if it has one.
pub record Property : Type 0 where
  pub name : Bytes
  pub type_name : Bytes
  pub items : Option Bytes
  pub description : Option Bytes

pub record InputSchema : Type 0 where
  pub properties : List Property
  pub required : List Bytes

pub record CatalogEntry : Type 0 where
  pub name : Bytes
  pub version : Bytes
  pub description : Bytes
  pub tags : List Bytes
  pub input_schema : InputSchema
  pub output_proto_type : Bytes
  pub default_parse_quality : ParseQuality
  pub resources : ResourceHint
  pub default_timeout_seconds : ℕ

-- The global `policies`. `Execute` is handed this table, which `ApplyPolicy` reads.
abbrev pub Policies : Type 0
Policies = List (Bytes × ArgsPolicy)

-- The interface, without `OutputMessage`, which every parser answers with nil.
pub record Parser : Type 0 where
  pub describe : CatalogEntry
  pub execute : Policies → World → Context → ExecuteRequest → ExecuteResponse × Option Error

pub record Registry : Type 0 where
  pub parsers : List (Bytes × Parser)
  pub registry : List Parser
  pub policies : Policies

abbrev pub empty : Registry
empty = record { parsers = []; registry = []; policies = [] }

-- The new tables, or a panic with its message.
pub data Registered : Type 0 where
  panics : Bytes → List Bytes → Registered
  done : Registry → Registered

-- `m[k] = v`
module _ {ℓ} {V : Type ℓ} where
  unfoldable pub assign : Bytes → V → List (Bytes × V) → List (Bytes × V)
  unfolding ◌==◌
  assign k v [] = (k, v) ∷ []
  assign k v ((j, w) ∷ m) = if j == k then (k, v) ∷ m else (j, w) ∷ assign k v m

add_parser : Option Parser → Bytes → Parser → Registry → Registered
add_parser (some dup) name p r = panics (codes "registry: duplicate parser %q") (name ∷ [])
add_parser none name p r =
    done (record r { parsers = assign name p r.parsers; registry = r.registry ++ (p ∷ []) })

unfoldable pub register : Registry → Parser → Registered
unfolding add_parser
register r p =
    let name = p.describe.name in
    if is_empty name
    then panics (codes "registry: parser Describe().Name is empty") []
    else add_parser (index name r.parsers) name p r

unfoldable pub register_args_policy : Registry → Bytes → ArgsPolicy → Registered
register_args_policy r tool_name p =
    if is_empty tool_name
    then panics (codes "registry: RegisterArgsPolicy with empty tool name") []
    else done (record r { policies = assign tool_name p r.policies })

unfoldable pub lookup_args_policy : Policies → Bytes → Option ArgsPolicy
lookup_args_policy policies tool_name = index tool_name policies

-- The zero value of a missing key is the nil map.
unfoldable pub policy_or_nil : Option ArgsPolicy → ArgsPolicy
policy_or_nil none = none
policy_or_nil (some p) = p

-- The two structured events of `ApplyPolicy`.
pub data LogEvent : Type 0 where
  flag_denied : Bytes → DroppedFlag → LogEvent
  value_rejected : Bytes → Error → LogEvent

-- The results of `ApplyPolicy` and what it logs.
pub record Filtered : Type 0 where
  pub args : List Bytes
  pub error : Option Error
  pub log : List LogEvent

unfoldable pub filtered : Bytes → Applied → Filtered
filtered tool_name a =
    let denials = map (flag_denied tool_name) a.dropped in
    elim a.error [
      | none ↦ record { args = a.args; error = none; log = denials }
      | some err ↦ record {
        args = [];
        error = some err;
        log = denials ++ (value_rejected tool_name err ∷ []);
      }
    ]

-- `ApplyPolicy` with the policy already looked up.
unfoldable pub apply_policy_of : ArgsPolicy → Bytes → List Bytes → Filtered
apply_policy_of p tool_name args = filtered tool_name (apply_args args p)

unfoldable pub apply_policy : Policies → Bytes → List Bytes → Filtered
apply_policy policies tool_name args =
    apply_policy_of (policy_or_nil (lookup_args_policy policies tool_name)) tool_name args

unfoldable pub lookup : Registry → Bytes → Option Parser
lookup r name = index name r.parsers

-- `a < b` on strings.
unfoldable pub string_lt : Bytes → Bytes → Bool
string_lt _ [] = false
string_lt [] (y ∷ ys) = true
string_lt (x ∷ xs) (y ∷ ys) = ltb x y || eqb x y && string_lt xs ys

unfoldable pub by_name : CatalogEntry → CatalogEntry → Bool
by_name a b = string_lt a.name b.name

-- `Catalog`; `sort` is `sort.Slice` with a less function, a parameter.
unfoldable pub catalog :
    ((CatalogEntry → CatalogEntry → Bool) → List CatalogEntry → List CatalogEntry)
    → Registry
    → List CatalogEntry
catalog sort r = sort by_name (map (λ p. p.describe) r.registry)
