-- ===== src/Runner/Input.antt =====
-- cmd/gibson-runner/main.go, `decodeInputJSON`: the request that an object gives.
pub mod Members
use gibson_tool_runner.Base.{
  Bytes, codes, false, ◌||◌, Bool-cases, List, [], ◌∷◌, Option, none, some, Error, wrapping, ◌≡◌,
  ◌⊎◌, refl, sym, ap, ◌∙◌, subst, arith, pos, map, mem, index, is_empty, is_empty-true, ◌==◌,
  ==_iff, Option-cases, inl, inr, if◌then◌else◌,
}
use gibson_tool_runner.Json.{Value, null, bool, number, text, array, object}
use gibson_tool_runner.Json.Fields.{set_string}
use gibson_tool_runner.Json.Maps.{unmarshal_map, settled, unmarshal_string, unmarshal_strings}
use gibson_tool_runner.Json.Maps.Laws.{unmarshal_map-Distinct}
use gibson_tool_runner.Registry.{ExecuteRequest}
use gibson_tool_runner.Registry.Tables.{Distinct}
use gibson_tool_runner.Parsers.Lines.{Decoded, record_of, malformed}
use gibson_tool_runner.Parsers.Lines.Laws.{Decoded-cases}
use gibson_tool_runner.Runner.Input.Members.{keys, index-erase, Distinct-erase, index-mem}
use gibson_tool_runner.Runner.{
  erase, empty_request, options_of, with_options, with_args, with_target, decode_input_json,
}

-- The option that a member gives: a string, and for `null` the empty one.
abbrev pub string_of : Option Value → Option Bytes
string_of (some (text s)) = some s
string_of (some null) = some []
string_of _ = none

abbrev string_in : Decoded Bytes → Option Bytes
string_in (record_of s) = some s
string_in (malformed e) = none

string_in_lem : (raw : Value) → string_in (unmarshal_string raw) ≡ string_of (some raw)
unfolding unmarshal_string settled set_string
string_in_lem null = refl
string_in_lem (bool b) = refl
string_in_lem (number literal) = refl
string_in_lem (text s) = refl
string_in_lem (array is) = refl
string_in_lem (object ms) = refl

index-options_of :
    (k : Bytes) (m : List (Bytes × Value))
    → Distinct (keys m)
    → index k (options_of m) ≡ string_of (index k m)
unfolding index options_of mem
index-options_of k [] d = refl
index-options_of k ((i, raw) ∷ m) d =
    let rest = index-options_of k m d.1 in
    let given = string_in_lem raw in
    elim (Decoded-cases (unmarshal_string raw)) [
      | inl (s, e) ↦ ground (arith, ==_iff i k)
      | inr (err, e) ↦ ground (arith, ==_iff i k, index-mem k m)
    ]

-- What the members of an object make of the fields of a request.
pub record FromMembers (m : List (Bytes × Value)) (req : ExecuteRequest) : Type 0 where
  pub target :
      (index (codes "target") m ≡ none) × (req.target ≡ [])
      ⊎ (raw : Value) × (index (codes "target") m ≡ some raw)
        × (unmarshal_string raw ≡ record_of req.target)
  pub args :
      (index (codes "args") m ≡ none) × (req.args ≡ [])
      ⊎ (raw : Value) × (index (codes "args") m ≡ some raw)
        × (unmarshal_strings raw ≡ record_of req.args)
  pub options :
      (k : Bytes)
      → index k req.options
        ≡ (if k == codes "target" || k == codes "args" then none else string_of (index k m))
  pub no_timeout : req.timeout ≡ pos 0

-- The ways in which the members are read.
pub data Decodes (m : List (Bytes × Value)) (out : Decoded ExecuteRequest) : Type 0 where
  read : (req : ExecuteRequest) → FromMembers m req → out ≡ record_of req → Decodes m out
  bad_target :
      (raw : Value) (e : Error)
      → index (codes "target") m ≡ some raw
      → unmarshal_string raw ≡ malformed e
      → out ≡ malformed (wrapping (codes "input_json.target: %w") [] e)
      → Decodes m out
  bad_args :
      (raw : Value) (e : Error)
      → index (codes "args") m ≡ some raw
      → unmarshal_strings raw ≡ malformed e
      → out ≡ malformed (wrapping (codes "input_json.args: %w") [] e)
      → Decodes m out

-- The members that are no field of their own.
Leaves : List (Bytes × Value) → List (Bytes × Value) → Type 0
Leaves all m =
    (k : Bytes)
    → index k m ≡ (if k == codes "target" || k == codes "args" then none else index k all)

index-options :
    (all m : List (Bytes × Value))
    → Distinct (keys m)
    → Leaves all m
    → (k : Bytes)
    → index k (options_of m)
      ≡ (if k == codes "target" || k == codes "args" then none else string_of (index k all))
unfolding Leaves
index-options all m d leaves k = elim (Bool-cases (k == codes "target" || k == codes "args")) [
  | inl e ↦ ground (arith, index-options_of k m d, leaves k)
  | inr e ↦ ground (arith, index-options_of k m d, leaves k)
]

module _ (all m : List (Bytes × Value)) (d : Distinct (keys m))
    (same : (k : Bytes) → index k m ≡ (if k == codes "target" then none else index k all)) where
  index-args : index (codes "args") all ≡ index (codes "args") m
  unfolding ◌==◌
  index-args = sym (same (codes "args"))

  missing-Leaves : index (codes "args") m ≡ none → Leaves all m
  unfolding Leaves
  missing-Leaves missing k = elim (Bool-cases (k == codes "args")) [
    | inl e ↦
        let none_here : index k m ≡ none =
          ap (λ j. index j m) ((==_iff k (codes "args")).0 e) ∙ missing in
        ground arith
    | inr e ↦ ground (arith, same k)
  ]

  erase-Leaves : Leaves all (erase (codes "args") m)
  unfolding Leaves
  erase-Leaves k = ground (arith, same k, index-erase k (codes "args") m)

-- The part behind the target, on the members that are left.
with_args-Decodes :
    (all m : List (Bytes × Value)) (req : ExecuteRequest)
    → Distinct (keys m)
    → ((k : Bytes) → index k m ≡ (if k == codes "target" then none else index k all))
    → (index (codes "target") all ≡ none) × (req.target ≡ [])
      ⊎ (raw : Value) × (index (codes "target") all ≡ some raw)
        × (unmarshal_string raw ≡ record_of req.target)
    → req.args ≡ []
    → req.timeout ≡ pos 0
    → Decodes all (with_args req m)
unfolding with_args with_options
with_args-Decodes all m req d same target no_args no_timeout =
    let here = index-args all m d same in
    elim (Option-cases (index (codes "args") m)) [
      | inl missing ↦
          read (record req { options = options_of m })
            (record {
              target = target;
              args = inl (here ∙ missing, no_args);
              options = index-options all m d (missing-Leaves all m d same missing);
              no_timeout = no_timeout;
            })
            (ground arith)
      | inr (raw, found) ↦ elim (Decoded-cases (unmarshal_strings raw)) [
        | inr (err, bad) ↦ bad_args raw err (here ∙ found) bad (ground arith)
        | inl (args, good) ↦
            let left = erase (codes "args") m in
            read (record req { args = args; options = options_of left })
              (record {
                target = target;
                args = inr (raw, here ∙ found, good);
                options =
                    index-options all left (Distinct-erase (codes "args") m d)
                      (erase-Leaves all m d same);
                no_timeout = no_timeout;
              })
              (ground arith)
      ]
    ]

with_target-Decodes : (m : List (Bytes × Value)) → Distinct (keys m) → Decodes m (with_target m)
unfolding with_target
with_target-Decodes m d = elim (Option-cases (index (codes "target") m)) [
  | inl missing ↦
      rw (missing, with_target)
        (with_args-Decodes m m empty_request d (whole missing) (inl (missing, refl)) refl refl)
  | inr (raw, found) ↦ elim (Decoded-cases (unmarshal_string raw)) [
    | inr (err, bad) ↦ bad_target raw err found bad (ground arith)
    | inl (target, good) ↦ subst (Decodes m) (sym (on_target raw target found good)) (
        with_args-Decodes m (erase (codes "target") m) (record empty_request { target = target })
          (Distinct-erase (codes "target") m d) (λ k. index-erase k (codes "target") m)
          (inr (raw, found, good)) refl refl)
  ]
]
  where
    whole :
        index (codes "target") m ≡ none
        → (k : Bytes) → index k m ≡ (if k == codes "target" then none else index k m)
    whole missing k = elim (Bool-cases (k == codes "target")) [
      | inl e ↦
          let none_here : index k m ≡ none =
            ap (λ j. index j m) ((==_iff k (codes "target")).0 e) ∙ missing in
          ground arith
      | inr e ↦ ground arith
    ]

    on_target :
        (raw : Value) (target : Bytes)
        → index (codes "target") m ≡ some raw
        → unmarshal_string raw ≡ record_of target
        → with_target m
          ≡ with_args (record empty_request { target = target }) (erase (codes "target") m)
    on_target raw target found good = ground arith

-- The ways in which a text is read.
pub data DecodesText (input_json : Bytes) (out : Decoded ExecuteRequest) : Type 0 where
  no_text : input_json ≡ [] → out ≡ record_of empty_request → DecodesText input_json out
  no_object :
      (e : Error)
      → unmarshal_map input_json ≡ malformed e
      → out ≡ malformed (wrapping (codes "unmarshal input_json: %w") [] e)
      → DecodesText input_json out
  of_object :
      (m : List (Bytes × Value))
      → unmarshal_map input_json ≡ record_of m
      → Decodes m out
      → DecodesText input_json out

-- `decodeInputJSON` reads every text in one of these ways. The empty text gives the empty request, and a
-- text that is no JSON object, nor `null`, an error. For an object, whose last member counts under each
-- name, it fails if `target` is neither a string nor `null`, or `args` neither a list of these nor `null`.
-- Otherwise these two, or the empty ones where they are missing, are the fields of the request; each other
-- member that is a string is an option under its name, one that is `null` an empty option, every other one
-- is dropped, and no timeout is set.
pub decode_input_json-DecodesText :
    (input_json : Bytes) → DecodesText input_json (decode_input_json input_json)
unfolding decode_input_json
decode_input_json-DecodesText input_json = elim (Bool-cases (is_empty input_json)) [
  | inl e ↦ no_text (is_empty-true input_json e) (ground arith)
  | inr full ↦ elim (Decoded-cases (unmarshal_map input_json)) [
    | inr (err, e) ↦ no_object err e (ground arith)
    | inl (m, e) ↦ of_object m e (
        rw (full, e, decode_input_json)
          (with_target-Decodes m (unmarshal_map-Distinct input_json m e)))
  ]
]
