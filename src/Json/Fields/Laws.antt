-- ===== src/Json/Fields/Laws.antt =====
-- encoding/json: a struct that is written as an object under its tags reads back.
use gibson_tool_runner.Base.{
  ℕ, ◌≤◌, Bytes, List, [], ◌∷◌, Option, none, some, ◌≡◌, refl, sym, ◌∙◌, arith, All, Option-cases,
  inl, inr,
}
use gibson_tool_runner.Json.{
  Value, Items, Members, text, array, object, no_items, item, no_members, member,
}
use gibson_tool_runner.Json.Parser.{max_depth}
use gibson_tool_runner.Json.Parser.Laws.{value_of-print}
use gibson_tool_runner.Json.Print.{print, IsGood}
use gibson_tool_runner.Json.Fields.{
  Setter, Field, set_string, set_items, cons_set, field_of, set_members, set_struct, set_value,
  unmarshal,
}
use gibson_tool_runner.Parsers.Lines.{record_of}

module _ {S : Type 0} (fs : List (Field S)) where
  abbrev keep : Option (Field S) → Bytes → Value → Members → Members
  keep none k v ms = ms
  keep (some f) k v ms = member k v ms

  -- The members of an object that have a field.
  unfoldable pub known : Members → Members
  known no_members = no_members
  known (member k v ms) = keep (field_of k fs) k v (known ms)

  pub set_members-known : (ms : Members) (s : S) → set_members fs (known ms) s ≡ set_members fs ms s
  unfolding set_members known
  set_members-known no_members s = refl
  set_members-known (member k v ms) s = elim (Option-cases (field_of k fs)) [
    | inl e ↦ ground (arith, e, set_members-known ms s)
    | inr (f, e) ↦ elim (Option-cases (f.put v s)) [
      | inl e' ↦ ground (arith, e, e')
      | inr (s', e') ↦ ground (arith, e, e', set_members-known ms s')
    ]
  ]

  -- A line that is printed from an object decodes to what its members with a field say.
  pub unmarshal-print :
      (n : ℕ) (ms : Members) (zero_value s : S)
      → n ≤ max_depth
      → IsGood n (object ms)
      → set_members fs (known ms) zero_value ≡ some s
      → unmarshal fs zero_value (print (object ms)) ≡ record_of s
  unfolding unmarshal
  unmarshal-print n ms zero_value s h g e =
      let e' = sym (set_members-known ms zero_value) ∙ e in
      rw (value_of-print n (object ms) h g) unfold set_value set_struct in rw e' refl

-- Elements that read back one by one.
abbrev pub to_items : {A : Type 0} → (A → Value) → List A → Items
to_items f [] = no_items
to_items f (x ∷ xs) = item (f x) (to_items f xs)

pub set_items-to_items :
    {A : Type 0} (zero_value : A) (set : Setter A) (f : A → Value) (P : A → Type 0)
    → ((x : A) → P x → set (f x) zero_value ≡ some x)
    → (xs : List A) → All P xs
    → set_items zero_value set (to_items f xs) [] ≡ some xs
unfolding set_items cons_set
set_items-to_items z set f P back [] h = refl
set_items-to_items z set f P back (x ∷ xs) (h, hs) =
    rw (back x h, set_items-to_items z set f P back xs hs) refl

abbrev pub texts : List Bytes → Value
texts ss = array (to_items text ss)

pub set_items-texts : (ss : List Bytes) → set_items [] set_string (to_items text ss) [] ≡ some ss
unfolding set_items cons_set set_string
set_items-texts [] = refl
set_items-texts (s ∷ ss) = rw (set_items-texts ss) refl
