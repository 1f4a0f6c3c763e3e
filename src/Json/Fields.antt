-- ===== src/Json/Fields.antt =====
-- encoding/json: decoding into a struct by the tags of its fields. A value of the wrong kind makes the
-- decoding an error, as `json.Unmarshal` reports it in the end. A slice that a repeated key fills again
-- starts with the elements it has, and not with what stands behind its length.
pub mod Laws
use gibson_tool_runner.Base.{
  ℕ, zero, suc, ◌-◌, Bytes, codes, Bool, true, false, ◌&&◌, List, [], ◌∷◌, Option, none, some,
  Error, foreign, ℤ, leb, eqb, ◌==◌, if◌then◌else◌,
}
use gibson_tool_runner.Sandbox.Config.{parse_int}
use gibson_tool_runner.Json.{
  Value, Items, Members, null, bool, number, text, array, object, no_items, item, no_members,
  member,
}
use gibson_tool_runner.Json.Parser.{value_of}
use gibson_tool_runner.Parsers.Lines.{Decoded, record_of, malformed}

-- The syntax errors and the type errors of the package, without their kind.
abbrev pub json_error : Error
json_error = foreign (codes "json")

-- What becomes of a variable of type A; `none` is an error.
abbrev pub Setter : Type 0 → Type 0
Setter A = Value → A → Option A

unfoldable pub set_string : Setter Bytes
set_string null old = some old
set_string (text s) old = some s
set_string _ old = none

-- An `int` or an `int64`.
unfoldable pub set_int : Setter ℤ
set_int null old = some old
set_int (number literal) old = parse_int literal
set_int _ old = none

-- A `float64` by its bits, where `parse_float` is `strconv.ParseFloat(literal, 64)`.
unfoldable pub set_float : (Bytes → Option ℕ) → Setter ℕ
set_float parse_float null old = some old
set_float parse_float (number literal) old = parse_float literal
set_float parse_float _ old = none

unfoldable pub cons_set : {A : Type 0} → Option A → Option (List A) → Option (List A)
cons_set (some x) (some xs) = some (x ∷ xs)
cons_set _ _ = none

module _ {A : Type 0} (zero_value : A) (set : Setter A) where
  -- Elements are decoded onto the old ones, and behind these onto the zero value.
  unfoldable pub set_items : Items → List A → Option (List A)
  unfolding cons_set
  set_items no_items old = some []
  set_items (item v is) [] = cons_set (set v zero_value) (set_items is [])
  set_items (item v is) (a ∷ old) = cons_set (set v a) (set_items is old)

  unfoldable pub set_slice : Setter (List A)
  unfolding set_items
  set_slice null old = some []
  set_slice (array is) old = set_items is old
  set_slice _ old = none

abbrev pub set_strings : Setter (List Bytes)
set_strings = set_slice [] set_string

-- A field of a struct: its tag, and the decoding of its value into a struct.
pub record Field (S : Type 0) : Type 0 where
  pub tag : Bytes
  pub put : Value → S → Option S

abbrev upper : ℕ → ℕ
upper c = if leb b'a' c && leb c b'z' then c - 32 else c

abbrev is_long_s : ℕ → ℕ → Bool
is_long_s a b = eqb a 0xc5 && eqb b 0xbf

-- The letter at the head of a text, and how many bytes more it takes: ſ is an S, and the Kelvin sign a K.
fold_head : ℕ → Bytes → ℕ × ℕ
fold_head a [] = (upper a, 0)
fold_head a (b ∷ []) = if is_long_s a b then (b'S', 1) else (upper a, 0)
fold_head a (b ∷ c ∷ cs) =
    if is_long_s a b
    then (b'S', 1)
    else if eqb a 0xe2 && eqb b 0x84 && eqb c 0xaa
    then (b'K', 2)
    else (upper a, 0)

fold_from : ℕ → Bytes → Bytes
unfolding fold_head
fold_from left [] = []
fold_from (suc left) (c ∷ cs) = fold_from left cs
fold_from zero (c ∷ cs) = let (letter, more) = fold_head c cs in letter ∷ fold_from more cs

-- `foldName`, as far as it matters for tags of ASCII letters.
unfoldable pub fold_name : Bytes → Bytes
unfolding fold_from
fold_name s = fold_from 0 s

module _ {S : Type 0} where
  unfoldable pub exact : Bytes → List (Field S) → Option (Field S)
  exact key [] = none
  exact key (f ∷ fs) = if f.tag == key then some f else exact key fs

  unfoldable pub folded : Bytes → List (Field S) → Option (Field S)
  unfolding fold_name
  folded key [] = none
  folded key (f ∷ fs) = if fold_name f.tag == fold_name key then some f else folded key fs

  -- The field of a key: of that name, or else of that name but for the case.
  unfoldable pub field_of : Bytes → List (Field S) → Option (Field S)
  unfolding exact folded
  field_of key fs = elim (exact key fs) [ some f ↦ some f | none ↦ folded key fs ]

  -- The members in order. A key with no field is passed over.
  unfoldable pub set_members : List (Field S) → Members → S → Option S
  unfolding field_of
  set_members fs no_members s = some s
  set_members fs (member k v ms) s = elim (field_of k fs) [
    | none ↦ set_members fs ms s
    | some f ↦ elim (f.put v s) [ none ↦ none | some s' ↦ set_members fs ms s' ]
  ]

  unfoldable pub set_struct : List (Field S) → Setter S
  unfolding set_members
  set_struct fs null s = some s
  set_struct fs (object ms) s = set_members fs ms s
  set_struct fs _ s = none

  abbrev decoded : Option S → Decoded S
  decoded (some s) = record_of s
  decoded none = malformed json_error

  unfoldable pub set_value : List (Field S) → S → Option Value → Decoded S
  unfolding set_struct
  set_value fs zero_value none = malformed json_error
  set_value fs zero_value (some v) = decoded (set_struct fs v zero_value)

  -- `json.Unmarshal(line, &r)` where `r` has its zero value.
  unfoldable pub unmarshal : List (Field S) → S → Bytes → Decoded S
  unfolding set_value value_of
  unmarshal fs zero_value line = set_value fs zero_value (value_of line)
