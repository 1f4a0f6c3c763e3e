-- ===== src/Json/Parser.antt =====
-- encoding/json: the value of a list of tokens. As in the scanner of the package, a stack holds the arrays
-- and objects that are open, and a phase tells what may come next.
pub mod Laws
use gibson_tool_runner.Base.{
  ℕ, Bytes, Bool, true, false, List, [], ◌∷◌, Option, none, some, length, ltb, if◌then◌else◌,
}
use gibson_tool_runner.Json.{
  Value, Items, Members, null, bool, number, text, array, object, no_items, item, no_members,
  member, Punct, open_bracket, close_bracket, open_brace, close_brace, comma, colon, Token, punct,
}
use gibson_tool_runner.Json.Lexer.{lex}

abbrev pub add_item : Items → Value → Items
add_item no_items v = item v no_items
add_item (item w ws) v = item w (add_item ws v)

abbrev pub add_member : Members → Bytes → Value → Members
add_member no_members k v = member k v no_members
add_member (member j w ms) k v = member j w (add_member ms k v)

-- An open array with its elements, and an open object with its members and the key of the next one.
pub data Frame : Type 0 where
  in_array : Items → Frame
  in_object : Members → Bytes → Frame

pub data Phase : Type 0 where
  -- A value comes; behind `[` an end may come as well.
  value first_item : Phase
  -- A key comes; behind `{` an end may come as well.
  first_key : Phase
  key : Members → Phase
  -- A colon comes.
  separator : Members → Bytes → Phase
  -- A value is complete.
  complete : Value → Phase

-- `maxNestingDepth`
abbrev pub max_depth : ℕ
max_depth = 10000

abbrev Stepped : Type 0
Stepped = Option (List Frame × Phase)

open_frame : List Frame → Frame → Phase → Stepped
open_frame stack frame phase =
    if ltb (length stack) max_depth then some (frame ∷ stack, phase) else none

-- An object gets its frame at the first key, and counts for the depth at its brace.
open_object : List Frame → Stepped
open_object stack = if ltb (length stack) max_depth then some (stack, first_key) else none

unfoldable pub begin_value : List Frame → Token → Stepped
unfolding open_frame open_object
begin_value stack null = some (stack, complete null)
begin_value stack (bool b) = some (stack, complete (bool b))
begin_value stack (number literal) = some (stack, complete (number literal))
begin_value stack (text s) = some (stack, complete (text s))
begin_value stack (punct open_bracket) = open_frame stack (in_array no_items) first_item
begin_value stack (punct open_brace) = open_object stack
begin_value stack (punct _) = none

-- Behind a value in an array or an object.
unfoldable pub end_value : List Frame → Value → Token → Stepped
end_value (in_array is ∷ stack) v (punct comma) = some (in_array (add_item is v) ∷ stack, value)
end_value (in_array is ∷ stack) v (punct close_bracket) =
    some (stack, complete (array (add_item is v)))
end_value (in_object ms k ∷ stack) v (punct comma) = some (stack, key (add_member ms k v))
end_value (in_object ms k ∷ stack) v (punct close_brace) =
    some (stack, complete (object (add_member ms k v)))
end_value _ v t = none

unfoldable pub step : List Frame → Phase → Token → Stepped
unfolding begin_value end_value
step stack value t = begin_value stack t
step (in_array is ∷ stack) first_item (punct close_bracket) = some (stack, complete (array is))
step stack first_item t = begin_value stack t
step stack first_key (punct close_brace) = some (stack, complete (object no_members))
step stack first_key (text k) = some (stack, separator no_members k)
step stack first_key t = none
step stack (key ms) (text k) = some (stack, separator ms k)
step stack (key ms) t = none
step stack (separator ms k) (punct colon) = some (in_object ms k ∷ stack, value)
step stack (separator ms k) t = none
step stack (complete v) t = end_value stack v t

unfoldable pub finish : List Frame → Phase → Option Value
finish [] (complete v) = some v
finish _ _ = none

unfoldable pub run : List Frame → Phase → List Token → Option Value
unfolding step finish
run stack phase [] = finish stack phase
run stack phase (t ∷ ts) = elim (step stack phase t) [
  | none ↦ none
  | some (stack', phase') ↦ run stack' phase' ts
]

unfoldable pub run_tokens : Option (List Token) → Option Value
unfolding run
run_tokens none = none
run_tokens (some ts) = run [] value ts

-- The value of a text; `none` is a syntax error.
unfoldable pub value_of : Bytes → Option Value
unfolding lex run_tokens
value_of line = run_tokens (lex 0 line)
