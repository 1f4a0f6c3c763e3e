-- ===== src/Json/Parser/Laws.antt =====
-- encoding/json: a value that is written out reads back.
use gibson_tool_runner.Base.{
  ℕ, zero, suc, ◌+◌, ◌≤◌, Bytes, List, [], ◌∷◌, some, ◌≡◌, refl, ap, ◌∙◌, arith, length,
}
use gibson_tool_runner.Json.{
  Value, Items, Members, null, bool, number, text, array, object, no_items, item, no_members,
  member, open_bracket, close_bracket, open_brace, close_brace, colon, Token, punct,
}
use gibson_tool_runner.Json.Lexer.Laws.{lex-print}
use gibson_tool_runner.Json.Parser.{
  Frame, in_array, in_object, value, first_item, first_key, complete, max_depth, add_item,
  add_member, begin_value, end_value, step, run, finish, run_tokens, value_of,
}
use gibson_tool_runner.Json.Print.{
  print, tokens_onto, token_items, token_members, IsGood, AreGoodItems, AreGoodMembers,
}

-- All elements behind those that are there, one by one.
add_items : Items → Items → Items
add_items done no_items = done
add_items done (item v is) = add_items (add_item done v) is

add_items-item :
    (w : Value) (done is : Items) → add_items (item w done) is ≡ item w (add_items done is)
unfolding add_items
add_items-item w done no_items = refl
add_items-item w done (item v is) = add_items-item w (add_item done v) is

add_items_none : (is : Items) → add_items no_items is ≡ is
unfolding add_items
add_items_none no_items = refl
add_items_none (item v is) = add_items-item v no_items is ∙ ap (item v) (add_items_none is)

add_members : Members → Members → Members
add_members done no_members = done
add_members done (member k v ms) = add_members (add_member done k v) ms

add_members-member :
    (j : Bytes) (w : Value) (done ms : Members)
    → add_members (member j w done) ms ≡ member j w (add_members done ms)
unfolding add_members
add_members-member j w done no_members = refl
add_members-member j w done (member k v ms) = add_members-member j w (add_member done k v) ms

add_members_none : (ms : Members) → add_members no_members ms ≡ ms
unfolding add_members
add_members_none no_members = refl
add_members_none (member k v ms) =
    add_members-member k v no_members ms ∙ ap (member k v) (add_members_none ms)

-- A value is no closing bracket, and so may come first in an array.
run_first :
    (is : Items) (stack : List Frame) (v : Value) (ts : List Token)
    → run (in_array is ∷ stack) first_item (tokens_onto v ts)
      ≡ run (in_array is ∷ stack) value (tokens_onto v ts)
unfolding run step tokens_onto
run_first is stack null ts = refl
run_first is stack (bool b) ts = refl
run_first is stack (number literal) ts = refl
run_first is stack (text s) ts = refl
run_first is stack (array no_items) ts = refl
run_first is stack (array (item v is')) ts = refl
run_first is stack (object no_members) ts = refl
run_first is stack (object (member k v ms)) ts = refl

run_array :
    (stack : List Frame) (ts : List Token)
    → suc (length stack) ≤ max_depth
    → run stack value (punct open_bracket ∷ ts) ≡ run (in_array no_items ∷ stack) first_item ts
unfolding run step begin_value
run_array stack ts h = ground arith

run_object :
    (stack : List Frame) (ts : List Token)
    → suc (length stack) ≤ max_depth
    → run stack value (punct open_brace ∷ ts) ≡ run stack first_key ts
unfolding run step begin_value
run_object stack ts h = ground arith

mutual
  unfolding tokens_onto run step begin_value end_value add_items add_members

  pub run-tokens_onto :
      (n : ℕ) (v : Value) (stack : List Frame) (ts : List Token)
      → IsGood n v
      → length stack + n ≤ max_depth
      → run stack value (tokens_onto v ts) ≡ run stack (complete v) ts
  run-tokens_onto n null stack ts g h = refl
  run-tokens_onto n (bool b) stack ts g h = refl
  run-tokens_onto n (number literal) stack ts g h = refl
  run-tokens_onto n (text s) stack ts g h = refl
  run-tokens_onto zero (array is) stack ts g h = elim g [ ]
  run-tokens_onto (suc n) (array no_items) stack ts g h =
      run_array stack (punct close_bracket ∷ ts) (omega (arith, h))
  run-tokens_onto (suc n) (array (item v is)) stack ts (g, gs) h =
      run_array stack (tokens_onto v (token_items is ts)) (omega (arith, h))
      ∙ run_first no_items stack v (token_items is ts)
      ∙ run-tokens_onto n v (in_array no_items ∷ stack) (token_items is ts) g (omega (arith, h))
      ∙ run-token_items n no_items v is stack ts gs (omega (arith, h))
      ∙ ap (λ is'. run stack (complete (array is')) ts) (add_items_none (item v is))
  run-tokens_onto zero (object ms) stack ts g h = elim g [ ]
  run-tokens_onto (suc n) (object no_members) stack ts g h =
      run_object stack (punct close_brace ∷ ts) (omega (arith, h))
  run-tokens_onto (suc n) (object (member k v ms)) stack ts (p, g, gs) h =
      run_object stack (text k ∷ punct colon ∷ tokens_onto v (token_members ms ts))
        (omega (arith, h))
      ∙ run-tokens_onto n v (in_object no_members k ∷ stack) (token_members ms ts) g
          (omega (arith, h))
      ∙ run-token_members n no_members k v ms stack ts gs (omega (arith, h))
      ∙ ap (λ ms'. run stack (complete (object ms')) ts) (add_members_none (member k v ms))

  run-token_items :
      (n : ℕ) (done : Items) (w : Value) (is : Items) (stack : List Frame) (ts : List Token)
      → AreGoodItems n is
      → suc (length stack) + n ≤ max_depth
      → run (in_array done ∷ stack) (complete w) (token_items is ts)
        ≡ run stack (complete (array (add_items (add_item done w) is))) ts
  run-token_items n done w no_items stack ts g h = refl
  run-token_items n done w (item v is) stack ts (g, gs) h =
      run-tokens_onto n v (in_array (add_item done w) ∷ stack) (token_items is ts) g h
      ∙ run-token_items n (add_item done w) v is stack ts gs h

  run-token_members :
      (n : ℕ) (done : Members) (j : Bytes) (w : Value) (ms : Members) (stack : List Frame)
      (ts : List Token)
      → AreGoodMembers n ms
      → suc (length stack) + n ≤ max_depth
      → run (in_object done j ∷ stack) (complete w) (token_members ms ts)
        ≡ run stack (complete (object (add_members (add_member done j w) ms))) ts
  run-token_members n done j w no_members stack ts g h = refl
  run-token_members n done j w (member k v ms) stack ts (p, g, gs) h =
      run-tokens_onto n v (in_object (add_member done j w) k ∷ stack) (token_members ms ts) g h
      ∙ run-token_members n (add_member done j w) k v ms stack ts gs h

-- What is written reads back.
pub value_of-print : (n : ℕ) (v : Value) → n ≤ max_depth → IsGood n v → value_of (print v) ≡ some v
unfolding value_of
value_of-print n v h g =
    rw (lex-print n v g)
      unfold run_tokens in
        run-tokens_onto n v [] [] g (omega (arith, h)) ∙ unfold run finish in refl
