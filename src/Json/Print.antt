-- ===== src/Json/Print.antt =====
-- encoding/json: how a value is written, to say what is read. No white space stands between the tokens,
-- and a quote and a backslash have a backslash in front.
pub mod Laws
use gibson_tool_runner.Base.{
  ℕ, zero, suc, ◌≤◌, ◌<◌, Bytes, codes, Bool, true, false, ◌||◌, List, [], ◌∷◌, Option, none, some,
  ◌≡◌, All, eqb, if◌then◌else◌,
}
use gibson_tool_runner.Json.{
  Value, Items, Members, null, bool, number, text, array, object, no_items, item, no_members,
  member, open_bracket, close_bracket, open_brace, close_brace, comma, colon, Token, punct,
}
use gibson_tool_runner.Json.Number.{State, first, next, is_whole}

-- Every function writes in front of `rest`.
unfoldable pub quote_onto : Bytes → Bytes → Bytes
quote_onto [] rest = rest
quote_onto (c ∷ cs) rest =
    let more = quote_onto cs rest in
    if eqb c b'"' || eqb c b'\\' then b'\\' ∷ c ∷ more else c ∷ more

abbrev pub text_onto : Bytes → Bytes → Bytes
text_onto s rest = b'"' ∷ quote_onto s (b'"' ∷ rest)

abbrev pub append : Bytes → Bytes → Bytes
append [] rest = rest
append (c ∷ cs) rest = c ∷ append cs rest

unfoldable mutual
  pub print_onto : Value → Bytes → Bytes
  print_onto null rest = b'n' ∷ b'u' ∷ b'l' ∷ b'l' ∷ rest
  print_onto (bool true) rest = b't' ∷ b'r' ∷ b'u' ∷ b'e' ∷ rest
  print_onto (bool false) rest = b'f' ∷ b'a' ∷ b'l' ∷ b's' ∷ b'e' ∷ rest
  print_onto (number literal) rest = append literal rest
  print_onto (text s) rest = text_onto s rest
  print_onto (array no_items) rest = b'[' ∷ b']' ∷ rest
  print_onto (array (item v is)) rest = b'[' ∷ print_onto v (print_items is rest)
  print_onto (object no_members) rest = b'{' ∷ b'}' ∷ rest
  print_onto (object (member k v ms)) rest =
      b'{' ∷ text_onto k (b':' ∷ print_onto v (print_members ms rest))

  -- What stands behind the first element, the bracket included.
  pub print_items : Items → Bytes → Bytes
  print_items no_items rest = b']' ∷ rest
  print_items (item v is) rest = b',' ∷ print_onto v (print_items is rest)

  pub print_members : Members → Bytes → Bytes
  print_members no_members rest = b'}' ∷ rest
  print_members (member k v ms) rest =
      b',' ∷ text_onto k (b':' ∷ print_onto v (print_members ms rest))

unfoldable pub print : Value → Bytes
unfolding print_onto
print v = print_onto v []

-- The same with tokens.
unfoldable mutual
  pub tokens_onto : Value → List Token → List Token
  tokens_onto null ts = null ∷ ts
  tokens_onto (bool b) ts = bool b ∷ ts
  tokens_onto (number literal) ts = number literal ∷ ts
  tokens_onto (text s) ts = text s ∷ ts
  tokens_onto (array no_items) ts = punct open_bracket ∷ punct close_bracket ∷ ts
  tokens_onto (array (item v is)) ts = punct open_bracket ∷ tokens_onto v (token_items is ts)
  tokens_onto (object no_members) ts = punct open_brace ∷ punct close_brace ∷ ts
  tokens_onto (object (member k v ms)) ts =
      punct open_brace ∷ text k ∷ punct colon ∷ tokens_onto v (token_members ms ts)

  pub token_items : Items → List Token → List Token
  token_items no_items ts = punct close_bracket ∷ ts
  token_items (item v is) ts = punct comma ∷ tokens_onto v (token_items is ts)

  pub token_members : Members → List Token → List Token
  token_members no_members ts = punct close_brace ∷ ts
  token_members (member k v ms) ts =
      punct comma ∷ text k ∷ punct colon ∷ tokens_onto v (token_members ms ts)

-- ASCII with no control characters.
abbrev pub IsPlain : Bytes → Type 0
IsPlain = All (λ c. (0x20 ≤ c) × (c < 0x80))

-- The literal of a number, whole.
abbrev pub GoesOn : State → Bytes → Type 0
GoesOn s [] = is_whole s ≡ true
GoesOn s (c ∷ cs) = (s' : State) × (next s c ≡ some s') × GoesOn s' cs

abbrev pub IsNumber : Bytes → Type 0
IsNumber [] = ⊥
IsNumber (c ∷ cs) = (s : State) × (first c ≡ some s) × GoesOn s cs

-- What may stand behind a number: the end, or one of `,`, `]` and `}`.
abbrev pub Delimits : Bytes → Type 0
Delimits [] = Unit
Delimits (c ∷ cs) = eqb c b',' || eqb c b']' || eqb c b'}' ≡ true

-- The texts and the numbers of a value can be written like this, and it is no deeper than `depth`.
abbrev mutual
  pub IsGood : ℕ → Value → Type 0
  IsGood depth null = Unit
  IsGood depth (bool b) = Unit
  IsGood depth (number literal) = IsNumber literal
  IsGood depth (text s) = IsPlain s
  IsGood zero (array is) = ⊥
  IsGood (suc depth) (array is) = AreGoodItems depth is
  IsGood zero (object ms) = ⊥
  IsGood (suc depth) (object ms) = AreGoodMembers depth ms

  pub AreGoodItems : ℕ → Items → Type 0
  AreGoodItems depth no_items = Unit
  AreGoodItems depth (item v is) = IsGood depth v × AreGoodItems depth is

  pub AreGoodMembers : ℕ → Members → Type 0
  AreGoodMembers depth no_members = Unit
  AreGoodMembers depth (member k v ms) = IsPlain k × IsGood depth v × AreGoodMembers depth ms
