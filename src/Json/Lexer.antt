-- ===== src/Json/Lexer.antt =====
-- encoding/json: the tokens of a text.
pub mod Laws
use gibson_tool_runner.Base.{
  ℕ, zero, suc, ◌+◌, ◌-◌, Bytes, codes, Bool, true, false, not, ◌&&◌, ◌||◌, List, [], ◌∷◌, ◌++◌,
  Option, none, some, eqb, has_prefix, length, if◌then◌else◌,
}
use gibson_tool_runner.Json.{
  Punct, open_bracket, close_bracket, open_brace, close_brace, comma, colon, Token, null, bool,
  number, text, punct,
}
use gibson_tool_runner.Json.Text.{plain, cut, unquote}
use gibson_tool_runner.Json.Number.{State, first, more}

abbrev pub is_space : ℕ → Bool
is_space c = eqb c b' ' || eqb c b'\t' || eqb c b'\r' || eqb c b'\n'

unfoldable pub punct_of : ℕ → Option Punct
punct_of c =
    if eqb c b'['
    then some open_bracket
    else if eqb c b']'
    then some close_bracket
    else if eqb c b'{'
    then some open_brace
    else if eqb c b'}'
    then some close_brace
    else if eqb c b','
    then some comma
    else if eqb c b':'
    then some colon
    else none

-- A token, and how many characters it takes behind its first one.
unfoldable pub string_token : Option (Bytes × Bytes) → Option (Token × ℕ)
string_token none = none
string_token (some (literal, rest)) = some (text (unquote 0 literal), suc (length literal))

unfoldable pub number_token : ℕ → Option Bytes → Option (Token × ℕ)
number_token c none = none
number_token c (some literal) = some (number (c ∷ literal), length literal)

abbrev word_token : ℕ → Bytes → Option (Token × ℕ)
word_token c cs =
    if has_prefix (c ∷ cs) (codes "null")
    then some (null, 3)
    else if has_prefix (c ∷ cs) (codes "true")
    then some (bool true, 3)
    else if has_prefix (c ∷ cs) (codes "false")
    then some (bool false, 4)
    else none

unfoldable pub token_at : ℕ → Bytes → Option (Token × ℕ)
unfolding string_token number_token punct_of has_prefix
token_at c cs = elim (punct_of c) [
  | some p ↦ some (punct p, 0)
  | none ↦
      if eqb c b'"'
      then string_token (cut plain cs)
      else elim (first c) [ some s ↦ number_token c (more s cs) | none ↦ word_token c cs ]
]

unfoldable pub cons_token : Token → Option (List Token) → Option (List Token)
cons_token t none = none
cons_token t (some ts) = some (t ∷ ts)

-- The tokens of a text behind `left` characters that belong to a token already.
unfoldable pub lex : ℕ → Bytes → Option (List Token)
unfolding token_at cons_token
lex left [] = some []
lex (suc left) (c ∷ cs) = lex left cs
lex zero (c ∷ cs) =
    if is_space c
    then lex 0 cs
    else elim (token_at c cs) [ none ↦ none | some (t, more) ↦ cons_token t (lex more cs) ]
