-- ===== src/Json/Lexer/Laws.antt =====
-- encoding/json: the tokens of a value that is written out.
use gibson_tool_runner.Base.{
  ℕ, zero, suc, Bytes, true, false, ◌||◌, List, [], ◌∷◌, none, some, ◌≡◌, refl, ap, ◌∙◌, arith, eqb,
  length, Bool-cases, inl, inr, has_prefix,
}
use gibson_tool_runner.Json.{
  Value, Items, Members, null, bool, number, text, array, object, no_items, item, no_members,
  member, Punct, open_bracket, open_brace, comma, colon, Token, punct,
}
use gibson_tool_runner.Json.Text.Laws.{cut-quote_onto, unquote-quote_onto}
use gibson_tool_runner.Json.Number.{State, first, more}
use gibson_tool_runner.Json.Number.Laws.{more-append}
use gibson_tool_runner.Json.Lexer.{
  lex, token_at, punct_of, is_space, string_token, number_token, cons_token,
}
use gibson_tool_runner.Json.Print.{
  quote_onto, text_onto, append, print_onto, print_items, print_members, print, tokens_onto,
  token_items, token_members, IsPlain, IsNumber, Delimits, IsGood, AreGoodItems, AreGoodMembers,
}

-- A literal that is read already is passed over.
lex-quote_onto :
    (s rest : Bytes)
    → lex (suc (length (quote_onto s []))) (quote_onto s (b'"' ∷ rest)) ≡ lex 0 rest
unfolding lex quote_onto
lex-quote_onto [] rest = refl
lex-quote_onto (c ∷ cs) rest = elim (Bool-cases (eqb c b'"' || eqb c b'\\')) [
  | inl special ↦ rw special (lex-quote_onto cs rest)
  | inr common ↦ rw common (lex-quote_onto cs rest)
]

pub lex-text_onto :
    (s rest : Bytes) → IsPlain s → lex 0 (text_onto s rest) ≡ cons_token (text s) (lex 0 rest)
unfolding lex token_at punct_of string_token
lex-text_onto s rest h =
    rw (cut-quote_onto s rest h, unquote-quote_onto s h)
      (ap (cons_token (text s)) (lex-quote_onto s rest))

lex-append : (s rest : Bytes) → lex (length s) (append s rest) ≡ lex 0 rest
unfolding lex
lex-append [] rest = refl
lex-append (c ∷ cs) rest = lex-append cs rest

-- The first character of a number begins no other token.
first-plain :
    (c : ℕ) (s : State)
    → first c ≡ some s
    → (is_space c ≡ false) × (punct_of c ≡ none) × (eqb c b'"' ≡ false)
unfolding first punct_of
first-plain c s h = ground arith

token_at-number :
    (c : ℕ) (s : State) (cs : Bytes)
    → punct_of c ≡ none
    → eqb c b'"' ≡ false
    → first c ≡ some s
    → token_at c cs ≡ number_token c (more s cs)
unfolding token_at
token_at-number c s cs p q f = ground arith

lex-number :
    (literal rest : Bytes)
    → IsNumber literal
    → Delimits rest
    → lex 0 (append literal rest) ≡ cons_token (number literal) (lex 0 rest)
unfolding lex number_token
lex-number [] rest h d = elim h [ ]
lex-number (c ∷ cs) rest (s, f, g) d =
    let (space, p, q) = first-plain c s f in
    rw (space, token_at-number c s (append cs rest) p q f, more-append s cs rest g d)
      (ap (cons_token (number (c ∷ cs))) (lex-append cs rest))

print_items-Delimits : (is : Items) (rest : Bytes) → Delimits (print_items is rest)
unfolding print_items
print_items-Delimits no_items rest = refl
print_items-Delimits (item v is) rest = refl

print_members-Delimits : (ms : Members) (rest : Bytes) → Delimits (print_members ms rest)
unfolding print_members
print_members-Delimits no_members rest = refl
print_members-Delimits (member k v ms) rest = refl

-- A punctuation mark is a token.
lex-punct :
    (c : ℕ) (p : Punct) (rest : Bytes) {ts : List Token}
    → is_space c ≡ false
    → punct_of c ≡ some p
    → lex 0 rest ≡ some ts
    → lex 0 (c ∷ rest) ≡ some (punct p ∷ ts)
unfolding lex token_at cons_token
lex-punct c p rest s e h = ground (arith, s, e, h)

lex-text :
    (k rest : Bytes) {ts : List Token}
    → IsPlain k
    → lex 0 rest ≡ some ts
    → lex 0 (text_onto k rest) ≡ some (text k ∷ ts)
lex-text k rest h e = lex-text_onto k rest h ∙ rw e (unfold cons_token in refl)

lex-key :
    (k rest : Bytes) {ts : List Token}
    → IsPlain k
    → lex 0 rest ≡ some ts
    → lex 0 (text_onto k (b':' ∷ rest)) ≡ some (text k ∷ punct colon ∷ ts)
unfolding punct_of
lex-key k rest h e = lex-text k (b':' ∷ rest) h (lex-punct b':' colon rest refl refl e)

mutual
  unfolding print_onto tokens_onto lex token_at punct_of first has_prefix cons_token

  pub lex-print_onto :
      (n : ℕ) (v : Value) (rest : Bytes) (ts : List Token)
      → IsGood n v
      → Delimits rest
      → lex 0 rest ≡ some ts
      → lex 0 (print_onto v rest) ≡ some (tokens_onto v ts)
  lex-print_onto n null rest ts g d e = rw e refl
  lex-print_onto n (bool true) rest ts g d e = rw e refl
  lex-print_onto n (bool false) rest ts g d e = rw e refl
  lex-print_onto n (number literal) rest ts g d e = lex-number literal rest g d ∙ rw e refl
  lex-print_onto n (text s) rest ts g d e = lex-text s rest g e
  lex-print_onto zero (array is) rest ts g d e = elim g [ ]
  lex-print_onto (suc n) (array no_items) rest ts g d e = rw e refl
  lex-print_onto (suc n) (array (item v is)) rest ts (g, gs) d e =
      lex-punct b'[' open_bracket (print_onto v (print_items is rest)) refl refl (
        lex-print_onto n v (print_items is rest) _ g (print_items-Delimits is rest)
          (lex-print_items n is rest ts gs e))
  lex-print_onto zero (object ms) rest ts g d e = elim g [ ]
  lex-print_onto (suc n) (object no_members) rest ts g d e = rw e refl
  lex-print_onto (suc n) (object (member k v ms)) rest ts (p, g, gs) d e =
      let more = print_onto v (print_members ms rest) in
      lex-punct b'{' open_brace (text_onto k (b':' ∷ more)) refl refl (
        lex-key k more p (
          lex-print_onto n v (print_members ms rest) _ g (print_members-Delimits ms rest)
            (lex-print_members n ms rest ts gs e)))

  lex-print_items :
      (n : ℕ) (is : Items) (rest : Bytes) (ts : List Token)
      → AreGoodItems n is
      → lex 0 rest ≡ some ts
      → lex 0 (print_items is rest) ≡ some (token_items is ts)
  lex-print_items n no_items rest ts g e = rw e refl
  lex-print_items n (item v is) rest ts (g, gs) e =
      lex-punct b',' comma (print_onto v (print_items is rest)) refl refl (
        lex-print_onto n v (print_items is rest) _ g (print_items-Delimits is rest)
          (lex-print_items n is rest ts gs e))

  lex-print_members :
      (n : ℕ) (ms : Members) (rest : Bytes) (ts : List Token)
      → AreGoodMembers n ms
      → lex 0 rest ≡ some ts
      → lex 0 (print_members ms rest) ≡ some (token_members ms ts)
  lex-print_members n no_members rest ts g e = rw e refl
  lex-print_members n (member k v ms) rest ts (p, g, gs) e =
      let more = print_onto v (print_members ms rest) in
      lex-punct b',' comma (text_onto k (b':' ∷ more)) refl refl (
        lex-key k more p (
          lex-print_onto n v (print_members ms rest) _ g (print_members-Delimits ms rest)
            (lex-print_members n ms rest ts gs e)))

pub lex-print : (n : ℕ) (v : Value) → IsGood n v → lex 0 (print v) ≡ some (tokens_onto v [])
unfolding print lex
lex-print n v g = lex-print_onto n v [] [] g tt refl
