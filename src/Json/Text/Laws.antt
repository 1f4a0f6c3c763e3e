-- ===== src/Json/Text/Laws.antt =====
-- encoding/json: a text with its quotes and backslashes escaped is cut out whole, and reads back.
use gibson_tool_runner.Base.{
  ℕ, Bytes, true, false, ◌||◌, [], ◌∷◌, some, ◌≡◌, ◌<◌, refl, ap, arith, eqb, Bool-cases, inl, inr,
}
use gibson_tool_runner.Json.Text.{
  plain, cut, cons_first, next_mode, is_escape, unquote, unit, escape,
}
use gibson_tool_runner.Json.Print.{quote_onto, IsPlain}

pub cut-quote_onto :
    (s rest : Bytes)
    → IsPlain s
    → cut plain (quote_onto s (b'"' ∷ rest)) ≡ some (quote_onto s [], rest)
unfolding cut quote_onto next_mode is_escape cons_first
cut-quote_onto [] rest h = refl
cut-quote_onto (c ∷ cs) rest ((l, u), h) = ground (arith, cut-quote_onto cs rest h)

unit-special :
    (c : ℕ) (cs : Bytes) → eqb c b'"' || eqb c b'\\' ≡ true → unit b'\\' (c ∷ cs) ≡ (c ∷ [], 1)
unfolding unit escape
unit-special c cs h = ground arith

unit-common :
    (c : ℕ) (cs : Bytes) → eqb c b'"' || eqb c b'\\' ≡ false → c < 0x80 → unit c cs ≡ (c ∷ [], 0)
unfolding unit
unit-common c cs h u = ground arith

pub unquote-quote_onto : (s : Bytes) → IsPlain s → unquote 0 (quote_onto s []) ≡ s
unfolding unquote quote_onto
unquote-quote_onto [] h = refl
unquote-quote_onto (c ∷ cs) ((l, u), h) = elim (Bool-cases (eqb c b'"' || eqb c b'\\')) [
  | inl special ↦
      rw (special, unit-special c (quote_onto cs []) special) (ap (◌∷◌ c) (unquote-quote_onto cs h))
  | inr common ↦
      rw (common, unit-common c (quote_onto cs []) common u) (ap (◌∷◌ c) (unquote-quote_onto cs h))
]
