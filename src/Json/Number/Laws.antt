-- ===== src/Json/Number/Laws.antt =====
-- encoding/json: a number ends where something follows that is no part of one, and `%d` writes numbers.
use gibson_tool_runner.Base.{
  ℕ, zero, suc, Bytes, true, [], ◌∷◌, none, some, ◌≡◌, refl, arith, All, ℤ, pos, negsuc, decimal,
  decimal_int, IsDigit, IsPositiveNumeral, decimal-IsPositiveNumeral,
}
use gibson_tool_runner.Json.Number.{
  State, minus, lone_zero, digits, first, next, more, is_whole, cons_first,
}
use gibson_tool_runner.Json.Print.{append, GoesOn, IsNumber, Delimits}

pub next_delimiter : (s : State) (c : ℕ) → Delimits (c ∷ []) → next s c ≡ none
unfolding next
next_delimiter s c h = ground arith

unstarted :
    (s : State) (c : ℕ) (rest : Bytes)
    → is_whole s ≡ true
    → next s c ≡ none
    → more s (c ∷ rest) ≡ some []
unfolding more
unstarted s c rest g e = ground arith

pub more-append :
    (s : State) (cs rest : Bytes) → GoesOn s cs → Delimits rest → more s (append cs rest) ≡ some cs
unfolding more cons_first
more-append s [] [] g d = rw g refl
more-append s [] (c ∷ rest) g d = unstarted s c rest g (next_delimiter s c d)
more-append s (c ∷ cs) rest (s', e, g) d = ground (arith, more-append s' cs rest g d)

digits-GoesOn : (ds : Bytes) → All IsDigit ds → GoesOn digits ds
unfolding next
digits-GoesOn [] h = refl
digits-GoesOn (d ∷ ds) (h, hs) = (digits, ground arith, digits-GoesOn ds hs)

numeral-IsNumber : (s : Bytes) → IsPositiveNumeral s → IsNumber s
unfolding first
numeral-IsNumber [] h = elim h [ ]
numeral-IsNumber (d ∷ ds) (l, u, h) = (digits, ground arith, digits-GoesOn ds h)

numeral-GoesOn : (s : Bytes) → IsPositiveNumeral s → GoesOn minus s
unfolding next
numeral-GoesOn [] h = elim h [ ]
numeral-GoesOn (d ∷ ds) (l, u, h) = (digits, ground arith, digits-GoesOn ds h)

pub decimal_int-IsNumber : (z : ℤ) → IsNumber (decimal_int z)
unfolding decimal_int first
decimal_int-IsNumber (pos zero) = unfold decimal in (lone_zero, refl, refl)
decimal_int-IsNumber (pos (suc n)) =
    numeral-IsNumber (decimal (suc n)) (decimal-IsPositiveNumeral n)
decimal_int-IsNumber (negsuc n) =
    (minus, refl, numeral-GoesOn (decimal (suc n)) (decimal-IsPositiveNumeral n))
