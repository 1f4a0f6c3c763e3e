-- ===== src/Json/Number.antt =====
-- encoding/json: the literals of numbers, as the scanner of the package steps through them.
pub mod Laws
use gibson_tool_runner.Base.{
  ℕ, Bytes, Bool, true, false, ◌&&◌, ◌||◌, List, [], ◌∷◌, Option, none, some, eqb, leb,
  if◌then◌else◌,
}

-- `neg`, `0`, `1`, `dot`, `dot0`, `e`, `esign` and `e0` of the scanner.
pub data State : Type 0 where
  minus lone_zero digits point fraction exponent sign power : State

abbrev pub is_digit : ℕ → Bool
is_digit c = leb b'0' c && leb c b'9'

abbrev is_e : ℕ → Bool
is_e c = eqb c b'e' || eqb c b'E'

unfoldable pub first : ℕ → Option State
first c =
    if eqb c b'-'
    then some minus
    else if eqb c b'0'
    then some lone_zero
    else if is_digit c
    then some digits
    else none

unfoldable pub next : State → ℕ → Option State
next minus c = if eqb c b'0' then some lone_zero else if is_digit c then some digits else none
next lone_zero c = if eqb c b'.' then some point else if is_e c then some exponent else none
next digits c =
    if is_digit c
    then some digits
    else if eqb c b'.'
    then some point
    else if is_e c
    then some exponent
    else none
next point c = if is_digit c then some fraction else none
next fraction c = if is_digit c then some fraction else if is_e c then some exponent else none
next exponent c =
    if eqb c b'+' || eqb c b'-' then some sign else if is_digit c then some power else none
next sign c = if is_digit c then some power else none
next power c = if is_digit c then some power else none

abbrev pub is_whole : State → Bool
is_whole lone_zero = true
is_whole digits = true
is_whole fraction = true
is_whole power = true
is_whole _ = false

unfoldable pub cons_first : ℕ → Option Bytes → Option Bytes
cons_first c none = none
cons_first c (some literal) = some (c ∷ literal)

-- The rest of a literal, the longest that there is; `none` is a literal that breaks off.
unfoldable pub more : State → Bytes → Option Bytes
unfolding cons_first
more s [] = if is_whole s then some [] else none
more s (c ∷ cs) = elim (next s c) [
  | some s' ↦ cons_first c (more s' cs)
  | none ↦ if is_whole s then some [] else none
]
