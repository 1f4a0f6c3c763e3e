-- ===== src/Base/Decimal.antt =====
-- Decimal numerals: `%d` of a number that is not negative, the digits that `strconv` reads, and
-- integers with a sign.
use Prim.Native.Nat.{ℕ, zero, suc, ◌+◌, ◌-◌, ◌*◌, ◌/◌, ◌%◌, ◌^◌, ◌≤◌, ◌<◌}
use mathlib.Core.Path.{◌≡◌, refl, ◌∙◌}
use mathlib.Core.Logic.{inl, inr}
use mathlib.Core.Bool.{Bool, ◌&&◌}
use mathlib.Core.Option.{Option, none, some}
use mathlib.Core.List.{[], ◌∷◌}
use native.Mathlib.Omega.{arith}
use gibson_tool_runner.Base.Tests.{ltb, leb, if◌then◌else◌, Bool-cases}
use gibson_tool_runner.Base.Text.{Bytes}
use gibson_tool_runner.Base.Lists.{All}

-- `negsuc n` is -(n + 1).
pub data ℤ : Type 0 where
  pos : ℕ → ℤ
  negsuc : ℕ → ℤ

-- The digits of `n` in front of `rest`. The fuel is more than the number of digits.
decimal_onto : ℕ → ℕ → Bytes → Bytes
decimal_onto zero n rest = rest
decimal_onto (suc fuel) n rest =
    let more = decimal_onto fuel (n / 10) ((b'0' + n % 10) ∷ rest) in
    if ltb n 10 then (b'0' + n) ∷ rest else more

-- `fmt.Sprintf("%d", n)`
unfoldable pub decimal : ℕ → Bytes
unfolding decimal_onto
decimal n = decimal_onto (suc n) n []

abbrev is_digit : ℕ → Bool
is_digit c = leb b'0' c && leb c b'9'

-- The value of digits behind digits of value `acc`, or `none` at another byte.
digits_value : ℕ → Bytes → Option ℕ
digits_value acc [] = some acc
digits_value acc (c ∷ cs) =
    let rest = digits_value (acc * 10 + (c - b'0')) cs in if is_digit c then rest else none

-- At least one digit and no other byte.
unfoldable pub parse_digits : Bytes → Option ℕ
unfolding digits_value
parse_digits [] = none
parse_digits (c ∷ cs) = digits_value 0 (c ∷ cs)

digits_value-digit :
    (acc d : ℕ) (rest : Bytes)
    → d < 10
    → digits_value acc ((b'0' + d) ∷ rest) ≡ digits_value (acc * 10 + d) rest
unfolding digits_value
digits_value-digit acc d rest h =
    let e : acc * 10 + (b'0' + d - b'0') ≡ acc * 10 + d = omega arith in rw e (ground arith)

digits_value-decimal_onto :
    (fuel n : ℕ) (rest : Bytes)
    → n < fuel
    → digits_value 0 (decimal_onto fuel n rest) ≡ digits_value n rest
unfolding decimal_onto
digits_value-decimal_onto zero n rest h = absurd (omega arith)
digits_value-decimal_onto (suc fuel) n rest h = elim (Bool-cases (ltb n 10)) [
  | inl small ↦
      let e : 0 * 10 + n ≡ n = omega arith in
      rw small (digits_value-digit 0 n rest (ground arith) ∙ rw e)
  | inr large ↦
      let e : n / 10 * 10 + n % 10 ≡ n = omega arith in
      rw large (
        digits_value-decimal_onto fuel (n / 10) ((b'0' + n % 10) ∷ rest) (ground arith)
        ∙ digits_value-digit (n / 10) (n % 10) rest (omega arith)
        ∙ rw e)
]

decimal_onto-cons :
    (fuel n c : ℕ) (cs : Bytes) → (d : ℕ) × (ds : Bytes) × (decimal_onto fuel n (c ∷ cs) ≡ d ∷ ds)
unfolding decimal_onto
decimal_onto-cons zero n c cs = (c, cs, refl)
decimal_onto-cons (suc fuel) n c cs = elim (Bool-cases (ltb n 10)) [
  | inl small ↦ (b'0' + n, c ∷ cs, rw small)
  | inr large ↦ rw large (decimal_onto-cons fuel (n / 10) (b'0' + n % 10) (c ∷ cs))
]

parse_digits-value :
    {s : Bytes} (c : ℕ) (cs : Bytes) → s ≡ c ∷ cs → parse_digits s ≡ digits_value 0 s
unfolding parse_digits
parse_digits-value c cs e = rw e

pub decimal-cons : (n : ℕ) → (d : ℕ) × (ds : Bytes) × (decimal n ≡ d ∷ ds)
unfolding decimal
decimal-cons n = elim (Bool-cases (ltb n 10)) [
  | inl small ↦ (b'0' + n, [], rw small)
  | inr large ↦ rw large (decimal_onto-cons n (n / 10) (b'0' + n % 10) [])
]

-- What is printed reads back.
pub parse_digits-decimal : (n : ℕ) → parse_digits (decimal n) ≡ some n
parse_digits-decimal n =
    let (d, ds, e) = decimal-cons n in
    parse_digits-value d ds e
    ∙ unfold decimal in
      digits_value-decimal_onto (suc n) n [] (omega arith) ∙ unfold digits_value in refl

-- Digits begin with a digit.
pub parse_digits_head :
    (c : ℕ) (cs : Bytes) {n : ℕ} → parse_digits (c ∷ cs) ≡ some n → (b'0' ≤ c) × (c ≤ b'9')
unfolding parse_digits
parse_digits_head c cs h = ground arith

-- `fmt.Sprintf("%d", n)` of a signed integer.
unfoldable pub decimal_int : ℤ → Bytes
unfolding decimal
decimal_int (pos n) = decimal n
decimal_int (negsuc n) = b'-' ∷ decimal (suc n)

-- The `int32` with these low 32 bits.
from_bits32 : ℕ → ℤ
from_bits32 m = if ltb m (2 ^ 31) then pos m else negsuc (2 ^ 32 - 1 - m)

-- `int32(n)`, which keeps the low 32 bits.
unfoldable pub to_int32 : ℤ → ℤ
unfolding from_bits32
to_int32 (pos n) = from_bits32 (n % 2 ^ 32)
to_int32 (negsuc n) = from_bits32 (2 ^ 32 - 1 - n % 2 ^ 32)

-- Conversion keeps what an `int32` can hold.
pub to_int32_pos : (n : ℕ) → n < 2 ^ 31 → to_int32 (pos n) ≡ pos n
unfolding to_int32
to_int32_pos n h = ground arith

abbrev pub IsDigit : ℕ → Type 0
IsDigit c = (b'0' ≤ c) × (c ≤ b'9')

-- The digits of a positive number, of which the first is not a zero.
abbrev pub IsPositiveNumeral : Bytes → Type 0
IsPositiveNumeral [] = ⊥
IsPositiveNumeral (d ∷ ds) = (b'1' ≤ d) × (d ≤ b'9') × All IsDigit ds

decimal_onto-IsPositiveNumeral :
    (fuel n : ℕ) (rest : Bytes)
    → n < fuel
    → 0 < n
    → All IsDigit rest
    → IsPositiveNumeral (decimal_onto fuel n rest)
unfolding decimal_onto
decimal_onto-IsPositiveNumeral zero n rest h p ds = absurd (omega arith)
decimal_onto-IsPositiveNumeral (suc fuel) n rest h p ds = elim (Bool-cases (ltb n 10)) [
  | inl small ↦ rw small (omega arith, ground arith, ds)
  | inr large ↦ rw large (
      decimal_onto-IsPositiveNumeral fuel (n / 10) ((b'0' + n % 10) ∷ rest) (ground arith)
        (ground arith) ((omega arith, omega arith), ds))
]

pub decimal-IsPositiveNumeral : (n : ℕ) → IsPositiveNumeral (decimal (suc n))
unfolding decimal
decimal-IsPositiveNumeral n =
    decimal_onto-IsPositiveNumeral (suc (suc n)) (suc n) [] (omega arith) (omega arith) tt
