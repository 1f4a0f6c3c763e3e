-- ===== src/Sandbox/Config/Laws.antt =====
-- internal/sandbox/sandbox.go, `DefaultConfig`: the range of the limits, and the two variables.
use gibson_tool_runner.Base.{
  ℕ, zero, suc, ◌^◌, ◌<◌, Bytes, Bool, true, false, [], ◌∷◌, Option, none, some, ℤ, pos, negsuc,
  is_empty, decimal, decimal_int, parse_digits, parse_digits-decimal, parse_digits_head,
  decimal-cons, ◌≡◌, refl, arith,
}
use gibson_tool_runner.Sandbox.Config.{
  default_output_cap_bytes, default_memory_bytes, env_output_cap_bytes, env_memory_bytes,
  parse_uint, signed, parse_int, positive_int, positive_uint, default_config,
}

-- The numbers that `ParseInt` and `ParseUint` return fit.
abbrev Fits : Option ℤ → Type 0
Fits (some (pos n)) = n < 2 ^ 63
Fits _ = Unit

signed-Fits : (minus : Bool) (n : Option ℕ) → Fits (signed minus n)
unfolding signed
signed-Fits minus none = tt
signed-Fits false (some n) = ground arith
signed-Fits true (some zero) = omega arith
signed-Fits true (some (suc n)) = ground arith

parse_int-Fits : (v : Bytes) → Fits (parse_int v)
unfolding parse_int
parse_int-Fits [] = tt
parse_int-Fits (c ∷ cs) = ground (
  arith,
  signed-Fits true (parse_digits cs),
  signed-Fits false (parse_digits cs),
  signed-Fits false (parse_digits (c ∷ cs)),
)

-- A number that is positive and below `bound`.
abbrev pub InRange : ℕ → ℕ → Type 0
InRange bound n = (0 < n) × (n < bound)

positive_int-InRange :
    (n : Option ℤ) (fallback : ℕ)
    → Fits n
    → InRange (2 ^ 63) fallback
    → InRange (2 ^ 63) (positive_int n fallback)
unfolding positive_int
positive_int-InRange none d f h = h
positive_int-InRange (some (pos zero)) d f h = h
positive_int-InRange (some (pos (suc n))) d f h = (omega arith, f)
positive_int-InRange (some (negsuc n)) d f h = h

abbrev FitsUnsigned : Option ℕ → Type 0
FitsUnsigned (some n) = n < 2 ^ 64
FitsUnsigned none = Unit

parse_uint-Fits : (v : Bytes) → FitsUnsigned (parse_uint v)
unfolding parse_uint
parse_uint-Fits v = ground arith

positive_uint-InRange :
    (n : Option ℕ) (fallback : ℕ)
    → FitsUnsigned n
    → InRange (2 ^ 64) fallback
    → InRange (2 ^ 64) (positive_uint n fallback)
unfolding positive_uint
positive_uint-InRange none d f h = h
positive_uint-InRange (some zero) d f h = h
positive_uint-InRange (some (suc n)) d f h = (omega arith, f)

-- In every environment both limits of `DefaultConfig` are positive, the output cap fits an `int64`
-- and the memory limit fits a `uint64`.
pub default_config-InRange :
    (getenv : Bytes → Bytes)
    → InRange (2 ^ 63) (default_config getenv).output_cap_bytes
      × InRange (2 ^ 64) (default_config getenv).memory_bytes
unfolding default_config
default_config-InRange getenv =
    let v = getenv env_output_cap_bytes in
    let w = getenv env_memory_bytes in
    ground (
      arith,
      positive_int-InRange (parse_int v) default_output_cap_bytes (parse_int-Fits v) (omega arith),
      positive_uint-InRange (parse_uint w) default_memory_bytes (parse_uint-Fits w) (omega arith),
    )

parse_int-decimal : (n : ℕ) → n < 2 ^ 63 → parse_int (decimal n) ≡ some (pos n)
parse_int-decimal n h = by_head (decimal n) (parse_digits-decimal n)
  where
    by_head : (v : Bytes) → parse_digits v ≡ some n → parse_int v ≡ some (pos n)
    by_head [] e = unfold parse_digits in cc
    by_head (c ∷ cs) e = unfold parse_int signed in ground (arith, parse_digits_head c cs e)

-- The range of an `int64`.
abbrev pub IsInt64 : ℤ → Type 0
IsInt64 (pos n) = n < 2 ^ 63
IsInt64 (negsuc n) = n < 2 ^ 63

pub parse_int-decimal_int : (z : ℤ) → IsInt64 z → parse_int (decimal_int z) ≡ some z
unfolding decimal_int
parse_int-decimal_int (pos n) h = parse_int-decimal n h
parse_int-decimal_int (negsuc n) h =
    unfold parse_int signed in ground (arith, parse_digits-decimal (suc n))

parse_uint-decimal : (n : ℕ) → n < 2 ^ 64 → parse_uint (decimal n) ≡ some n
unfolding parse_uint
parse_uint-decimal n h = ground (arith, parse_digits-decimal n)

is_empty-decimal : (n : ℕ) → is_empty (decimal n) ≡ false
unfolding is_empty
is_empty-decimal n = let (d, ds, e) = decimal-cons n in rw e

-- Both variables set to positive numerals that fit their types give exactly these limits.
pub default_config_set :
    (getenv : Bytes → Bytes) (cap memory : ℕ)
    → getenv env_output_cap_bytes ≡ decimal cap
    → getenv env_memory_bytes ≡ decimal memory
    → InRange (2 ^ 63) cap
    → InRange (2 ^ 64) memory
    → default_config getenv ≡ record { output_cap_bytes = cap; memory_bytes = memory }
unfolding default_config
default_config_set getenv zero memory e f h k = absurd (omega arith)
default_config_set getenv (suc cap) zero e f h k = absurd (omega arith)
default_config_set getenv (suc cap) (suc memory) e f h k =
    rw (e, f)
      (rw
        (
          is_empty-decimal,
          is_empty-decimal,
          parse_int-decimal (suc cap) h.1,
          parse_uint-decimal (suc memory) k.1,
        )
        (unfold positive_int positive_uint in refl))
