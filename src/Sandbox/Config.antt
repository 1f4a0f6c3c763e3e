-- ===== src/Sandbox/Config.antt =====
-- internal/sandbox/sandbox.go, `Config` and `DefaultConfig`. The environment is a parameter:
-- `getenv k` is `os.Getenv(k)`, empty when the variable is not set.
pub mod Laws
use gibson_tool_runner.Base.{
  ℕ, zero, suc, ◌+◌, ◌-◌, ◌*◌, ◌^◌, ◌<◌, ◌≤◌, Bytes, codes, Bool, true, false, ◌&&◌, List, [], ◌∷◌,
  Option, none, some, ℤ, pos, negsuc, ltb, leb, eqb, is_empty, decimal, parse_digits,
  parse_digits-decimal, ◌≡◌, refl, arith, if◌then◌else◌,
}

pub record Config : Type 0 where
  pub output_cap_bytes : ℕ
  pub memory_bytes : ℕ

abbrev pub default_output_cap_bytes : ℕ
default_output_cap_bytes = 100 * 1024 * 1024

abbrev pub default_memory_bytes : ℕ
default_memory_bytes = 256 * 1024 * 1024

abbrev pub env_output_cap_bytes : Bytes
env_output_cap_bytes = codes "TOOL_RUNNER_OUTPUT_CAP_BYTES"

abbrev pub env_memory_bytes : Bytes
env_memory_bytes = codes "TOOL_RUNNER_MEMORY_BYTES"

-- `strconv.ParseUint(v, 10, 64)`; `none` is an error.
unfoldable pub parse_uint : Bytes → Option ℕ
parse_uint v = elim (parse_digits v) [
  | none ↦ none
  | some n ↦ if ltb n (2 ^ 64) then some n else none
]

signed : Bool → Option ℕ → Option ℤ
signed minus none = none
signed false (some n) = if ltb n (2 ^ 63) then some (pos n) else none
signed true (some zero) = some (pos 0)
signed true (some (suc n)) = if ltb n (2 ^ 63) then some (negsuc n) else none

-- `strconv.ParseInt(v, 10, 64)`: one sign may stand in front of the digits.
unfoldable pub parse_int : Bytes → Option ℤ
unfolding signed
parse_int [] = none
parse_int (c ∷ cs) =
    if eqb c b'-'
    then signed true (parse_digits cs)
    else if eqb c b'+'
    then signed false (parse_digits cs)
    else signed false (parse_digits (c ∷ cs))

-- `err == nil && n > 0`, for the two kinds of number.
unfoldable pub positive_int : Option ℤ → ℕ → ℕ
positive_int (some (pos (suc n))) fallback = suc n
positive_int _ fallback = fallback

unfoldable pub positive_uint : Option ℕ → ℕ → ℕ
positive_uint (some (suc n)) fallback = suc n
positive_uint _ fallback = fallback

unfoldable pub default_config : (Bytes → Bytes) → Config
default_config getenv =
    let cap = getenv env_output_cap_bytes in
    let memory = getenv env_memory_bytes in
    record {
      output_cap_bytes =
          if is_empty cap
          then default_output_cap_bytes
          else positive_int (parse_int cap) default_output_cap_bytes;
      memory_bytes =
          if is_empty memory
          then default_memory_bytes
          else positive_uint (parse_uint memory) default_memory_bytes;
    }
