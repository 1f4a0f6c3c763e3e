-- ===== src/Base64.antt =====
-- encoding/base64, `StdEncoding`, as cmd/gibson-runner and internal/bridgerunner use it: `EncodeToString`
-- and `DecodeString`. A byte is a number below 256.
pub mod Laws
use gibson_tool_runner.Base.{
  ℕ, ◌+◌, ◌-◌, ◌*◌, ◌/◌, ◌%◌, Bytes, Bool, true, false, not, ◌&&◌, ◌||◌, List, [], ◌∷◌, Option,
  none, some, Error, foreign, codes, eqb, ltb, leb, if◌then◌else◌,
}

-- The character of a number below 64.
unfoldable pub digit : ℕ → ℕ
digit v =
    if ltb v 26
    then b'A' + v
    else if ltb v 52
    then b'a' + (v - 26)
    else if ltb v 62
    then b'0' + (v - 52)
    else if eqb v 62
    then b'+'
    else b'/'

-- The number of a character.
unfoldable pub value : ℕ → Option ℕ
value c =
    if leb b'A' c && leb c b'Z'
    then some (c - b'A')
    else if leb b'a' c && leb c b'z'
    then some (c - b'a' + 26)
    else if leb b'0' c && leb c b'9'
    then some (c - b'0' + 52)
    else if eqb c b'+'
    then some 62
    else if eqb c b'/'
    then some 63
    else none

-- Three bytes are four characters, and what is left at the end is padded.
unfoldable pub encode : Bytes → Bytes
encode [] = []
encode (a ∷ []) = digit (a / 4) ∷ digit (a % 4 * 16) ∷ b'=' ∷ b'=' ∷ []
encode (a ∷ b ∷ []) = digit (a / 4) ∷ digit (a % 4 * 16 + b / 16) ∷ digit (b % 16 * 4) ∷ b'=' ∷ []
encode (a ∷ b ∷ c ∷ rest) =
    digit (a / 4)
    ∷ digit (a % 4 * 16 + b / 16)
    ∷ digit (b % 16 * 4 + c / 64)
    ∷ digit (c % 64)
    ∷ encode rest

-- `\n` and `\r` are passed over wherever they stand.
unfoldable pub without_breaks : Bytes → Bytes
without_breaks [] = []
without_breaks (c ∷ cs) =
    let rest = without_breaks cs in if eqb c b'\n' || eqb c b'\r' then rest else c ∷ rest

-- The bytes of a group of four characters, with those of the groups behind it.
full : Option ℕ → Option ℕ → Option ℕ → Option ℕ → Option Bytes → Option Bytes
full (some v) (some w) (some x) (some y) (some bytes) =
    some ((v * 4 + w / 16) ∷ (w % 16 * 16 + x / 4) ∷ (x % 4 * 64 + y) ∷ bytes)
full _ _ _ _ _ = none

-- The last group with one `=`, and with two of them. Bits behind the last byte are not looked at.
two_bytes : Option ℕ → Option ℕ → Option ℕ → Option Bytes
two_bytes (some v) (some w) (some x) = some ((v * 4 + w / 16) ∷ (w % 16 * 16 + x / 4) ∷ [])
two_bytes _ _ _ = none

one_byte : Option ℕ → Option ℕ → Option Bytes
one_byte (some v) (some w) = some ((v * 4 + w / 16) ∷ [])
one_byte _ _ = none

abbrev is_end : Bytes → Bool
is_end [] = true
is_end (_ ∷ _) = false

unfoldable pub groups : Bytes → Option Bytes
unfolding full two_bytes one_byte
groups [] = some []
groups (a ∷ b ∷ c ∷ d ∷ rest) =
    let more = groups rest in
    if eqb d b'='
    then if is_end rest
      then if eqb c b'='
        then one_byte (value a) (value b)
        else two_bytes (value a) (value b) (value c)
      else none
    else full (value a) (value b) (value c) (value d) more
groups _ = none

-- `CorruptInputError`, without the offset.
abbrev pub corrupt_input : Error
corrupt_input = foreign (codes "illegal base64 data")

-- `none` is a `CorruptInputError`.
unfoldable pub decode : Bytes → Option Bytes
decode s = groups (without_breaks s)
