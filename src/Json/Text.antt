-- ===== src/Json/Text.antt =====
-- encoding/json: string literals. The literal is cut out of the input first, and then read.
pub mod Laws
use gibson_tool_runner.Base.{
  ℕ, zero, suc, ◌+◌, ◌-◌, ◌*◌, ◌/◌, ◌%◌, Bytes, codes, Bool, true, false, not, ◌&&◌, ◌||◌, List, [],
  ◌∷◌, ◌++◌, Option, none, some, eqb, ltb, leb, if◌then◌else◌,
}

-- Where a scan of a literal stands: between characters, behind a backslash, or before hex digits.
pub data Mode : Type 0 where
  plain escaped : Mode
  hex : ℕ → Mode

abbrev is_between : ℕ → ℕ → ℕ → Bool
is_between a c b = leb a c && leb c b

unfoldable pub is_hex : ℕ → Bool
is_hex c = is_between b'0' c b'9' || is_between b'a' c b'f' || is_between b'A' c b'F'

-- The characters that may stand behind a backslash, but for `u`.
unfoldable pub is_escape : ℕ → Bool
is_escape c =
    eqb c b'"'
    || eqb c b'\\'
    || eqb c b'/'
    || eqb c b'b'
    || eqb c b'f'
    || eqb c b'n'
    || eqb c b'r'
    || eqb c b't'

-- The mode behind a character; `none` is a syntax error.
unfoldable pub next_mode : Mode → ℕ → Option Mode
unfolding is_escape is_hex
next_mode plain c = if eqb c b'\\' then some escaped else if ltb c 0x20 then none else some plain
next_mode escaped c = if is_escape c then some plain else if eqb c b'u' then some (hex 3) else none
next_mode (hex zero) c = if is_hex c then some plain else none
next_mode (hex (suc n)) c = if is_hex c then some (hex n) else none

abbrev is_end : Mode → ℕ → Bool
is_end plain c = eqb c b'"'
is_end _ c = false

unfoldable pub cons_first : ℕ → Option (Bytes × Bytes) → Option (Bytes × Bytes)
cons_first c none = none
cons_first c (some (literal, rest)) = some (c ∷ literal, rest)

-- Behind the opening quote: the literal up to the closing quote, and what stands behind that.
unfoldable pub cut : Mode → Bytes → Option (Bytes × Bytes)
unfolding next_mode cons_first
cut mode [] = none
cut mode (c ∷ cs) =
    if is_end mode c
    then some ([], cs)
    else elim (next_mode mode c) [ none ↦ none | some mode' ↦ cons_first c (cut mode' cs) ]

-- `utf8.AppendRune`
unfoldable pub utf8 : ℕ → Bytes
utf8 r =
    if ltb r 0x80
    then r ∷ []
    else if ltb r 0x800
    then (0xc0 + r / 64) ∷ (0x80 + r % 64) ∷ []
    else if ltb r 0x10000
    then (0xe0 + r / 4096) ∷ (0x80 + r / 64 % 64) ∷ (0x80 + r % 64) ∷ []
    else (0xf0 + r / 262144) ∷ (0x80 + r / 4096 % 64) ∷ (0x80 + r / 64 % 64) ∷ (0x80 + r % 64) ∷ []

-- `utf8.RuneError`
abbrev replacement : Bytes
replacement = 0xef ∷ 0xbf ∷ 0xbd ∷ []

abbrev is_next : ℕ → Bool
is_next c = is_between 0x80 c 0xbf

-- The range of the second byte behind a first byte of three or four.
abbrev is_second : ℕ → ℕ → Bool
is_second a b =
    if eqb a 0xe0
    then is_between 0xa0 b 0xbf
    else if eqb a 0xed
    then is_between 0x80 b 0x9f
    else if eqb a 0xf0
    then is_between 0x90 b 0xbf
    else if eqb a 0xf4
    then is_between 0x80 b 0x8f
    else is_next b

-- A character that is not ASCII: its bytes, and how many of them stand behind the first. A byte that begins no
-- valid character becomes the replacement character.
unfoldable pub wide : ℕ → Bytes → Bytes × ℕ
wide a (b ∷ c ∷ d ∷ cs) =
    if is_between 0xc2 a 0xdf && is_next b
    then (a ∷ b ∷ [], 1)
    else if is_between 0xe0 a 0xef && is_second a b && is_next c
    then (a ∷ b ∷ c ∷ [], 2)
    else if is_between 0xf0 a 0xf4 && is_second a b && is_next c && is_next d
    then (a ∷ b ∷ c ∷ d ∷ [], 3)
    else (replacement, 0)
wide a (b ∷ c ∷ []) =
    if is_between 0xc2 a 0xdf && is_next b
    then (a ∷ b ∷ [], 1)
    else if is_between 0xe0 a 0xef && is_second a b && is_next c
    then (a ∷ b ∷ c ∷ [], 2)
    else (replacement, 0)
wide a (b ∷ []) = if is_between 0xc2 a 0xdf && is_next b then (a ∷ b ∷ [], 1) else (replacement, 0)
wide a [] = (replacement, 0)

abbrev hex_value : ℕ → ℕ
hex_value c = if leb c b'9' then c - b'0' else if leb c b'F' then c - b'A' + 10 else c - b'a' + 10

-- `getu4`, of four digits that the scan has seen.
unfoldable pub four_digits : Bytes → ℕ
four_digits (a ∷ b ∷ c ∷ d ∷ cs) =
    ((hex_value a * 16 + hex_value b) * 16 + hex_value c) * 16 + hex_value d
four_digits _ = 0

-- The number of a `\u` escape that a text begins with, or 0.
unfoldable pub next_unit : Bytes → ℕ
unfolding four_digits
next_unit (a ∷ b ∷ cs) = if eqb a b'\\' && eqb b b'u' then four_digits cs else 0
next_unit _ = 0

abbrev drop4 : Bytes → Bytes
drop4 (a ∷ b ∷ c ∷ d ∷ cs) = cs
drop4 _ = []

-- The text of a `\u` escape, and how many characters of the literal it takes behind the backslash. Two
-- escapes can be the halves of one character; half of one alone is the replacement character.
unfoldable pub unicode : Bytes → Bytes × ℕ
unfolding utf8 four_digits next_unit
unicode cs =
    let high = four_digits cs in
    let low = next_unit (drop4 cs) in
    if not (is_between 0xd800 high 0xdfff)
    then (utf8 high, 5)
    else if leb high 0xdbff && is_between 0xdc00 low 0xdfff
    then (utf8 (0x10000 + (high - 0xd800) * 1024 + (low - 0xdc00)), 11)
    else (replacement, 5)

unfoldable pub escape : Bytes → Bytes × ℕ
unfolding unicode
escape [] = ([], 0)
escape (c ∷ cs) =
    if eqb c b'u'
    then unicode cs
    else if eqb c b'b'
    then (8 ∷ [], 1)
    else if eqb c b'f'
    then (12 ∷ [], 1)
    else if eqb c b'n'
    then (10 ∷ [], 1)
    else if eqb c b'r'
    then (13 ∷ [], 1)
    else if eqb c b't'
    then (9 ∷ [], 1)
    else (c ∷ [], 1)

-- What a literal begins with: the text, and how many characters more it takes.
unfoldable pub unit : ℕ → Bytes → Bytes × ℕ
unfolding escape wide
unit c cs = if eqb c b'\\' then escape cs else if ltb c 0x80 then (c ∷ [], 0) else wide c cs

-- The text of a literal; first `left` characters that are read already are passed over.
unfoldable pub unquote : ℕ → Bytes → Bytes
unfolding unit
unquote left [] = []
unquote (suc left) (c ∷ cs) = unquote left cs
unquote zero (c ∷ cs) = let (text, more) = unit c cs in text ++ unquote more cs
