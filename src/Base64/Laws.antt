-- ===== src/Base64/Laws.antt =====
-- encoding/base64: what is encoded decodes again.
use gibson_tool_runner.Base.{
  ℕ, ◌+◌, ◌*◌, ◌/◌, ◌%◌, ◌<◌, Bytes, false, [], ◌∷◌, some, ◌≡◌, refl, arith, eqb, All,
}
use gibson_tool_runner.Base64.{digit, value, encode, decode, groups, without_breaks}

abbrev pub IsByte : ℕ → Type 0
IsByte b = b < 256

value-digit : (v : ℕ) → v < 64 → value (digit v) ≡ some v
unfolding value digit
value-digit v h = ground arith

-- A digit is neither a line break nor a `=`.
digit-plain :
    (v : ℕ)
    → v < 64
    → (eqb (digit v) b'\n' ≡ false) × (eqb (digit v) b'\r' ≡ false) × (eqb (digit v) b'=' ≡ false)
unfolding digit
digit-plain v h = ground arith

-- The bytes of `encode` are digits and `=`.
without_breaks-encode : (s : Bytes) → All IsByte s → without_breaks (encode s) ≡ encode s
unfolding encode without_breaks
without_breaks-encode [] h = refl
without_breaks-encode (a ∷ []) (ha, _) =
    ground (arith, digit-plain (a / 4) (omega arith), digit-plain (a % 4 * 16) (omega arith))
without_breaks-encode (a ∷ b ∷ []) (ha, (hb, _)) = ground (
  arith,
  digit-plain (a / 4) (omega arith),
  digit-plain (a % 4 * 16 + b / 16) (omega arith),
  digit-plain (b % 16 * 4) (omega arith),
)
without_breaks-encode (a ∷ b ∷ c ∷ rest) (ha, (hb, (hc, h))) = ground (
  arith,
  digit-plain (a / 4) (omega arith),
  digit-plain (a % 4 * 16 + b / 16) (omega arith),
  digit-plain (b % 16 * 4 + c / 64) (omega arith),
  digit-plain (c % 64) (omega arith),
  without_breaks-encode rest h,
)

groups-encode : (s : Bytes) → All IsByte s → groups (encode s) ≡ some s
unfolding encode groups
groups-encode [] h = refl
groups-encode (a ∷ []) (ha, _) =
    let v = value-digit (a / 4) (omega arith) in
    let w = value-digit (a % 4 * 16) (omega arith) in
    let first : a / 4 * 4 + a % 4 * 16 / 16 ≡ a = omega arith in rw (v, w, first) refl
groups-encode (a ∷ b ∷ []) (ha, (hb, _)) =
    let v = value-digit (a / 4) (omega arith) in
    let w = value-digit (a % 4 * 16 + b / 16) (omega arith) in
    let x = value-digit (b % 16 * 4) (omega arith) in
    let plain = (digit-plain (b % 16 * 4) (omega arith)).2 in
    let first : a / 4 * 4 + (a % 4 * 16 + b / 16) / 16 ≡ a = omega arith in
    let second : (a % 4 * 16 + b / 16) % 16 * 16 + b % 16 * 4 / 4 ≡ b = omega arith in
    rw (plain, v, w, x, first, second) refl
groups-encode (a ∷ b ∷ c ∷ rest) (ha, (hb, (hc, h))) =
    let v = value-digit (a / 4) (omega arith) in
    let w = value-digit (a % 4 * 16 + b / 16) (omega arith) in
    let x = value-digit (b % 16 * 4 + c / 64) (omega arith) in
    let y = value-digit (c % 64) (omega arith) in
    let plain = (digit-plain (c % 64) (omega arith)).2 in
    let first : a / 4 * 4 + (a % 4 * 16 + b / 16) / 16 ≡ a = omega arith in
    let second : (a % 4 * 16 + b / 16) % 16 * 16 + (b % 16 * 4 + c / 64) / 4 ≡ b = omega arith in
    let third : (b % 16 * 4 + c / 64) % 4 * 64 + c % 64 ≡ c = omega arith in
    rw (plain, v, w, x, y, groups-encode rest h, first, second, third) refl

-- Every text of bytes comes back from its encoding.
pub decode-encode : (s : Bytes) → All IsByte s → decode (encode s) ≡ some s
unfolding decode
decode-encode s h = rw (without_breaks-encode s h) (groups-encode s h)

-- An encoding is one line.
pub encode-IsLine : (s : Bytes) → All IsByte s → All (λ c. eqb c b'\n' ≡ false) (encode s)
unfolding encode
encode-IsLine [] h = tt
encode-IsLine (a ∷ []) (ha, _) = (
  (digit-plain (a / 4) (omega arith)).0,
  ((digit-plain (a % 4 * 16) (omega arith)).0, (refl, (refl, tt))),
)
encode-IsLine (a ∷ b ∷ []) (ha, (hb, _)) = (
  (digit-plain (a / 4) (omega arith)).0,
  (
    (digit-plain (a % 4 * 16 + b / 16) (omega arith)).0,
    ((digit-plain (b % 16 * 4) (omega arith)).0, (refl, tt)),
  ),
)
encode-IsLine (a ∷ b ∷ c ∷ rest) (ha, (hb, (hc, h))) = (
  (digit-plain (a / 4) (omega arith)).0,
  (
    (digit-plain (a % 4 * 16 + b / 16) (omega arith)).0,
    (
      (digit-plain (b % 16 * 4 + c / 64) (omega arith)).0,
      ((digit-plain (c % 64) (omega arith)).0, encode-IsLine rest h),
    ),
  ),
)
