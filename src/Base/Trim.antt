-- ===== src/Base/Trim.antt =====
-- `bytes.TrimSpace` and `strings.TrimSpace`: Unicode white space, in UTF-8, off both ends.
use Prim.Native.Nat.{ℕ, zero, suc, ◌<◌}
use mathlib.Core.Bool.{Bool, ◌&&◌, ◌||◌}
use mathlib.Core.List.{[], ◌∷◌, ◌++◌, reverse, reverse-append, reverse-reverse}
use mathlib.Core.Path.{◌≡◌, refl, sym, ap, ◌∙◌}
use native.Mathlib.Omega.{arith}
use gibson_tool_runner.Base.Tests.{leb, eqb, if◌then◌else◌}
use gibson_tool_runner.Base.Text.{Bytes}

-- \t \n \v \f \r and the space.
is_space1 : ℕ → Bool
is_space1 a = (leb 9 a && leb a 13) || eqb a 32

-- U+0085 and U+00A0.
is_space2 : ℕ → ℕ → Bool
is_space2 a b = eqb a 0xc2 && (eqb b 0x85 || eqb b 0xa0)

-- U+1680, U+2000 to U+200A, U+2028, U+2029, U+202F, U+205F and U+3000.
is_space3 : ℕ → ℕ → ℕ → Bool
is_space3 a b c =
    (eqb a 0xe1 && eqb b 0x9a && eqb c 0x80)
    || (eqb a 0xe2
        && ((eqb b 0x80 && ((leb 0x80 c && leb c 0x8a) || eqb c 0xa8 || eqb c 0xa9 || eqb c 0xaf))
            || (eqb b 0x81 && eqb c 0x9f)))
    || (eqb a 0xe3 && eqb b 0x80 && eqb c 0x80)

-- How many bytes of white space a text begins with, in one character.
unfoldable pub space_width : Bytes → ℕ
unfolding is_space1 is_space2 is_space3
space_width [] = 0
space_width (a ∷ []) = if is_space1 a then 1 else 0
space_width (a ∷ b ∷ []) = if is_space1 a then 1 else if is_space2 a b then 2 else 0
space_width (a ∷ b ∷ c ∷ r) =
    if is_space1 a then 1 else if is_space2 a b then 2 else if is_space3 a b c then 3 else 0

-- The same for the bytes in reverse, for the right end.
unfoldable pub space_width_back : Bytes → ℕ
unfolding is_space1 is_space2 is_space3
space_width_back [] = 0
space_width_back (a ∷ []) = if is_space1 a then 1 else 0
space_width_back (a ∷ b ∷ []) = if is_space1 a then 1 else if is_space2 b a then 2 else 0
space_width_back (a ∷ b ∷ c ∷ r) =
    if is_space1 a then 1 else if is_space2 b a then 2 else if is_space3 c b a then 3 else 0

-- Drops characters while they have a width, and first `left` bytes of one that is dropped already.
unfoldable pub trim_while : (Bytes → ℕ) → ℕ → Bytes → Bytes
trim_while width left [] = []
trim_while width (suc left) (c ∷ cs) = trim_while width left cs
trim_while width zero (c ∷ cs) = elim (width (c ∷ cs)) [
  | zero ↦ c ∷ cs
  | suc left ↦ trim_while width left cs
]

unfoldable pub trim_space : Bytes → Bytes
unfolding trim_while space_width space_width_back
trim_space s = reverse (trim_while space_width_back 0 (reverse (trim_while space_width 0 s)))

-- A byte that is no part of white space.
abbrev pub IsVisible : ℕ → Type 0
IsVisible c = (0x20 < c) × (c < 0x80)

space_width_visible : (c : ℕ) (cs : Bytes) → IsVisible c → space_width (c ∷ cs) ≡ 0
unfolding space_width is_space1 is_space2 is_space3
space_width_visible c [] h = ground arith
space_width_visible c (d ∷ []) h = ground arith
space_width_visible c (d ∷ e ∷ cs) h = ground arith

space_width_back_visible : (c : ℕ) (cs : Bytes) → IsVisible c → space_width_back (c ∷ cs) ≡ 0
unfolding space_width_back is_space1 is_space2 is_space3
space_width_back_visible c [] h = ground arith
space_width_back_visible c (d ∷ []) h = ground arith
space_width_back_visible c (d ∷ e ∷ cs) h = ground arith

trim_while_kept :
    (width : Bytes → ℕ) (c : ℕ) (cs : Bytes)
    → width (c ∷ cs) ≡ 0
    → trim_while width 0 (c ∷ cs) ≡ c ∷ cs
unfolding trim_while
trim_while_kept width c cs e = ground (arith, e)

-- Nothing comes off a text between two such bytes.
pub trim_space_visible :
    (c d : ℕ) (body : Bytes)
    → IsVisible c
    → IsVisible d
    → trim_space (c ∷ (body ++ (d ∷ []))) ≡ c ∷ (body ++ (d ∷ []))
unfolding trim_space
trim_space_visible c d body h k =
    let whole = c ∷ (body ++ (d ∷ [])) in
    let back : reverse whole ≡ d ∷ reverse (c ∷ body) = reverse-append (c ∷ body) (d ∷ []) in
    let front =
      trim_while_kept space_width c (body ++ (d ∷ []))
        (space_width_visible c (body ++ (d ∷ [])) h) in
    let rear =
      trim_while_kept space_width_back d (reverse (c ∷ body))
        (space_width_back_visible d (reverse (c ∷ body)) k) in
    ap (λ s. reverse (trim_while space_width_back 0 (reverse s))) front
    ∙ ap (λ s. reverse (trim_while space_width_back 0 s)) back
    ∙ ap reverse rear
    ∙ ap reverse (sym back)
    ∙ reverse-reverse whole

space_width_back_newline : (cs : Bytes) → space_width_back (b'\n' ∷ cs) ≡ 1
unfolding space_width_back is_space1
space_width_back_newline [] = refl
space_width_back_newline (d ∷ []) = refl
space_width_back_newline (d ∷ e ∷ cs) = refl

trim_while_dropped :
    (width : Bytes → ℕ) (c : ℕ) (cs : Bytes)
    → width (c ∷ cs) ≡ 1
    → trim_while width 0 (c ∷ cs) ≡ trim_while width 0 cs
unfolding trim_while
trim_while_dropped width c cs e = ground (arith, e)

-- A newline comes off the end.
pub trim_space_newline :
    (c d : ℕ) (body : Bytes)
    → IsVisible c
    → IsVisible d
    → trim_space (c ∷ (body ++ (d ∷ b'\n' ∷ []))) ≡ c ∷ (body ++ (d ∷ []))
unfolding trim_space
trim_space_newline c d body h k =
    let kept = d ∷ reverse (c ∷ body) in
    let back : reverse (c ∷ (body ++ (d ∷ b'\n' ∷ []))) ≡ b'\n' ∷ kept =
      reverse-append (c ∷ body) (d ∷ b'\n' ∷ []) in
    let back' : reverse (c ∷ (body ++ (d ∷ []))) ≡ kept = reverse-append (c ∷ body) (d ∷ []) in
    let front =
      trim_while_kept space_width c (body ++ (d ∷ b'\n' ∷ []))
        (space_width_visible c (body ++ (d ∷ b'\n' ∷ [])) h) in
    let rear =
      trim_while_dropped space_width_back b'\n' kept (space_width_back_newline kept)
      ∙ trim_while_kept space_width_back d (reverse (c ∷ body))
          (space_width_back_visible d (reverse (c ∷ body)) k) in
    ap (λ s. reverse (trim_while space_width_back 0 (reverse s))) front
    ∙ ap (λ s. reverse (trim_while space_width_back 0 s)) back
    ∙ ap reverse rear
    ∙ ap reverse (sym back')
    ∙ reverse-reverse (c ∷ (body ++ (d ∷ [])))
