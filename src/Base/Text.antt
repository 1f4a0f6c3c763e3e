-- ===== src/Base/Text.antt =====
-- Go strings and byte slices are lists of bytes.
use Prim.Native.Nat.{ℕ}
use Prim.Native.Char.{code}
use Prim.Native.String.{String}
use mathlib.Core.Path.{◌≡◌, refl}
use mathlib.Core.Logic.{◌↔◌, ◌≢◌}
use mathlib.Core.Bool.{Bool, true, false, ◌&&◌, ◌||◌}
use mathlib.Core.Option.{Option, none, some}
use mathlib.Core.List.{List, [], ◌∷◌}
use native.Mathlib.Omega.{arith}
use gibson_tool_runner.Base.Tests.{eqb, if◌then◌else◌}

abbrev pub Bytes : Type 0
Bytes = List ℕ

-- A literal of the source; every literal is ASCII, so its code points are its bytes.
abbrev pub codes : String → Bytes
codes String.[] = []
codes (String.◌∷◌ c s) = code c ∷ codes s

infix 50 ◌==◌
unfoldable pub ◌==◌ : Bytes → Bytes → Bool
[] == [] = true
(x ∷ xs) == (y ∷ ys) = eqb x y && xs == ys
_ == _ = false

pub ==_iff : (a b : Bytes) → ((a == b) ≡ true) ↔ (a ≡ b)
unfolding ◌==◌
==_iff (x ∷ a) (y ∷ b) = ground (arith, ==_iff a b)
==_iff _ _ = ground arith

-- `v == ""`
unfoldable pub is_empty : Bytes → Bool
is_empty [] = true
is_empty (_ ∷ _) = false

pub is_empty-true : (s : Bytes) → is_empty s ≡ true → s ≡ []
unfolding is_empty
is_empty-true [] h = refl
is_empty-true (c ∷ s) h = cc

pub is_empty-false : (s : Bytes) → is_empty s ≡ false → s ≢ []
unfolding is_empty
is_empty-false [] h = λ e. cc
is_empty-false (c ∷ s) h = λ e. cc

-- `strings.HasPrefix(s, prefix)`
unfoldable pub has_prefix : Bytes → Bytes → Bool
has_prefix s [] = true
has_prefix [] (y ∷ ys) = false
has_prefix (x ∷ xs) (y ∷ ys) = eqb x y && has_prefix xs ys

-- `strings.Contains(s, part)`
unfoldable pub contains : Bytes → Bytes → Bool
unfolding has_prefix
contains [] part = has_prefix [] part
contains (x ∷ xs) part = has_prefix (x ∷ xs) part || contains xs part

-- Membership of a text in a list of texts.
unfoldable pub mem : Bytes → List Bytes → Bool
unfolding ◌==◌
mem s [] = false
mem s (t ∷ ts) = s == t || mem s ts

-- `v, ok := m[k]` for a Go map with string keys as an association list; `none` is a missing key.
module _ {ℓ} {V : Type ℓ} where
  unfoldable pub index : Bytes → List (Bytes × V) → Option V
  unfolding ◌==◌
  index k [] = none
  index k ((j, v) ∷ m) = if j == k then some v else index k m
