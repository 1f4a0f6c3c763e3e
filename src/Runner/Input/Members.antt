-- ===== src/Runner/Input/Members.antt =====
-- cmd/gibson-runner/main.go, `decodeInputJSON`: `delete` on a map with distinct keys.
use gibson_tool_runner.Base.{
  Bytes, false, List, [], ◌∷◌, none, ◌≡◌, refl, arith, map, mem, index, ◌==◌, ==_iff, if◌then◌else◌,
}
use gibson_tool_runner.Registry.Tables.{Distinct}
use gibson_tool_runner.Runner.{erase}

module _ {V : Type 0} where
  abbrev pub keys : List (Bytes × V) → List Bytes
  keys = map (λ (p : Bytes × V). p.0)

  pub index-erase :
      (j k : Bytes) (m : List (Bytes × V))
      → index j (erase k m) ≡ (if j == k then none else index j m)
  unfolding index erase
  index-erase j k [] = ground arith
  index-erase j k ((i, v) ∷ m) =
      ground (arith, ==_iff i j, ==_iff i k, ==_iff j k, index-erase j k m)

  mem-erase :
      (j k : Bytes) (m : List (Bytes × V))
      → mem j (keys m) ≡ false
      → mem j (keys (erase k m)) ≡ false
  unfolding mem erase
  mem-erase j k [] h = refl
  mem-erase j k ((i, v) ∷ m) h = ground (arith, mem-erase j k m)

  pub Distinct-erase :
      (k : Bytes) (m : List (Bytes × V)) → Distinct (keys m) → Distinct (keys (erase k m))
  unfolding erase
  Distinct-erase k [] d = tt
  Distinct-erase k ((i, v) ∷ m) d = ground (arith, mem-erase i k m, Distinct-erase k m)

  pub index-mem : (k : Bytes) (m : List (Bytes × V)) → mem k (keys m) ≡ false → index k m ≡ none
  unfolding index mem
  index-mem k [] h = refl
  index-mem k ((i, v) ∷ m) h = ground (arith, ==_iff i k, ==_iff k i, index-mem k m)
