-- ===== src/Json/Maps/Laws.antt =====
-- encoding/json: the keys of a map are distinct.
use gibson_tool_runner.Base.{
  Bytes, ◌||◌, List, [], ◌∷◌, Option, none, some, ◌≡◌, subst, arith, map, mem, ◌==◌, ==_iff,
}
use gibson_tool_runner.Registry.{assign}
use gibson_tool_runner.Registry.Tables.{Distinct}
use gibson_tool_runner.Json.{
  Value, Members, null, bool, number, text, array, object, no_members, member,
}
use gibson_tool_runner.Json.Maps.{entries, map_of, unmarshal_map}
use gibson_tool_runner.Parsers.Lines.{record_of}
use gibson_tool_runner.Json.Parser.{value_of}

abbrev pub keys : {V : Type 0} → List (Bytes × V) → List Bytes
keys = map (λ p. p.0)

mem-assign :
    {V : Type 0} (j k : Bytes) (v : V) (m : List (Bytes × V))
    → mem j (keys (assign k v m)) ≡ j == k || mem j (keys m)
unfolding mem assign
mem-assign j k v [] = ground arith
mem-assign j k v ((i, w) ∷ m) =
    ground (arith, ==_iff i k, ==_iff j k, ==_iff j i, mem-assign j k v m)

Distinct-assign :
    {V : Type 0} (k : Bytes) (v : V) (m : List (Bytes × V))
    → Distinct (keys m)
    → Distinct (keys (assign k v m))
unfolding mem assign
Distinct-assign k v [] d = ground arith
Distinct-assign k v ((i, w) ∷ m) d =
    ground (arith, ==_iff i k, ==_iff k i, mem-assign i k v m, Distinct-assign k v m)

Distinct-entries :
    (m : List (Bytes × Value)) (ms : Members) → Distinct (keys m) → Distinct (keys (entries m ms))
unfolding entries
Distinct-entries m no_members d = d
Distinct-entries m (member k v ms) d = Distinct-entries (assign k v m) ms (Distinct-assign k v m d)

map_of-Distinct :
    (o : Option Value) (m : List (Bytes × Value)) → map_of o ≡ record_of m → Distinct (keys m)
unfolding map_of
map_of-Distinct none m e = absurd (ground arith)
map_of-Distinct (some null) m e = let same : [] ≡ m = cc in subst (λ m. Distinct (keys m)) same tt
map_of-Distinct (some (object ms)) m e =
    let same : entries [] ms ≡ m = cc in
    subst (λ m. Distinct (keys m)) same (Distinct-entries [] ms tt)
map_of-Distinct (some (bool b)) m e = absurd (ground arith)
map_of-Distinct (some (number literal)) m e = absurd (ground arith)
map_of-Distinct (some (text s)) m e = absurd (ground arith)
map_of-Distinct (some (array is)) m e = absurd (ground arith)

pub unmarshal_map-Distinct :
    (input : Bytes) (m : List (Bytes × Value))
    → unmarshal_map input ≡ record_of m
    → Distinct (keys m)
unfolding unmarshal_map
unmarshal_map-Distinct input m e = map_of-Distinct (value_of input) m e
